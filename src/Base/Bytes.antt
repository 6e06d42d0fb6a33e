-- ===== src/Base/Bytes.antt =====
-- A byte buffer is a function from offsets to bytes, with no end: a read or a write past the
-- array's size reaches the memory behind it, as in the source, and a bound is a theorem.
use Prim.Native.Nat.{ℕ, zero, suc, ◌+◌, ◌-◌, ◌*◌, ◌/◌, ◌%◌, ◌<◌}
use mathlib.Core.Path.{◌≡◌, refl, ap, ap₂, ◌∙◌}
use mathlib.Core.List.{List, [], ◌∷◌, ◌++◌}
use native.Mathlib.Omega.{arith}
use rmdos.Base.Tests.{◌==◌, if◌then◌else◌}

abbrev pub Buffer : Type 0
Buffer = ℕ → ℕ

-- `buf_set`, which stores the low byte.
abbrev pub buf_set : Buffer → ℕ → ℕ → Buffer
buf_set b i v = λ j. if j == i then v % 256 else b j

-- `peek_word` and `poke_word`, low byte first.
abbrev pub peek_word : Buffer → ℕ → ℕ
peek_word b i = b i + b (i + 1) * 256

abbrev pub poke_word : Buffer → ℕ → ℕ → Buffer
poke_word b i v = buf_set (buf_set b i v) (i + 1) (v / 256)

abbrev pub zeroed : Buffer
zeroed = λ _. 0

-- The `n` bytes from offset `i` on.
abbrev pub slice : Buffer → ℕ → ℕ → List ℕ
slice b i zero = []
slice b i (suc n) = b i ∷ slice b (i + 1) n

abbrev pub length {ℓ} : {A : Type ℓ} → List A → ℕ
length [] = 0
length (x ∷ xs) = suc (length xs)

-- Equal bytes at shifted places give equal slices.
pub slice_shift :
    (b c : Buffer) (i k n : ℕ)
    → ((j : ℕ) → j < n → b (i + j) ≡ c (k + j))
    → slice b i n ≡ slice c k n
slice_shift b c i k zero h = refl
slice_shift b c i k (suc n) h =
    ap₂ ◌∷◌ (grind (arith, h 0))
      (slice_shift b c (i + 1) (k + 1) n (λ j p. grind (arith, h (j + 1))))

pub slice-suc : (b : Buffer) (i n : ℕ) → slice b i (suc n) ≡ slice b i n ++ b (i + n) ∷ []
slice-suc b i zero = ap (λ k. b k ∷ []) (omega arith)
slice-suc b i (suc n) =
    ap (◌∷◌ (b i)) (slice-suc b (i + 1) n ∙ ap (λ k. slice b (i + 1) n ++ b k ∷ []) (omega arith))

pub length-slice : (b : Buffer) (i n : ℕ) → length (slice b i n) ≡ n
length-slice b i zero = refl
length-slice b i (suc n) = ap suc (length-slice b (i + 1) n)

-- The same, for lengths that are equal.
pub slice_eq :
    (b c : Buffer) (i k n m : ℕ)
    → n ≡ m
    → ((j : ℕ) → j < n → b (i + j) ≡ c (k + j))
    → slice b i n ≡ slice c k m
slice_eq b c i k n m e h = slice_shift b c i k n h ∙ ap (slice c k) e

pub slice_cons : (b : Buffer) (i n : ℕ) → 0 < n → slice b i n ≡ b i ∷ slice b (i + 1) (n - 1)
slice_cons b i zero h = elim h [ ]
slice_cons b i (suc n) h = ap (λ k. b i ∷ slice b (i + 1) k) (omega arith)

pub slice_snoc : (b : Buffer) (n : ℕ) → 0 < n → slice b 0 n ≡ slice b 0 (n - 1) ++ b (n - 1) ∷ []
slice_snoc b zero h = elim h [ ]
slice_snoc b (suc n) h =
    let e : suc n - 1 ≡ n = omega arith in
    rw e (slice-suc b 0 n ∙ ap (λ k. slice b 0 n ++ b k ∷ []) (omega arith))

pub slice-append : (b : Buffer) (i n m : ℕ) → slice b i (n + m) ≡ slice b i n ++ slice b (i + n) m
slice-append b i zero m = ap₂ (slice b) (omega arith) (omega arith)
slice-append b i (suc n) m =
    let e : suc n + m ≡ suc (n + m) = omega arith in
    let e' : i + 1 + n ≡ i + suc n = omega arith in
    rw e
      (ap (◌∷◌ (b i)) (slice-append b (i + 1) n m ∙ ap (λ k. slice b (i + 1) n ++ slice b k m) e'))
