-- ===== src/Strings.antt =====
-- C strings: a text in memory with its NUL, and the strings of a program's text, for COMMAND and
-- DEBUG.
use Prim.{Unit}
use rmdos.Base.{
  ℕ, zero, suc, ◌+◌, ◌≤◌, ◌<◌, Bool, true, false, ◌&&◌, List, [], ◌∷◌, ◌≡◌, ◌≢◌, refl, ◌∙◌, arith,
  ◌==◌, Buffer, length,
}
use rmdos.Runtime.{toupper_ch}

-- A text at `p` with its NUL.
abbrev pub At : List ℕ → Buffer → ℕ → Type 0
At [] m p = m p ≡ 0
At (c ∷ cs) m p = (m p ≡ c) × (c < 256) × (c ≢ 0) × At cs m (p + 1)

-- The same bytes hold the same text.
pub At-same :
    (cs : List ℕ) (m m' : Buffer) (p : ℕ)
    → ((j : ℕ) → p ≤ j → j ≤ p + length cs → m' j ≡ m j)
    → At cs m p
    → At cs m' p
At-same [] m m' p h a = h p (omega arith) (omega arith) ∙ a
At-same (c ∷ cs) m m' p h (e, b, z, a) = (
  h p (omega arith) (omega arith) ∙ e,
  b,
  z,
  At-same cs m m' (p + 1) (λ j x y. h j (omega arith) (omega arith)) a,
)

-- The text behind the first `n` bytes.
abbrev pub drop : ℕ → List ℕ → List ℕ
drop zero cs = cs
drop (suc n) [] = []
drop (suc n) (c ∷ cs) = drop n cs

pub At-drop :
    (n : ℕ) (cs : List ℕ) (m : Buffer) (p : ℕ)
    → n ≤ length cs
    → At cs m p
    → At (drop n cs) m (p + n)
At-drop zero cs m p h a = let here : p + 0 ≡ p = omega arith in rw here a
At-drop (suc n) [] m p h a = absurd (omega arith)
At-drop (suc n) (c ∷ cs) m p h (e, b, z, a) =
    let there : p + suc n ≡ p + 1 + n = omega arith in
    rw there (At-drop n cs m (p + 1) (omega arith) a)

-- A string of the program text.
abbrev pub lit : List ℕ → Buffer
lit [] j = 0
lit (c ∷ cs) zero = c
lit (c ∷ cs) (suc j) = lit cs j

abbrev pub Bytes : List ℕ → Type 0
Bytes [] = Unit
Bytes (c ∷ cs) = (c < 256) × (c ≢ 0) × Bytes cs

At-suc :
    (cs : List ℕ) (b b' : Buffer) (p : ℕ)
    → ((j : ℕ) → b' (j + 1) ≡ b j)
    → At cs b p
    → At cs b' (p + 1)
At-suc [] b b' p h a = h p ∙ a
At-suc (c ∷ cs) b b' p h (e, l, z, a) = (h p ∙ e, l, z, At-suc cs b b' (p + 1) h a)

pub lit-At : (cs : List ℕ) → Bytes cs → At cs (lit cs) 0
lit-At [] b = refl
lit-At (c ∷ cs) (l, z, b) = (
  refl,
  l,
  z,
  At-suc cs (lit cs) (lit (c ∷ cs)) 0 (λ j. let e : j + 1 ≡ suc j = omega arith in rw e refl)
      (lit-At cs b),
)

-- Two names, upper and lower case the same.
abbrev pub same_name : List ℕ → List ℕ → Bool
same_name [] [] = true
same_name [] (c ∷ cs) = false
same_name (c ∷ cs) [] = false
same_name (c ∷ cs) (d ∷ ds) = toupper_ch d == toupper_ch c && same_name cs ds
