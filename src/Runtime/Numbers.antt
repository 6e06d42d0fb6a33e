-- ===== src/Runtime/Numbers.antt =====
-- What `print_num` prints reads back as the number.
use rmdos.Base.{
  ℕ, zero, suc, ◌+◌, ◌-◌, ◌*◌, ◌/◌, ◌%◌, ◌≤◌, ◌<◌, Bool, true, false, List, [], ◌∷◌, ◌≡◌, inl, inr,
  refl, sym, ap, ◌∙◌, arith, leb, ltb, ◌==◌, if◌then◌else◌, slt, Buffer, buf_set, zeroed,
  Bool-cases,
}
use Prim.{Unit}
use mathlib.Core.Path.{ap₂}
use native.Mathlib.Numerals.{add-one}
use rmdos.Runtime.{Digits, num_digits, emit_digits, print_num}

-- The number that a text of digits writes behind `n`.
abbrev pub value : ℕ → List ℕ → ℕ
value n [] = n
value n (c ∷ cs) = value (n * 10 + (c - 48)) cs

abbrev pub AreDigits : List ℕ → Type 0
AreDigits [] = Unit
AreDigits (c ∷ cs) = (48 ≤ c) × (c ≤ 57) × AreDigits cs

abbrev ten_to : ℕ → ℕ
ten_to zero = 1
ten_to (suc n) = ten_to n * 10

emit_same :
    (i : ℕ) (x y : Buffer) → ((j : ℕ) → j < i → x j ≡ y j) → emit_digits i x ≡ emit_digits i y
unfolding emit_digits
emit_same zero x y h = refl
emit_same (suc i) x y h = ap₂ ◌∷◌ (h i (omega arith)) (emit_same i x y (λ j p. h j (omega arith)))

emit-set :
    (i c : ℕ) (d : Buffer) → c < 256 → emit_digits (i + 1) (buf_set d i c) ≡ c ∷ emit_digits i d
unfolding emit_digits
emit-set i c d h =
    ap (λ (k : ℕ). emit_digits k (buf_set d i c)) (add-one i)
    ∙ ap₂ ◌∷◌ (ground arith) (emit_same i (buf_set d i c) d (λ j p. ground arith))

-- The digits that are stored go before those that were.
record Writes (r : Digits) (n i : ℕ) (d : Buffer) : Type 0 where
  read : value 0 (emit_digits r.count r.digits) ≡ value n (emit_digits i d)
  all : AreDigits (emit_digits i d) → AreDigits (emit_digits r.count r.digits)

num_digits-Writes :
    (left i n : ℕ) (d : Buffer) → n < ten_to left → n < 32768 → Writes (num_digits left i n d) n i d
unfolding num_digits
num_digits-Writes zero i n d h w =
    let none : n ≡ 0 = omega arith in record { read = rw none refl; all = λ a. a }
num_digits-Writes (suc left) i n d h w =
    let c = n % 10 + 48 in
    let set = emit-set i c d (omega arith) in
    let rest =
      num_digits-Writes left (i + 1) (n / 10) (buf_set d i c) (omega arith) (omega arith) in
    let parts : n / 10 * 10 + (c - 48) ≡ n = omega arith in
    elim (Bool-cases (slt 0 n)) [
      | inl e ↦ rw e (record {
        read =
            rest.read ∙ ap (value (n / 10)) set ∙ ap (λ (k : ℕ). value k (emit_digits i d)) parts;
        all = λ a. rest.all (rw set (omega arith, omega arith, a));
      })
      | inr e ↦
          let none : n ≡ 0 = ground arith in
          rw e
            (record { read = ap (λ (k : ℕ). value k (emit_digits i d)) (sym none); all = λ a. a })
    ]

num_digits_none :
    (left i n : ℕ) (d : Buffer)
    → slt 0 n ≡ false
    → num_digits (suc left) i n d ≡ record { count = i; digits = d }
unfolding num_digits
num_digits_none left i n d e = rw e refl

abbrev pub is_nil : List ℕ → Bool
is_nil [] = true
is_nil (c ∷ cs) = false

-- `print_num` prints decimal digits, and some if and only if the word is below 32768; they write
-- the number then. From 32768 on, where the word is negative as a C int, it prints nothing.
pub print_num-value :
    (n : ℕ)
    → n < 65536
    → (value 0 (print_num n) ≡ (if ltb n 32768 then n else 0))
      × AreDigits (print_num n)
      × (is_nil (print_num n) ≡ leb 32768 n)
unfolding print_num
print_num-value n w = elim (Bool-cases (n == 0)) [
  | inl e ↦ let none : n ≡ 0 = ground arith in rw none (refl, (omega arith, omega arith, tt), refl)
  | inr e ↦ elim (Bool-cases (ltb n 32768)) [
    | inl small ↦
        let r = num_digits-Writes 5 0 n zeroed (ground arith) (ground arith) in
        let low : leb 32768 n ≡ false = ground arith in
        rw (e, small, low) (r.read, r.all tt, written _ n r.read (ground arith))
    | inr large ↦
        let negative : slt 0 n ≡ false = ground arith in
        let high : leb 32768 n ≡ true = ground arith in
        rw (e, large, high, num_digits_none 4 0 n zeroed negative) (refl, tt, refl)
  ]
]
  where
    written : (xs : List ℕ) (n : ℕ) → value 0 xs ≡ n → 0 < n → is_nil xs ≡ false
    written [] n e h = absurd (omega arith)
    written (x ∷ xs) n e h = refl
