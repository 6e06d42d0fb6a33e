-- ===== src/Sort/Text.antt =====
-- The lines of a text, as sort.c takes them from its input.
use rmdos.Base.{
  take, ℕ, zero, suc, ◌+◌, ◌<◌, true, false, List, [], ◌∷◌, ◌++◌, ◌≡◌, refl, inl, inr, ◌⊎◌, arith,
  ◌==◌, if◌then◌else◌, Buffer,
}
use mathlib.Core.Path.{ap₂}
use rmdos.Compare.Texts.{until_nul, text_at_same}
use rmdos.Sort.{line_off}
use rmdos.Sort.Sorted.{line}

abbrev pub take_lines : ℕ → List (List ℕ) → List (List ℕ)
take_lines zero xs = []
take_lines (suc n) [] = []
take_lines (suc n) (x ∷ xs) = x ∷ take_lines n xs

-- What is kept of a line: 39 bytes at most, up to a NUL.
abbrev pub kept : List ℕ → List ℕ
kept xs = until_nul (take 39 xs)

-- The lines of a text without its carriage returns, `cur` being the beginning of the first; what
-- stands behind the last newline is a line unless it is empty.
unfoldable pub lines_from : List ℕ → List ℕ → List (List ℕ)
lines_from [] [] = []
lines_from [] (x ∷ xs) = (x ∷ xs) ∷ []
lines_from (c ∷ cs) cur =
    if c == 13
    then lines_from cs cur
    else if c == 10
    then cur ∷ lines_from cs []
    else lines_from cs (cur ++ c ∷ [])

-- The lines that a state holds.
abbrev pub lines_to : ℕ → Buffer → List (List ℕ)
lines_to zero pool = []
lines_to (suc n) pool = lines_to n pool ++ line pool n ∷ []

pub lines_to_same :
    (n : ℕ) (x y : Buffer) → ((j : ℕ) → j < line_off n → x j ≡ y j) → lines_to n x ≡ lines_to n y
lines_to_same zero x y h = refl
lines_to_same (suc n) x y h =
    ap₂ (λ (a : List (List ℕ)) (b : List ℕ). a ++ b ∷ [])
      (lines_to_same n x y (λ j p. h j (omega arith)))
      (text_at_same 40 (line_off n) (line_off n) x y (λ j p. h (line_off n + j) (omega arith)))

pub take_none : (n : ℕ) → take_lines n [] ≡ []
take_none zero = refl
take_none (suc n) = refl

pub lines_from_cr :
    (c : ℕ) (cs cur : List ℕ) → (c == 13) ≡ true → lines_from (c ∷ cs) cur ≡ lines_from cs cur
unfolding lines_from
lines_from_cr c cs cur e = rw e

pub lines_from_lf :
    (c : ℕ) (cs cur : List ℕ)
    → (c == 13) ≡ false
    → (c == 10) ≡ true
    → lines_from (c ∷ cs) cur ≡ cur ∷ lines_from cs []
unfolding lines_from
lines_from_lf c cs cur e k = rw (e, k)

pub lines_from_byte :
    (c : ℕ) (cs cur : List ℕ)
    → (c == 13) ≡ false
    → (c == 10) ≡ false
    → lines_from (c ∷ cs) cur ≡ lines_from cs (cur ++ c ∷ [])
unfolding lines_from
lines_from_byte c cs cur e k = rw (e, k)

pub take_step :
    (n m : ℕ) (x : List ℕ) (xs : List (List ℕ))
    → ((n ≡ 0) × (m ≡ 0)) ⊎ (n ≡ suc m)
    → take_lines n (x ∷ []) ++ take_lines m xs ≡ take_lines n (x ∷ xs)
take_step n m x xs (inl (e, e')) = rw (e, e') refl
take_step n m x xs (inr e) = rw (e, take_none m) refl
