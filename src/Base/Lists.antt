-- ===== src/Base/Lists.antt =====
-- Lists of bytes.
use Prim.Native.Nat.{ℕ, zero, suc, ◌+◌, ◌≤◌, ◌<◌}
use mathlib.Core.Path.{◌≡◌, refl, ap}
use mathlib.Core.List.{List, [], ◌∷◌, ◌++◌}
use native.Mathlib.Omega.{arith}
use rmdos.Base.Bytes.{Buffer, length, slice, slice_shift}

-- At most the first `n`.
abbrev pub take : ℕ → List ℕ → List ℕ
take zero xs = []
take (suc n) [] = []
take (suc n) (x ∷ xs) = x ∷ take n xs

pub take_more :
    (n : ℕ) (xs : List ℕ) (c : ℕ) → length xs < n → take n (xs ++ c ∷ []) ≡ take n xs ++ c ∷ []
take_more zero xs c h = elim h [ ]
take_more (suc zero) [] c h = refl
take_more (suc (suc n)) [] c h = refl
take_more (suc n) (x ∷ xs) c h = ap (◌∷◌ x) (take_more n xs c (omega arith))

pub take_full : (n : ℕ) (xs : List ℕ) (c : ℕ) → n ≤ length xs → take n (xs ++ c ∷ []) ≡ take n xs
take_full zero xs c h = refl
take_full (suc n) [] c h = absurd (omega arith)
take_full (suc n) (x ∷ xs) c h = ap (◌∷◌ x) (take_full n xs c (omega arith))

pub length-snoc : (xs : List ℕ) (c : ℕ) → length (xs ++ c ∷ []) ≡ length xs + 1
length-snoc [] c = omega arith
length-snoc (x ∷ xs) c = omega (arith, length-snoc xs c)

pub slice_same :
    (x y : Buffer) (i n : ℕ) → ((j : ℕ) → j < n → x (i + j) ≡ y (i + j)) → slice x i n ≡ slice y i n
slice_same x y i n h = slice_shift x y i i n h

pub length-take : (n : ℕ) (xs : List ℕ) → length (take n xs) ≤ n
length-take zero xs = omega arith
length-take (suc n) [] = omega arith
length-take (suc n) (x ∷ xs) = omega (arith, length-take n xs)
