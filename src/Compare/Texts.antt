-- ===== src/Compare/Texts.antt =====
-- The comparison loop on C strings against the order of texts.
use rmdos.Base.{
  slice, length, ℕ, zero, suc, ◌+◌, ◌≤◌, ◌<◌, true, false, List, [], ◌∷◌, ◌≡◌, ◌⊎◌, inl, inr, refl,
  ap, ◌∙◌, arith, ◌==◌, if◌then◌else◌, Buffer, Bool-cases,
}
use rmdos.Compare.{Sign, less, same, more, is_more, flip, sign_of, compare_from}
use rmdos.Compare.Laws.{IsOrder}

-- The C string at `i`, of at most `n` bytes.
abbrev pub text_at : ℕ → ℕ → Buffer → List ℕ
text_at zero i b = []
text_at (suc n) i b = if b i == 0 then [] else b i ∷ text_at n (i + 1) b

-- Texts in alphabetical order of their bytes.
pub compare_texts : List ℕ → List ℕ → Sign
compare_texts [] [] = same
compare_texts [] (y ∷ ys) = less
compare_texts (x ∷ xs) [] = more
compare_texts (x ∷ xs) (y ∷ ys) = if x == y then compare_texts xs ys else sign_of x y

compare_texts_flips : (xs ys : List ℕ) → compare_texts ys xs ≡ flip (compare_texts xs ys)
unfolding compare_texts
compare_texts_flips [] [] = refl
compare_texts_flips [] (y ∷ ys) = refl
compare_texts_flips (x ∷ xs) [] = refl
compare_texts_flips (x ∷ xs) (y ∷ ys) = ground (arith, compare_texts_flips xs ys)

compare_texts_trans :
    (xs ys zs : List ℕ)
    → is_more (compare_texts xs ys) ≡ false
    → is_more (compare_texts ys zs) ≡ false
    → is_more (compare_texts xs zs) ≡ false
unfolding compare_texts
compare_texts_trans [] ys [] h k = refl
compare_texts_trans [] ys (z ∷ zs) h k = refl
compare_texts_trans (x ∷ xs) [] zs h k = cc
compare_texts_trans (x ∷ xs) (y ∷ ys) [] h k = cc
compare_texts_trans (x ∷ xs) (y ∷ ys) (z ∷ zs) h k = ground (arith, compare_texts_trans xs ys zs)

pub compare_texts-IsOrder : IsOrder compare_texts
compare_texts-IsOrder = record { flips = compare_texts_flips; trans = compare_texts_trans }

-- The loop compares the two C strings as texts, each cut off after `left` bytes.
pub compare_from-texts :
    (left i : ℕ) (x y : Buffer)
    → compare_from left i x y ≡ compare_texts (text_at left i x) (text_at left i y)
unfolding compare_from compare_texts
compare_from-texts zero i x y = refl
compare_from-texts (suc left) i x y = ground (arith, compare_from-texts left (i + 1) x y)

-- The same bytes give the same text, wherever they stand.
pub text_at_same :
    (n i k : ℕ) (x y : Buffer)
    → ((j : ℕ) → j < n → x (i + j) ≡ y (k + j))
    → text_at n i x ≡ text_at n k y
text_at_same zero i k x y h = refl
text_at_same (suc n) i k x y h =
    let here : x i ≡ y k = ground (arith, h 0) in
    let rest = text_at_same n (i + 1) (k + 1) x y (λ j p. ground (arith, h (j + 1))) in
    ground (arith)

-- A text that ends before `n` bytes is not cut off there.
pub text_at_longer :
    (n m i : ℕ) (b : Buffer) → n ≤ m → length (text_at n i b) < n → text_at m i b ≡ text_at n i b
text_at_longer zero m i b le h = elim h [ ]
text_at_longer (suc n) zero i b le h = absurd (omega arith)
text_at_longer (suc n) (suc m) i b le h =
    longer (Bool-cases (b i == 0)) h (text_at_longer n m (i + 1) b (omega arith))
  where
    longer :
        ((b i == 0) ≡ true) ⊎ ((b i == 0) ≡ false)
        → length (text_at (suc n) i b) < suc n
        → (length (text_at n (i + 1) b) < n → text_at m (i + 1) b ≡ text_at n (i + 1) b)
        → text_at (suc m) i b ≡ text_at (suc n) i b
    longer (inl e) h rest = rw e refl
    longer (inr e) h rest = ground (arith, rest)

-- What stands before the first NUL.
abbrev pub until_nul : List ℕ → List ℕ
until_nul [] = []
until_nul (x ∷ xs) = if x == 0 then [] else x ∷ until_nul xs

-- A NUL behind `n` bytes ends the text there.
pub text_at-slice :
    (n m i : ℕ) (b : Buffer) → n < m → b (i + n) ≡ 0 → text_at m i b ≡ until_nul (slice b i n)
text_at-slice n zero i b h e = elim h [ ]
text_at-slice zero (suc m) i b h e = let z : b i ≡ 0 = ap b (omega arith) ∙ e in ground arith
text_at-slice (suc n) (suc m) i b h e =
    ground (arith, text_at-slice n m (i + 1) b (omega arith) (ap b (omega arith) ∙ e))

pub text_at_nul : (m i : ℕ) (b : Buffer) → (b i == 0) ≡ true → text_at m i b ≡ []
text_at_nul zero i b e = refl
text_at_nul (suc m) i b e = rw e refl

-- A C string of at most `n` bytes.
unfoldable pub c_text : ℕ → Buffer → List ℕ
c_text n b = text_at n 0 b

pub c_text-slice : (n m : ℕ) (b : Buffer) → n < m → b n ≡ 0 → c_text m b ≡ until_nul (slice b 0 n)
unfolding c_text
c_text-slice n m b h e = text_at-slice n m 0 b h (ap b (omega arith) ∙ e)

pub length-until_nul : (xs : List ℕ) → length (until_nul xs) ≤ length xs
length-until_nul [] = omega arith
length-until_nul (x ∷ xs) = ground (arith, length-until_nul xs)
