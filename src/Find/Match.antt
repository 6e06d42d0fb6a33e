-- ===== src/Find/Match.antt =====
-- `line_has_needle` of find.c: a string in a line, upper and lower case the same.
use rmdos.Base.{
  ℕ, zero, suc, ◌+◌, ◌≤◌, ◌<◌, Bool, true, false, ◌&&◌, ◌||◌, List, [], ◌∷◌, ◌++◌, ◌≡◌, ◌↔◌, inl,
  inr, refl, sym, ap, ◌∙◌, arith, ◌==◌, if◌then◌else◌, Buffer, Bool-cases, length, ==→≡,
}
use mathlib.Core.Path.{ap₂}
use mathlib.Core.List.{map}
use rmdos.Compare.Texts.{text_at, text_at_longer, c_text}
use rmdos.Runtime.{toupper_ch}
use rmdos.Find.{needle_at, needle_from, line_has_needle}

-- `xs` begins with `ns`.
abbrev pub begins : List ℕ → List ℕ → Bool
begins [] xs = true
begins (n ∷ ns) [] = false
begins (n ∷ ns) (x ∷ xs) = n == x && begins ns xs

-- Some byte of `xs` begins `ns`.
abbrev pub has : List ℕ → List ℕ → Bool
has ns [] = false
has ns (x ∷ xs) = begins ns (x ∷ xs) || has ns xs

abbrev pub upper : List ℕ → List ℕ
upper xs = map toupper_ch xs

needle_at-begins :
    (left m : ℕ) (needle linebuf : Buffer) (si di : ℕ)
    → length (text_at m di needle) < m
    → length (text_at left (si + di) linebuf) < left
    → needle_at left needle linebuf si di
      ≡ begins (upper (text_at m di needle)) (upper (text_at left (si + di) linebuf))
unfolding needle_at
needle_at-begins left zero needle linebuf si di h k = elim h [ ]
needle_at-begins zero (suc m) needle linebuf si di h k = elim k [ ]
needle_at-begins (suc left) (suc m) needle linebuf si di h k =
    let next : si + (di + 1) ≡ si + di + 1 = omega arith in
    let rest = needle_at-begins left m needle linebuf si (di + 1) in
    elim (Bool-cases (needle di == 0)) [
      | inl e ↦ rw e refl
      | inr e ↦ elim (Bool-cases (linebuf (si + di) == 0)) [
        | inl e' ↦ rw (e, e') refl
        | inr e' ↦ elim (Bool-cases (toupper_ch (needle di) == toupper_ch (linebuf (si + di)))) [
          | inl same_letter ↦
              rw (e, e', same_letter, sym next) (rest (ground arith) (rw next (ground arith)))
          | inr other ↦ rw (e, e', other) refl
        ]
      ]
    ]

needle_at-left :
    (m n left : ℕ) (needle linebuf : Buffer) (si : ℕ)
    → length (text_at n 0 needle) < n
    → left ≤ m
    → length (text_at left si linebuf) < left
    → needle_at m needle linebuf si 0
      ≡ begins (upper (text_at n 0 needle)) (upper (text_at left si linebuf))
needle_at-left m n left needle linebuf si h le k =
    let start : si + 0 ≡ si = omega arith in
    let longer : text_at m (si + 0) linebuf ≡ text_at left si linebuf =
      ap (λ (i : ℕ). text_at m i linebuf) start ∙ text_at_longer left m si linebuf le k in
    needle_at-begins m n needle linebuf si 0 h (omega (arith, ap length longer))
    ∙ ap (λ (xs : List ℕ). begins (upper (text_at n 0 needle)) (upper xs)) longer

if_or : (a b : Bool) → (if a then true else b) ≡ (a || b)
if_or true b = refl
if_or false b = refl

-- The outer loop, where the inner one finds the text `ns`.
needle_from-has :
    (ns : List ℕ) (left si : ℕ) (needle linebuf : Buffer)
    → ((l i : ℕ)
        → l ≤ 128
        → length (text_at l i linebuf) < l
        → needle_at 128 needle linebuf i 0 ≡ begins ns (upper (text_at l i linebuf)))
    → left ≤ 128
    → length (text_at left si linebuf) < left
    → needle_from left needle linebuf si ≡ has ns (upper (text_at left si linebuf))
unfolding needle_from
needle_from-has ns zero si needle linebuf at le k = elim k [ ]
needle_from-has ns (suc left) si needle linebuf at le k = elim (Bool-cases (linebuf si == 0)) [
  | inl e ↦ rw e refl
  | inr e ↦
      let here = at (suc left) si le k in
      let rest = needle_from-has ns left (si + 1) needle linebuf at (omega arith) (ground arith) in
      rw e (
        (ap₂ (λ (a b : Bool). if a then true else b) (rw e at here) rest)
        ∙ if_or (begins ns (upper (linebuf si ∷ text_at left (si + 1) linebuf)))
            (has ns (upper (text_at left (si + 1) linebuf))))
]

-- Where the NULs of the needle and of the line stand in their arrays, of 64 and of 128 bytes,
-- `line_has_needle` searches the text of the line for that of the needle.
pub line_has_needle-has :
    (needle linebuf : Buffer)
    → length (c_text 64 needle) < 64
    → length (c_text 128 linebuf) < 128
    → line_has_needle needle linebuf ≡ has (upper (c_text 64 needle)) (upper (c_text 128 linebuf))
unfolding c_text line_has_needle
line_has_needle-has needle linebuf h k =
    needle_from-has (upper (text_at 64 0 needle)) 128 0 needle linebuf
      (λ l i p q. needle_at-left 128 64 l needle linebuf i h p q) (omega arith) k

begins-append : (ns xs : List ℕ) → begins ns (ns ++ xs) ≡ true
begins-append [] xs = refl
begins-append (n ∷ ns) xs = ground (arith, begins-append ns xs)

-- The rest behind what a text begins with.
begins-true : (ns xs : List ℕ) → begins ns xs ≡ true → (ys : List ℕ) × (xs ≡ ns ++ ys)
begins-true [] xs h = (xs, refl)
begins-true (n ∷ ns) [] h = cc
begins-true (n ∷ ns) (x ∷ xs) h = elim (Bool-cases (n == x)) [
  | inl e ↦ let (ys, q) = begins-true ns xs (rw e at h) in (ys, ap₂ ◌∷◌ (sym (==→≡ n x e)) q)
  | inr e ↦ let never : false ≡ true = rw e at h in cc
]

has-true : (ns xs : List ℕ) → has ns xs ≡ true → (front bs : List ℕ) × (xs ≡ front ++ (ns ++ bs))
has-true ns [] h = cc
has-true ns (x ∷ xs) h = elim (Bool-cases (begins ns (x ∷ xs))) [
  | inl e ↦ let (bs, q) = begins-true ns (x ∷ xs) e in ([], bs, q)
  | inr e ↦ let (front, bs, q) = has-true ns xs (rw e at h) in (x ∷ front, bs, ap (◌∷◌ x) q)
]

or_true : (b : Bool) → (b || true) ≡ true
or_true true = refl
or_true false = refl

has-append : (ns front bs : List ℕ) → 0 < length ns → has ns (front ++ (ns ++ bs)) ≡ true
has-append [] front bs h = elim h [ ]
has-append (n ∷ ns) [] bs h = rw (begins-append (n ∷ ns) bs) refl
has-append (n ∷ ns) (a ∷ front) bs h =
    rw (has-append (n ∷ ns) front bs h) (or_true (begins (n ∷ ns) (a ∷ (front ++ (n ∷ ns ++ bs)))))

-- Where the NULs of a needle that is not empty and of the line stand in their arrays, of 64 and of
-- 128 bytes: `line_has_needle` returns 1 if and only if the line has the needle's text in it, upper
-- and lower case the same.
pub line_has_needle-upper :
    (needle linebuf : Buffer)
    → length (c_text 64 needle) < 64
    → 0 < length (c_text 64 needle)
    → length (c_text 128 linebuf) < 128
    → (line_has_needle needle linebuf ≡ true) ↔ (
        (front bs : List ℕ) × (upper (c_text 128 linebuf)
          ≡ front ++ (upper (c_text 64 needle) ++ bs)))
line_has_needle-upper needle linebuf h some k =
    let e = line_has_needle-has needle linebuf h k in
    (
      λ yes. has-true _ _ (sym e ∙ yes),
      λ (front, bs, q).
          e
          ∙ ap (has (upper (c_text 64 needle))) q
          ∙ has-append (upper (c_text 64 needle)) front bs
              (omega (arith, length-upper (c_text 64 needle))),
    )
  where
    length-upper : (xs : List ℕ) → length (upper xs) ≡ length xs
    length-upper [] = refl
    length-upper (x ∷ xs) = ap suc (length-upper xs)
