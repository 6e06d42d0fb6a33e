-- ===== src/Command/Batch/Expand.antt =====
-- What `expand_batch_args` makes of a command.
use rmdos.Base.{
  ℕ, zero, suc, ◌+◌, ◌-◌, ◌*◌, ◌≤◌, ◌<◌, false, ◌&&◌, ◌≡◌, inl, inr, refl, sym, ap, ◌∙◌, arith, leb,
  ◌==◌, if◌then◌else◌, List, [], ◌∷◌, ◌++◌, Buffer, buf_set, slice, slice-suc, length-slice,
  slice_same, length, take, length-take, Bool-cases,
}
use rmdos.Strings.{At}
use mathlib.Core.Path.{ap₂}
use mathlib.Core.List.{append_assoc}
use rmdos.Compare.Texts.{text_at}
use rmdos.Command.Batch.{Out, append_from, expand_from}

-- The command with the name of the batch file for %0 and its arguments for %1 to %9.
abbrev pub expanded : List ℕ → Buffer → List ℕ → List ℕ
expanded name args [] = []
expanded name args (c ∷ []) = c ∷ []
expanded name args (c ∷ d ∷ cs) =
    let behind = expanded name args cs in
    let next = expanded name args (d ∷ cs) in
    if c == b'%' && d == b'0'
    then name ++ behind
    else if c == b'%' && leb b'1' d && leb d b'9'
    then text_at 81 ((d - b'1') * 16) args ++ behind
    else c ∷ next

take_short : (n : ℕ) (xs : List ℕ) → length xs ≤ n → take n (xs ++ []) ≡ xs
take_short zero [] h = refl
take_short zero (x ∷ xs) h = absurd (omega arith)
take_short (suc n) [] h = refl
take_short (suc n) (x ∷ xs) h = ap (◌∷◌ x) (take_short n xs (omega arith))

take_prefix : (xs ys : List ℕ) (n : ℕ) → length xs ≡ n → take n (xs ++ ys) ≡ xs
take_prefix [] ys zero h = refl
take_prefix [] ys (suc n) h = absurd (omega arith)
take_prefix (x ∷ xs) ys zero h = absurd (omega arith)
take_prefix (x ∷ xs) ys (suc n) h = ap (◌∷◌ x) (take_prefix xs ys n (omega arith))

take-take : (n : ℕ) (xs ys : List ℕ) → take n (take n xs ++ ys) ≡ take n (xs ++ ys)
take-take zero xs ys = refl
take-take (suc n) [] ys = refl
take-take (suc n) (x ∷ xs) ys = ap (◌∷◌ x) (take-take n xs ys)

-- The first `max` bytes of a text stand in `out`.
pub record Shows (max : ℕ) (xs : List ℕ) (r : Out) : Type 0 where
  pub len : r.o ≡ length (take max xs)
  pub text : slice r.out 0 r.o ≡ take max xs

Shows-take :
    (max : ℕ) (xs ys : List ℕ) (r : Out)
    → take max xs ≡ take max ys
    → Shows max xs r
    → Shows max ys r
Shows-take max xs ys r e s = record {
  len = s.len ∙ ap (λ (l : List ℕ). length l) e;
  text = s.text ∙ e;
}

-- Nothing follows, or nothing more fits.
stops :
    (max : ℕ) (xs : List ℕ) (o : ℕ) (out : Buffer)
    → (o ≤ max) × (xs ≡ [])
    → Shows max (slice out 0 o ++ xs) (record { o = o; out = out })
stops max xs o out (h, e) =
    let l : length (slice out 0 o) ≤ max = omega (arith, length-slice out 0 o) in
    rw (e) (record {
      len =
          sym (length-slice out 0 o)
          ∙ ap (λ (l : List ℕ). length l) (sym (take_short max (slice out 0 o) l));
      text = sym (take_short max (slice out 0 o) l);
    })

full :
    (max o : ℕ) (xs : List ℕ) (out : Buffer)
    → o ≡ max
    → Shows max (slice out 0 o ++ xs) (record { o = o; out = out })
full max o xs out h =
    let e = take_prefix (slice out 0 o) xs max (length-slice out 0 o ∙ h) in
    record {
      len = sym (length-slice out 0 o) ∙ ap (λ (l : List ℕ). length l) (sym e);
      text = sym e;
    }

-- One more byte.
slice_more :
    (out : Buffer) (o c : ℕ) (xs : List ℕ)
    → c < 256
    → slice (buf_set out o c) 0 (o + 1) ++ xs ≡ slice out 0 o ++ c ∷ xs
slice_more out o c xs h =
    let e : o + 1 ≡ suc o = omega arith in
    let here : buf_set out o c (0 + o) ≡ c = ground arith in
    let before : slice (buf_set out o c) 0 o ≡ slice out 0 o =
      slice_same (buf_set out o c) out 0 o (λ j p. ground arith) in
    let whole : slice (buf_set out o c) 0 (o + 1) ≡ slice out 0 o ++ c ∷ [] =
      ap (slice (buf_set out o c) 0) e
      ∙ slice-suc (buf_set out o c) 0 o
      ∙ ap₂ (λ (l : List ℕ) (x : ℕ). l ++ x ∷ []) before here in
    ap (λ l. l ++ xs) whole ∙ append_assoc (slice out 0 o) (c ∷ []) xs

module _ (max : ℕ) (src : Buffer) (bytes : (j : ℕ) → src j < 256) where
  -- `append_from` with any bound in the place of 80 would do the same.
  append_from-Shows :
      (fuel j o : ℕ) (out : Buffer)
      → max ≡ 80
      → o ≤ max
      → max < fuel + o
      → Shows max (slice out 0 o ++ text_at fuel j src) (append_from fuel src j o out)
  unfolding append_from
  append_from-Shows zero j o out m h f = absurd (omega arith)
  append_from-Shows (suc fuel) j o out m h f = elim (Bool-cases (src j == 0)) [
    | inl e ↦ rw (e) (stops max [] o out (h, refl))
    | inr e ↦ elim (Bool-cases (leb 80 o)) [
      | inl x ↦
          let here : o ≡ max = ground arith in
          rw (e, x) (full max o (src j ∷ text_at fuel (j + 1) src) out here)
      | inr x ↦
          rw (e, x)
            (coe 0 1
              (i.
                Shows max (slice_more out o (src j) (text_at fuel (j + 1) src) (bytes j) i)
                  (append_from fuel src (j + 1) (o + 1) (buf_set out o (src j))))
              (append_from-Shows fuel (j + 1) (o + 1) (buf_set out o (src j)) m (ground arith)
                (omega arith)))
    ]
  ]

module _ (name : List ℕ) (arg0 args : Buffer) (name_text : text_at 81 0 arg0 ≡ name)
    (name_bytes : (j : ℕ) → arg0 j < 256) (arg_bytes : (j : ℕ) → args j < 256) where
  -- An argument was put in, and the rest behind it.
  after_piece :
      (piece rest : List ℕ) (o : ℕ) (out : Buffer) (p r : Out)
      → Shows 80 (slice out 0 o ++ piece) p
      → Shows 80 (slice p.out 0 p.o ++ rest) r
      → Shows 80 (slice out 0 o ++ (piece ++ rest)) r
  after_piece piece rest o out p r h k =
      Shows-take 80 (slice p.out 0 p.o ++ rest) (slice out 0 o ++ (piece ++ rest)) r
        (ap (λ (l : List ℕ). take 80 (l ++ rest)) h.text
          ∙ take-take 80 (slice out 0 o ++ piece) rest
          ∙ ap (take 80) (append_assoc (slice out 0 o) piece rest))
        k

  small : (xs : List ℕ) (p : Out) → Shows 80 xs p → p.o ≤ 80
  small xs p h = omega (arith, h.len, length-take 80 xs)

  kept :
      (c : ℕ) (xs : List ℕ) (o : ℕ) (out : Buffer) (r : Out)
      → c < 256
      → Shows 80 (slice (buf_set out o c) 0 (o + 1) ++ xs) r
      → Shows 80 (slice out 0 o ++ c ∷ xs) r
  kept c xs o out r b s = coe 0 1 (i. Shows 80 (slice_more out o c xs b i) r) s

  pub expand_from-Shows :
      (cs : List ℕ) (fuel : ℕ) (cmd : Buffer) (i o : ℕ) (out : Buffer)
      → At cs cmd i
      → length cs < fuel
      → o ≤ 80
      → Shows 80 (slice out 0 o ++ expanded name args cs) (expand_from fuel cmd arg0 args i o out)
  unfolding expand_from
  expand_from-Shows cs zero cmd i o out a f h = elim f [ ]
  expand_from-Shows [] (suc fuel) cmd i o out a f h = rw a (stops 80 [] o out (h, refl))
  expand_from-Shows (c ∷ []) (suc fuel) cmd i o out (e, b, z, a) f h =
      let some_byte : (c == 0) ≡ false = ground arith in
      elim (Bool-cases (leb 80 o)) [
        | inl x ↦ rw (e, some_byte, x) (full 80 o (c ∷ []) out (ground arith))
        | inr x ↦
            let rest =
              expand_from-Shows [] fuel cmd (i + 1) (o + 1) (buf_set out o c) a (omega arith)
                (ground arith) in
            let done =
              kept c [] o out (expand_from fuel cmd arg0 args (i + 1) (o + 1) (buf_set out o c)) b
                rest in
            elim (Bool-cases (c == b'%')) [
              | inl y ↦ rw (e, a, some_byte, x, y) done
              | inr y ↦ rw (e, some_byte, x, y) done
            ]
      ]
  expand_from-Shows (c ∷ d ∷ cs) (suc fuel) cmd i o out (e, b, z, (e2, b2, z2, a)) f h =
      let some_byte : (c == 0) ≡ false = ground arith in
      let next : i + 1 + 1 ≡ i + 2 = omega arith in
      let a2 : At cs cmd (i + 2) = rw next at a in
      elim (Bool-cases (leb 80 o)) [
        | inl x ↦
            rw (e, some_byte, x) (full 80 o (expanded name args (c ∷ d ∷ cs)) out (ground arith))
        | inr x ↦ elim (Bool-cases (c == b'%' && d == b'0')) [
          | inl y ↦
              let p = append_from 81 arg0 0 o out in
              let first =
                rw name_text at
                  (append_from-Shows 80 arg0 name_bytes 81 0 o out refl h (omega arith)) in
              let rest =
                expand_from-Shows cs fuel cmd (i + 2) p.o p.out a2 (omega arith)
                  (small (slice out 0 o ++ name) p first) in
              rw (e, e2, some_byte, x, y)
                (after_piece name (expanded name args cs) o out p
                  (expand_from fuel cmd arg0 args (i + 2) p.o p.out) first rest)
          | inr y ↦ elim (Bool-cases (c == b'%' && leb b'1' d && leb d b'9')) [
            | inl w ↦
                let idx = (d - b'1') * 16 in
                let p = append_from 81 args idx o out in
                let first = append_from-Shows 80 args arg_bytes 81 idx o out refl h (omega arith) in
                let rest =
                  expand_from-Shows cs fuel cmd (i + 2) p.o p.out a2 (omega arith)
                    (small (slice out 0 o ++ text_at 81 idx args) p first) in
                rw (e, e2, some_byte, x, y, w)
                  (after_piece (text_at 81 idx args) (expanded name args cs) o out p
                    (expand_from fuel cmd arg0 args (i + 2) p.o p.out) first rest)
            | inr w ↦
                let rest =
                  expand_from-Shows (d ∷ cs) fuel cmd (i + 1) (o + 1) (buf_set out o c)
                    (e2, b2, z2, a) (omega arith) (ground arith) in
                rw (e, e2, some_byte, x, y, w)
                  (kept c (expanded name args (d ∷ cs)) o out
                    (expand_from fuel cmd arg0 args (i + 1) (o + 1) (buf_set out o c)) b rest)
          ]
        ]
      ]
