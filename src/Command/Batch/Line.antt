-- ===== src/Command/Batch/Line.antt =====
-- The command line after `expand_batch_args`.
use Prim.{Unit, tt}
use rmdos.Base.{
  ℕ, zero, suc, ◌+◌, ◌-◌, ◌*◌, ◌<◌, false, ◌&&◌, ◌||◌, ◌≡◌, ◌≢◌, inl, inr, refl, sym, ap, ◌∙◌,
  arith, leb, ◌==◌, List, [], ◌∷◌, ◌++◌, Buffer, buf_set, slice, slice_same, length, take,
  length-take, Bool-cases,
}
use rmdos.Strings.{At}
use rmdos.Compare.Texts.{text_at}
use rmdos.Command.Text.Copy.{str_copy-text}
use rmdos.Command.Batch.{Batch, Out, append_from, expand_from, expand_batch_args}
use rmdos.Command.Batch.Expand.{expanded, Shows, expand_from-Shows}

-- No NUL.
abbrev Text : List ℕ → Type 0
Text [] = Unit
Text (c ∷ cs) = (c ≢ 0) × Text cs

append-Text : (xs ys : List ℕ) → Text xs → Text ys → Text (xs ++ ys)
append-Text [] ys h k = k
append-Text (x ∷ xs) ys (z, h) k = (z, append-Text xs ys h k)

take-Text : (n : ℕ) (xs : List ℕ) → Text xs → Text (take n xs)
take-Text zero xs h = tt
take-Text (suc n) [] h = tt
take-Text (suc n) (x ∷ xs) (z, h) = (z, take-Text n xs h)

text_at-Text : (n i : ℕ) (b : Buffer) → Text (text_at n i b)
text_at-Text zero i b = tt
text_at-Text (suc n) i b = elim (Bool-cases (b i == 0)) [
  | inl e ↦ rw e tt
  | inr e ↦ let some_byte : b i ≢ 0 = ground arith in rw e (some_byte, text_at-Text n (i + 1) b)
]

expanded-Text :
    (name : List ℕ) (args : Buffer) (cs : List ℕ)
    → Text name
    → Text cs
    → Text (expanded name args cs)
expanded-Text name args [] n h = tt
expanded-Text name args (c ∷ []) n h = h
expanded-Text name args (c ∷ d ∷ cs) n (z, (y, h)) = elim (Bool-cases (c == b'%' && d == b'0')) [
  | inl e ↦ rw e (append-Text name (expanded name args cs) n (expanded-Text name args cs n h))
  | inr e ↦ elim (Bool-cases (c == b'%' && leb b'1' d && leb d b'9')) [
    | inl k ↦
        let arg = (d - b'1') * 16 in
        rw (e, k)
          (append-Text (text_at 81 arg args) (expanded name args cs) (text_at-Text 81 arg args)
            (expanded-Text name args cs n h))
    | inr k ↦ rw (e, k) (z, expanded-Text name args (d ∷ cs) n (y, h))
  ]
]

At-Text : (cs : List ℕ) (b : Buffer) (i : ℕ) → At cs b i → Text cs
At-Text [] b i h = tt
At-Text (c ∷ cs) b i (e, l, z, a) = (z, At-Text cs b (i + 1) a)

-- A slice without a NUL, and one behind it.
text_at-slice :
    (fuel n i : ℕ) (b : Buffer)
    → Text (slice b i n)
    → b (i + n) ≡ 0
    → n < fuel
    → text_at fuel i b ≡ slice b i n
text_at-slice zero n i b h e f = elim f [ ]
text_at-slice (suc fuel) zero i b h e f =
    let here : i + 0 ≡ i = omega arith in rw (rw here at e) refl
text_at-slice (suc fuel) (suc n) i b (z, h) e f =
    let there : i + suc n ≡ i + 1 + n = omega arith in
    let some_byte : (b i == 0) ≡ false = ground arith in
    rw some_byte (ap (◌∷◌ (b i)) (text_at-slice fuel n (i + 1) b h (rw there at e) (omega arith)))

abbrev IsBytes : Buffer → Type 0
IsBytes b = (j : ℕ) → b j < 256

set-IsBytes : (b : Buffer) (p v : ℕ) → IsBytes b → IsBytes (buf_set b p v)
set-IsBytes b p v h j = ground (arith, h j)

append_from-IsBytes :
    (fuel : ℕ) (src : Buffer) (j o : ℕ) (out : Buffer)
    → IsBytes out
    → IsBytes (append_from fuel src j o out).out
unfolding append_from
append_from-IsBytes zero src j o out h = h
append_from-IsBytes (suc fuel) src j o out h = elim (Bool-cases (src j == 0)) [
  | inl e ↦ rw e h
  | inr e ↦ elim (Bool-cases (leb 80 o)) [
    | inl x ↦ rw (e, x) h
    | inr x ↦
        rw (e, x)
          (append_from-IsBytes fuel src (j + 1) (o + 1) (buf_set out o (src j))
            (set-IsBytes out o (src j) h))
  ]
]

expand_from-IsBytes :
    (fuel : ℕ) (cmd arg0 args : Buffer) (i o : ℕ) (out : Buffer)
    → IsBytes out
    → IsBytes (expand_from fuel cmd arg0 args i o out).out
unfolding expand_from
expand_from-IsBytes zero cmd arg0 args i o out h = h
expand_from-IsBytes (suc fuel) cmd arg0 args i o out h =
    let c = cmd i in
    let d = cmd (i + 1) in
    elim (Bool-cases (c == 0 || leb 80 o)) [
      | inl e ↦ rw e h
      | inr e ↦ elim (Bool-cases (c == b'%' && d == b'0')) [
        | inl y ↦
            let p = append_from 81 arg0 0 o out in
            rw (e, y)
              (expand_from-IsBytes fuel cmd arg0 args (i + 2) p.o p.out
                (append_from-IsBytes 81 arg0 0 o out h))
        | inr y ↦ elim (Bool-cases (c == b'%' && leb b'1' d && leb d b'9')) [
          | inl w ↦
              let p = append_from 81 args ((d - b'1') * 16) o out in
              rw (e, y, w)
                (expand_from-IsBytes fuel cmd arg0 args (i + 2) p.o p.out
                  (append_from-IsBytes 81 args ((d - b'1') * 16) o out h))
          | inr w ↦
              rw (e, y, w)
                (expand_from-IsBytes fuel cmd arg0 args (i + 1) (o + 1) (buf_set out o c)
                  (set-IsBytes out o c h))
        ]
      ]
    ]

-- A text in `out`, with its NUL.
ended-Text :
    (max : ℕ) (xs : List ℕ) (r : Out)
    → Shows max xs r
    → Text xs
    → text_at (suc max) 0 (buf_set r.out r.o 0) ≡ take max xs
ended-Text max xs r s h =
    let b = buf_set r.out r.o 0 in
    let front : slice b 0 r.o ≡ take max xs =
      slice_same b r.out 0 r.o (λ j p. ground arith) ∙ s.text in
    let nul : b (0 + r.o) ≡ 0 = ground arith in
    let small : r.o < suc max = omega (arith, s.len, length-take max xs) in
    text_at-slice (suc max) r.o 0 b (coe 0 1 (i. Text (sym front i)) (take-Text max xs h)) nul small
    ∙ front

-- After `expand_batch_args` the command is its old text with the batch file's name for every %0 and
-- the arguments for %1 to %9, cut off to 80 bytes. The arrays have bytes, and the fuel covers the
-- command.
pub expand_batch_args-expanded :
    (cs name : List ℕ) (fuel : ℕ) (arg0 out : Buffer) (st : Batch) (cmd : Buffer)
    → At cs cmd 0
    → length cs < fuel
    → text_at 81 0 arg0 ≡ name
    → ((j : ℕ) → arg0 j < 256)
    → ((j : ℕ) → st.batch_args j < 256)
    → ((j : ℕ) → out j < 256)
    → text_at 82 0 (expand_batch_args fuel arg0 out st cmd)
      ≡ take 80 (expanded name st.batch_args cs)
unfolding expand_batch_args
expand_batch_args-expanded cs name fuel arg0 out st cmd a f n b c d =
    let r = expand_from fuel cmd arg0 st.batch_args 0 0 out in
    let h : Shows 80 (expanded name st.batch_args cs) r =
      expand_from-Shows name arg0 st.batch_args n b c cs fuel cmd 0 0 out a f (omega arith) in
    let text : Text (expanded name st.batch_args cs) =
      expanded-Text name st.batch_args cs (coe 0 1 (i. Text (n i)) (text_at-Text 81 0 arg0))
        (At-Text cs cmd 0 a) in
    str_copy-text cmd (buf_set r.out r.o 0) 82
      (set-IsBytes r.out r.o 0 (expand_from-IsBytes fuel cmd arg0 st.batch_args 0 0 out d))
      (omega arith)
    ∙ ended-Text 80 (expanded name st.batch_args cs) r h text
