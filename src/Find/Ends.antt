-- ===== src/Find/Ends.antt =====
-- The loop of find.c over its arguments comes to an end.
use rmdos.Base.{
  ℕ, zero, suc, ◌≤◌, ◌<◌, Bool, true, false, not, List, [], ◌∷◌, ◌≡◌, inl, inr, refl, sym, ◌∙◌,
  arith, ◌==◌, Buffer, Bool-cases, length, Option, none, some,
}
use rmdos.Runtime.Args.{Args, ends_word, ends_quoted, args_token_quoted}
use rmdos.Runtime.Args.Words.{Holds, without_blanks, is_nil, from}
use rmdos.Runtime.Args.Tokens.{
  length-without_blanks, quoted_word, behind_quote, quoted_rest, args_token_quoted-TakesQuoted,
}
use rmdos.Find.{Arguments, take_argument, after_argument, read_arguments}

length-from : (stops : ℕ → Bool) (t : List ℕ) → length (from stops t) ≤ length t
length-from stops [] = omega arith
length-from stops (c ∷ cs) = ground (arith, length-from stops cs)

length-behind_quote : (t : List ℕ) → length (behind_quote t) ≤ length t
length-behind_quote [] = omega arith
length-behind_quote (c ∷ cs) = ground arith

-- A word that is taken makes the text shorter.
shorter : (u : List ℕ) → is_nil (quoted_word u) ≡ false → length (quoted_rest u) < length u
shorter [] h = cc
shorter (c ∷ cs) h = elim (Bool-cases (c == 34)) [
  | inl quote ↦
      rw quote
        (omega (arith, length-behind_quote (from ends_quoted cs), length-from ends_quoted cs))
  | inr other ↦ elim (Bool-cases (ends_word c)) [
    | inl stop ↦ let never : true ≡ false = rw (other, stop) at h in cc
    | inr go ↦ rw (other, go) (omega (arith, length-from ends_word cs))
  ]
]

same_options :
    (o : Option Arguments) (f g : Arguments → Option Arguments)
    → ((x : Arguments) → f x ≡ g x)
    → after_argument o f ≡ after_argument o g
same_options none f g h = refl
same_options (some o) f g h = h o

-- The loop over the arguments ends by itself: on a command line that holds the text `t`, two bounds
-- on its rounds that both exceed the length of `t` give the same options, needle and path.
pub read_arguments-length :
    (left left' fuel : ℕ) (t : List ℕ) (token : Buffer) (a : Args) (o : Arguments)
    → Holds t a.mem a.arg_ptr
    → length t < fuel
    → length t < left
    → length t < left'
    → read_arguments left fuel token a o ≡ read_arguments left' fuel token a o
unfolding read_arguments
read_arguments-length zero left' fuel t token a o h f l l' = elim l [ ]
read_arguments-length (suc left) zero fuel t token a o h f l l' = elim l' [ ]
read_arguments-length (suc left) (suc left') fuel t token a o h f l l' =
    let r = args_token_quoted fuel 64 token a in
    let u = without_blanks t in
    let k = args_token_quoted-TakesQuoted t fuel 64 a token h f (omega arith) in
    elim (Bool-cases r.ok) [
      | inr ended ↦ rw ended refl
      | inl taken ↦
          let less_left : length (quoted_rest u) < length t = omega (
            arith,
            shorter u (some_word (is_nil (quoted_word u)) (sym k.ok ∙ taken)),
            length-without_blanks t,
          ) in
          let rest : Holds (quoted_rest u) r.args.mem r.args.arg_ptr =
            coe 1 0 (i. Holds (quoted_rest u) (k.leaves.mem i) r.args.arg_ptr) k.leaves.left in
          rw taken (
            same_options (take_argument r.buf o) _ _ (λ x.
              read_arguments-length left left' fuel (quoted_rest u) r.buf r.args x rest
                (omega arith) (omega arith) (omega arith)))
    ]
  where
    some_word : (b : Bool) → not b ≡ true → b ≡ false
    some_word true e = cc
    some_word false e = refl
