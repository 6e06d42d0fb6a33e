-- ===== src/Runtime/Args/Tokens.antt =====
-- The words that `args_token` and `args_token_quoted` of dos.c take from the command line.
use rmdos.Base.{
  ℕ, zero, suc, ◌+◌, ◌-◌, ◌≤◌, ◌<◌, Bool, true, false, not, List, [], ◌∷◌, ◌≡◌, inl, inr, refl, sym,
  ap, ◌∙◌, arith, ltb, ◌==◌, if◌then◌else◌, Buffer, Bool-cases, slice, length-slice, length, take,
}
use Prim.{Unit}
use rmdos.Runtime.Args.{
  Args, is_blank, is_end, args_skip, copy_until, Token, ends_word, ends_quoted, args_token,
  args_token_quoted,
}
use rmdos.Runtime.Args.Words.{
  Holds, without_blanks, is_nil, up_to, from, args_skip-Skipped, Skipped,
}
use rmdos.Runtime.Args.Copies.{copy_until-Copied, as_before, emptied, word_taken, Leaves}

-- `args_token` where the text `u` is left behind the blanks.
pub record TakesWord (u : List ℕ) (maxlen : ℕ) (a : Args) (buf : Buffer) (r : Token) : Type 0 where
  pub ok : r.ok ≡ not (is_nil u)
  pub leaves : Leaves (up_to ends_word u) (from ends_word u) maxlen a buf r

stops_at_end : (c : ℕ) → is_end c ≡ true → ends_word c ≡ true
stops_at_end c h = ground arith

pub length-without_blanks : (t : List ℕ) → length (without_blanks t) ≤ length t
length-without_blanks [] = omega arith
length-without_blanks (c ∷ cs) = ground (arith, length-without_blanks cs)

-- With a text `t` shorter than the fuel left on the command line and a buffer of `maxlen` > 0
-- bytes: `args_token` returns 1 when the text has more than blanks, and 0 otherwise; it leaves the
-- next word, up to a blank, in the buffer, cut off after `maxlen - 1` bytes and ended by a NUL; the
-- text behind the word is left; and no byte behind the buffer changes.
pub args_token-TakesWord :
    (t : List ℕ) (fuel maxlen : ℕ) (a : Args) (buf : Buffer)
    → Holds t a.mem a.arg_ptr
    → length t < fuel
    → 0 < maxlen
    → TakesWord (without_blanks t) maxlen a buf (args_token fuel maxlen buf a)
unfolding args_token
args_token-TakesWord t fuel maxlen a buf h few m =
    go (without_blanks t) (args_skip-Skipped t fuel a h few)
      (omega (arith, length-without_blanks t))
  where
    go :
        (u : List ℕ)
        → Skipped u a (args_skip fuel a)
        → length u < fuel
        → TakesWord u maxlen a buf (args_token fuel maxlen buf a)
    go [] s f = rw (s.any) (record {
      ok = refl;
      leaves = emptied maxlen a (args_skip fuel a).args buf false m s.mem s.rest;
    })
    go (c ∷ cs) s f = rw (s.any) (record {
      ok = refl;
      leaves = as_before a (args_skip fuel a).args s.mem (
          word_taken ends_word (c ∷ cs) maxlen fuel (args_skip fuel a).args buf true stops_at_end
            (rw (s.mem) s.rest) f m);
    })

-- What `args_token_quoted` takes from a text that begins with no blank, and what it leaves.
abbrev pub quoted_word : List ℕ → List ℕ
quoted_word [] = []
quoted_word (c ∷ cs) = if c == 34 then up_to ends_quoted cs else up_to ends_word (c ∷ cs)

abbrev pub behind_quote : List ℕ → List ℕ
behind_quote [] = []
behind_quote (c ∷ cs) = if c == 34 then cs else c ∷ cs

abbrev pub quoted_rest : List ℕ → List ℕ
quoted_rest [] = []
quoted_rest (c ∷ cs) =
    if c == 34 then behind_quote (from ends_quoted cs) else from ends_word (c ∷ cs)

-- `args_token_quoted` where `word` is to be taken and `rest` to be left.
pub record TakesQuoted (word rest : List ℕ) (maxlen : ℕ) (a : Args) (buf : Buffer) (r : Token)
    : Type 0 where
  pub ok : r.ok ≡ not (is_nil word)
  pub leaves : Leaves word rest maxlen a buf r

stops_at_quote : (c : ℕ) → is_end c ≡ true → ends_quoted c ≡ true
stops_at_quote c h = ground arith

abbrev BeginsWord : List ℕ → Type 0
BeginsWord [] = Unit
BeginsWord (c ∷ cs) = is_blank c ≡ false

without_blanks-BeginsWord : (t : List ℕ) → BeginsWord (without_blanks t)
without_blanks-BeginsWord [] = tt
without_blanks-BeginsWord (c ∷ cs) = elim (Bool-cases (is_blank c)) [
  | inl blank ↦ rw blank (without_blanks-BeginsWord cs)
  | inr other ↦ rw other other
]

-- The closing quote is taken.
past_quote :
    (v : List ℕ) (a : Args)
    → Holds v a.mem a.arg_ptr
    → Holds (behind_quote v) a.mem (if a.mem a.arg_ptr == 34 then a.arg_ptr + 1 else a.arg_ptr)
past_quote [] a h = let other : (a.mem a.arg_ptr == 34) ≡ false = ground arith in rw other h
past_quote (c ∷ cs) a (e, b, n, h) = elim (Bool-cases (c == 34)) [
  | inl quote ↦ rw (e, quote) h
  | inr other ↦ rw (e, other) (e, b, n, h)
]

closed :
    {word : List ℕ} {maxlen : ℕ} {buf : Buffer} (v : List ℕ) (a b : Args) (out : Buffer) (ok : Bool)
    → Leaves word v maxlen a buf (record { args = b; buf = out; ok = ok })
    → (ok' : Bool)
    → Leaves word (behind_quote v) maxlen a buf (record {
      args = if b.mem b.arg_ptr == 34 then record b { arg_ptr = b.arg_ptr + 1 } else b;
      buf = out;
      ok = ok';
    })
closed v a b out ok l ok' =
    let q = past_quote v b (coe 1 0 (i. Holds v (l.mem i) b.arg_ptr) l.left) in
    elim (Bool-cases (b.mem b.arg_ptr == 34)) [
      | inl quote ↦ rw quote (record {
        mem = l.mem;
        left = coe 0 1 (i. Holds (behind_quote v) (l.mem i) (b.arg_ptr + 1)) (rw quote at q);
        text = l.text;
        behind = l.behind;
      })
      | inr other ↦ rw other (record {
        mem = l.mem;
        left = coe 0 1 (i. Holds (behind_quote v) (l.mem i) b.arg_ptr) (rw other at q);
        text = l.text;
        behind = l.behind;
      })
    ]

counted :
    (n i : ℕ) (word : List ℕ) (b : Buffer)
    → 0 < n
    → slice b 0 i ≡ take n word
    → ltb 0 i ≡ not (is_nil word)
counted zero i word b h e = elim h [ ]
counted (suc n) i [] b h e =
    let none : i ≡ 0 = sym (length-slice b 0 i) ∙ ap length e in rw none refl
counted (suc n) i (c ∷ cs) b h e =
    let some : i ≡ suc (length (take n cs)) = sym (length-slice b 0 i) ∙ ap length e in
    rw some (ground arith)

nonempty :
    (c : ℕ) (cs : List ℕ)
    → is_blank c ≡ false
    → is_end c ≡ false
    → not (is_nil (up_to ends_word (c ∷ cs))) ≡ true
nonempty c cs w n = let no_stop : ends_word c ≡ false = ground arith in ground arith

-- With a text `t` shorter than the fuel left on the command line and a buffer of `maxlen` > 1
-- bytes: where the text behind the blanks begins with a quote, `args_token_quoted` leaves what
-- stands up to the next quote or the end in the buffer and takes that quote, and else it leaves the
-- next word; the buffer has at most `maxlen - 1` of these bytes, ended by a NUL; it returns 1 when
-- there are any and 0 when there are none, and no byte behind the buffer changes.
pub args_token_quoted-TakesQuoted :
    (t : List ℕ) (fuel maxlen : ℕ) (a : Args) (buf : Buffer)
    → Holds t a.mem a.arg_ptr
    → length t < fuel
    → 1 < maxlen
    → (let u = without_blanks t in
        TakesQuoted
          (quoted_word u)
          (quoted_rest u)
          maxlen
          a
          buf
          (args_token_quoted fuel maxlen buf a))
unfolding args_token_quoted
args_token_quoted-TakesQuoted t fuel maxlen a buf h few m =
    go (without_blanks t) (args_skip-Skipped t fuel a h few)
      (omega (arith, length-without_blanks t)) (without_blanks-BeginsWord t)
  where
    go :
        (u : List ℕ)
        → Skipped u a (args_skip fuel a)
        → length u < fuel
        → BeginsWord u
        → TakesQuoted
            (quoted_word u)
            (quoted_rest u)
            maxlen
            a
            buf
            (args_token_quoted fuel maxlen buf a)
    go [] s f w = rw (s.any) (record {
      ok = refl;
      leaves = emptied maxlen a (args_skip fuel a).args buf false (omega arith) s.mem s.rest;
    })
    go (c ∷ cs) s f w =
        let b = (args_skip fuel a).args in
        let held : Holds (c ∷ cs) b.mem b.arg_ptr = rw (s.mem) s.rest in
        let (e, byte, no_end, h') = held in
        elim (Bool-cases (c == 34)) [
          | inl quote ↦
              let opened : Args = record b { arg_ptr = b.arg_ptr + 1 } in
              let copy =
                copy_until ends_quoted maxlen fuel (record { args = opened; buf = buf; i = 0 }) in
              let r =
                copy_until-Copied ends_quoted maxlen cs fuel
                  (record { args = opened; buf = buf; i = 0 }) stops_at_quote h' (omega arith)
                  (omega arith) in
              let l =
                word_taken ends_quoted cs maxlen fuel opened buf true stops_at_quote h'
                  (omega arith) (omega arith) in
              rw (s.any, e, quote)
                (record {
                  ok =
                      counted (maxlen - 1 - 0) copy.i (up_to ends_quoted cs) copy.buf (omega arith)
                        r.text;
                  leaves =
                      as_before a opened s.mem
                        (closed (from ends_quoted cs) opened copy.args _ true l _);
                })
          | inr other ↦
              let r = args_token-TakesWord (c ∷ cs) fuel maxlen b buf held f (omega arith) in
              rw (s.any, e, other)
                (record {
                  ok = (rw w at r.ok) ∙ sym (nonempty c cs w no_end);
                  leaves = as_before a b s.mem (rw w at r.leaves);
                })
        ]
