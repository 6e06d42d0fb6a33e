-- ===== src/Runtime/Args/Copies.antt =====
-- The loops of dos.c that copy a word from the command line.
use rmdos.Base.{
  ℕ, zero, suc, ◌+◌, ◌-◌, ◌≤◌, ◌<◌, Bool, true, false, List, [], ◌∷◌, ◌++◌, ◌≡◌, ◌≢◌, inl, inr,
  refl, sym, ap, ◌∙◌, arith, ltb, ◌==◌, Buffer, buf_set, Bool-cases, slice, slice-suc, slice_same,
  length, take, ltb→lt, ltb→le,
}
use Prim.{Unit}
use mathlib.Core.Path.{ap₂}
use mathlib.Core.List.{append_assoc, append-nil}
use native.Mathlib.Numerals.{add-one}
use rmdos.Compare.Texts.{text_at, until_nul, text_at-slice, text_at_nul}
use rmdos.Runtime.Args.{Args, is_end, Copy, copy_until, Token}
use rmdos.Runtime.Args.Words.{Holds, up_to, from}

-- A word that has been copied behind `w.i` bytes: `room` more fit.
pub record Copied (word rest : List ℕ) (maxlen : ℕ) (w r : Copy) : Type 0 where
  pub mem : r.args.mem ≡ w.args.mem
  pub left : Holds rest w.args.mem r.args.arg_ptr
  pub count : r.i ≤ maxlen - 1
  pub text : slice r.buf 0 r.i ≡ slice w.buf 0 w.i ++ take (maxlen - 1 - w.i) word
  pub behind : (j : ℕ) → maxlen ≤ j + 1 → r.buf j ≡ w.buf j

pub none_taken :
    (rest : List ℕ) (maxlen : ℕ) (w : Copy)
    → Holds rest w.args.mem w.args.arg_ptr
    → w.i ≤ maxlen - 1
    → Copied [] rest maxlen w w
none_taken rest maxlen w h m = record {
  mem = refl;
  left = h;
  count = m;
  text = sym (append-nil_at (slice w.buf 0 w.i) (maxlen - 1 - w.i));
  behind = λ j p. refl;
}
  where
    append-nil_at : (xs : List ℕ) (n : ℕ) → xs ++ take n [] ≡ xs
    append-nil_at xs zero = append-nil xs
    append-nil_at xs (suc n) = append-nil xs

-- A byte that fits, and one that does not.
pub byte_taken :
    (c : ℕ) (word rest : List ℕ) (maxlen : ℕ) (w r : Copy)
    → c < 256
    → w.i < maxlen - 1
    → let next = record w.args { arg_ptr = w.args.arg_ptr + 1 } in
      Copied word rest maxlen (record { args = next; buf = buf_set w.buf w.i c; i = w.i + 1 }) r
      → Copied (c ∷ word) rest maxlen w r
byte_taken c word rest maxlen w r b room all = record {
  mem = all.mem;
  left = all.left;
  count = all.count;
  text =
      all.text
      ∙ ap (λ (xs : List ℕ). xs ++ take (maxlen - 1 - (w.i + 1)) word) stored
      ∙ append_assoc (slice w.buf 0 w.i) (c ∷ []) (take (maxlen - 1 - (w.i + 1)) word)
      ∙ ap (λ (n : ℕ). slice w.buf 0 w.i ++ take n (c ∷ word)) one_more;
  behind = λ j p. all.behind j p ∙ ground arith;
}
  where
    one_more : suc (maxlen - 1 - (w.i + 1)) ≡ maxlen - 1 - w.i
    one_more = omega arith

    stored : slice (buf_set w.buf w.i c) 0 (w.i + 1) ≡ slice w.buf 0 w.i ++ c ∷ []
    stored =
        ap (slice (buf_set w.buf w.i c) 0) (add-one w.i)
        ∙ slice-suc (buf_set w.buf w.i c) 0 w.i
        ∙ ap₂ (λ (xs : List ℕ) (x : ℕ). xs ++ x ∷ [])
            (slice_same (buf_set w.buf w.i c) w.buf 0 w.i (λ j p. ground arith)) (ground arith)

pub dropped_byte :
    (c : ℕ) (word rest : List ℕ) (maxlen : ℕ) (w r : Copy)
    → maxlen - 1 ≤ w.i
    → let next = record w.args { arg_ptr = w.args.arg_ptr + 1 } in
      Copied word rest maxlen (record { args = next; buf = w.buf; i = w.i }) r
      → Copied (c ∷ word) rest maxlen w r
dropped_byte c word rest maxlen w r full all = record {
  mem = all.mem;
  left = all.left;
  count = all.count;
  text = all.text ∙ ap (◌++◌ (slice w.buf 0 w.i)) (none (maxlen - 1 - w.i) (omega arith));
  behind = all.behind;
}
  where
    none : (n : ℕ) → n ≡ 0 → take n word ≡ take n (c ∷ word)
    none zero e = refl
    none (suc n) e = absurd (omega arith)

pub copy_until-Copied :
    (stops : ℕ → Bool) (maxlen : ℕ) (t : List ℕ) (fuel : ℕ) (w : Copy)
    → ((c : ℕ) → is_end c ≡ true → stops c ≡ true)
    → Holds t w.args.mem w.args.arg_ptr
    → w.i ≤ maxlen - 1
    → length t < fuel
    → Copied (up_to stops t) (from stops t) maxlen w (copy_until stops maxlen fuel w)
unfolding copy_until
copy_until-Copied stops maxlen t zero w s h m f = elim f [ ]
copy_until-Copied stops maxlen [] (suc fuel) w s h m f =
    rw (s (w.args.mem w.args.arg_ptr) h) (none_taken [] maxlen w h m)
copy_until-Copied stops maxlen (c ∷ cs) (suc fuel) w s (e, b, n, h) m f =
    elim (Bool-cases (stops c)) [
      | inl stop ↦ rw (e, stop) (none_taken (c ∷ cs) maxlen w (e, b, n, h) m)
      | inr go ↦ elim (Bool-cases (ltb w.i (maxlen - 1))) [
        | inl room ↦
            rw (e, go, room)
              (byte_taken c _ _ maxlen w _ b (ltb→lt w.i (maxlen - 1) room)
                (copy_until-Copied stops maxlen cs fuel _ s h (ground arith) (omega arith)))
        | inr full ↦
            rw (e, go, full)
              (dropped_byte c _ _ maxlen w _ (ltb→le w.i (maxlen - 1) full)
                (copy_until-Copied stops maxlen cs fuel _ s h m (omega arith)))
      ]
    ]

-- What `args_token` and `args_token_quoted` leave behind in the buffer: the word as a text, cut off
-- where the buffer ends, and no byte behind the buffer changed.
pub record Leaves (word rest : List ℕ) (maxlen : ℕ) (a : Args) (buf : Buffer) (r : Token)
    : Type 0 where
  pub mem : r.args.mem ≡ a.mem
  pub left : Holds rest a.mem r.args.arg_ptr
  pub text : text_at maxlen 0 r.buf ≡ take (maxlen - 1) word
  pub behind : (j : ℕ) → maxlen ≤ j → r.buf j ≡ buf j

abbrev pub IsText : List ℕ → Type 0
IsText [] = Unit
IsText (c ∷ cs) = (c ≢ 0) × IsText cs

pub until_nul-IsText : (n : ℕ) (xs : List ℕ) → IsText xs → until_nul (take n xs) ≡ take n xs
until_nul-IsText zero xs h = refl
until_nul-IsText (suc n) [] h = refl
until_nul-IsText (suc n) (x ∷ xs) (h, k) =
    let some : (x == 0) ≡ false = ground arith in rw (some) (ap (◌∷◌ x) (until_nul-IsText n xs k))

pub up_to-IsText :
    (stops : ℕ → Bool) (t : List ℕ) (mem : Buffer) (p : ℕ) → Holds t mem p → IsText (up_to stops t)
up_to-IsText stops [] mem p h = tt
up_to-IsText stops (c ∷ cs) mem p (e, b, n, h) = elim (Bool-cases (stops c)) [
  | inl stop ↦ rw stop tt
  | inr go ↦ rw go (ground arith, up_to-IsText stops cs mem (p + 1) h)
]

-- The copied word with its NUL.
pub ended :
    (word : List ℕ) (maxlen : ℕ) (b r : Buffer) (i : ℕ)
    → 0 < maxlen
    → i ≤ maxlen - 1
    → IsText word
    → slice r 0 i ≡ take (maxlen - 1) word
    → text_at maxlen 0 (buf_set r i 0) ≡ take (maxlen - 1) word
ended word maxlen b r i m h w e =
    text_at-slice i maxlen 0 (buf_set r i 0) (omega arith) (ground arith)
    ∙ ap until_nul (slice_same (buf_set r i 0) r 0 i (λ j p. ground arith) ∙ e)
    ∙ until_nul-IsText (maxlen - 1) word w

pub as_before :
    {word rest : List ℕ} {maxlen : ℕ} {buf : Buffer} {r : Token} (a b : Args)
    → b.mem ≡ a.mem
    → Leaves word rest maxlen b buf r
    → Leaves word rest maxlen a buf r
as_before {word} {rest} {maxlen} {buf} {r} a b e l = record {
  mem = l.mem ∙ e;
  left = coe 0 1 (i. Holds rest (e i) r.args.arg_ptr) l.left;
  text = l.text;
  behind = l.behind;
}

-- A buffer that is emptied.
pub emptied :
    (maxlen : ℕ) (a b : Args) (buf : Buffer) (ok : Bool)
    → 0 < maxlen
    → b.mem ≡ a.mem
    → Holds [] a.mem b.arg_ptr
    → Leaves [] [] maxlen a buf (record { args = b; buf = buf_set buf 0 0; ok = ok })
emptied maxlen a b buf ok m e h = record {
  mem = e;
  left = h;
  text = text_at_nul maxlen 0 (buf_set buf 0 0) refl ∙ none (maxlen - 1);
  behind = λ j p. ground arith;
}
  where
    none : (n : ℕ) → [] ≡ take n []
    none zero = refl
    none (suc n) = refl

-- A word that is copied from the beginning of the buffer.
pub word_taken :
    (stops : ℕ → Bool) (u : List ℕ) (maxlen fuel : ℕ) (b : Args) (buf : Buffer) (ok : Bool)
    → ((c : ℕ) → is_end c ≡ true → stops c ≡ true)
    → Holds u b.mem b.arg_ptr
    → length u < fuel
    → 0 < maxlen
    → let w = copy_until stops maxlen fuel (record { args = b; buf = buf; i = 0 }) in
      Leaves
        (up_to stops u)
        (from stops u)
        maxlen
        b
        buf
        (record { args = w.args; buf = buf_set w.buf w.i 0; ok = ok })
word_taken stops u maxlen fuel b buf ok s h few m =
    let w = copy_until stops maxlen fuel (record { args = b; buf = buf; i = 0 }) in
    let r =
      copy_until-Copied stops maxlen u fuel (record { args = b; buf = buf; i = 0 }) s h
        (omega arith) few in
    let all : maxlen - 1 - 0 ≡ maxlen - 1 = omega arith in
    record {
      mem = r.mem;
      left = r.left;
      text =
          ended (up_to stops u) maxlen buf w.buf w.i m r.count
            (up_to-IsText stops u b.mem b.arg_ptr h)
            (r.text ∙ ap (λ (n : ℕ). take n (up_to stops u)) all);
      behind = λ j p. ground (arith, r.behind j, r.count);
    }
