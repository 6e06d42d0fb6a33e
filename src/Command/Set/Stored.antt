-- ===== src/Command/Set/Stored.antt =====
-- SET with a name and a value.
use Prim.{tt}
use rmdos.Base.{
  ℕ, zero, suc, ◌+◌, ◌≤◌, ◌<◌, true, false, ◌≡◌, ◌≢◌, refl, ap, ◌∙◌, arith, List, [], ◌∷◌, ◌++◌,
  Option, none, some, leb, ◌==◌, Buffer, buf_set, length,
}
use rmdos.Strings.{At, At-same}
use rmdos.Command.Env.{Sys, env_put}
use rmdos.Command.Env.Kept.{length-append}
use rmdos.Command.Env.Put.{Given}
use rmdos.Command.Env.Names.{IsName}
use rmdos.Command.Text.{blank, skip_spaces}
use rmdos.Command.Text.Copy.{no_blank}
use rmdos.Command.Set.{SetText, or_here, entry_from, set_entry, do_set}

-- Where the first '=' of a text at `i` stands.
abbrev sign_in : List ℕ → ℕ → Option ℕ → Option ℕ
sign_in [] i eq = eq
sign_in (c ∷ cs) i eq = sign_in cs (i + 1) (or_here eq c i)

-- The text stands in the array at `i`.
record Entered (cs : List ℕ) (b : Buffer) (i : ℕ) (eq : Option ℕ) (r : SetText) : Type 0 where
  text : At cs (buf_set r.text r.i 0) i
  others : (j : ℕ) → j < i → r.text j ≡ b j
  len : r.i ≡ i + length cs
  sign : r.eq ≡ sign_in cs i eq

entry_from-Entered :
    (cs : List ℕ) (left : ℕ) (line : Buffer) (cursor : ℕ) (b : Buffer) (i : ℕ) (eq : Option ℕ)
    → At cs line cursor
    → length cs ≤ left
    → Entered cs b i eq (entry_from left line cursor b i eq)
unfolding entry_from
entry_from-Entered [] zero line cursor b i eq a h = record {
  text = ground arith;
  others = λ j x. refl;
  len = omega arith;
  sign = refl;
}
entry_from-Entered [] (suc left) line cursor b i eq a h =
    rw a (record { text = ground arith; others = λ j x. refl; len = omega arith; sign = refl })
entry_from-Entered (c ∷ cs) zero line cursor b i eq a h = absurd (omega arith)
entry_from-Entered (c ∷ cs) (suc left) line cursor b i eq (e, l, z, a) h =
    let some_byte : (c == 0) ≡ false = ground arith in
    let r = entry_from left line (cursor + 1) (buf_set b i c) (i + 1) (or_here eq c i) in
    let rest =
      entry_from-Entered cs left line (cursor + 1) (buf_set b i c) (i + 1) (or_here eq c i) a
        (omega arith) in
    rw (e, some_byte)
      (record {
        text = (
          first r.text r.i c b i (rest.others i (omega arith)) l (omega (arith, rest.len)),
          l,
          z,
          rest.text,
        );
        others = λ j x. rest.others j (omega arith) ∙ below b i c j x;
        len = rest.len ∙ omega arith;
        sign = rest.sign;
      })
  where
    below : (b : Buffer) (i c j : ℕ) → j < i → buf_set b i c j ≡ b j
    below b i c j h = ground arith

    first :
        (t : Buffer) (k c : ℕ) (b : Buffer) (i : ℕ)
        → t i ≡ buf_set b i c i
        → c < 256
        → i < k
        → buf_set t k 0 i ≡ c
    first t k c b i e l h = ground arith

-- Behind a name the first '=' is the one that follows it.
found : (cs : List ℕ) (i e : ℕ) → sign_in cs i (some e) ≡ some e
found [] i e = refl
found (c ∷ cs) i e = found cs (i + 1) e

sign_in-name :
    (ns vs : List ℕ) (i : ℕ) → IsName ns → sign_in (ns ++ b'=' ∷ vs) i none ≡ some (i + length ns)
sign_in-name [] vs i h = found vs (i + 1) i ∙ ap some (omega arith)
sign_in-name (n ∷ ns) vs i (z, h) =
    let other : (n == b'=') ≡ false = ground arith in
    let none_yet : or_here none n i ≡ none = rw other refl in
    ap (λ (o : Option ℕ). sign_in (ns ++ b'=' ∷ vs) (i + 1) o) none_yet
    ∙ sign_in-name ns vs (i + 1) h
    ∙ ap some (omega arith)

-- A NUL for the '=' ends the name.
split_name :
    (ns vs : List ℕ) (b : Buffer) (p : ℕ)
    → At (ns ++ b'=' ∷ vs) b p
    → At ns (buf_set b (p + length ns) 0) p × At vs b (p + length ns + 1)
split_name [] vs b p (e, l, z, a) = let here : p + 0 ≡ p = omega arith in (ground arith, rw here a)
split_name (n ∷ ns) vs b p (e, l, z, a) =
    let there : p + suc (length ns) ≡ p + 1 + length ns = omega arith in
    let rest = split_name ns vs b (p + 1) a in
    rw there ((kept b (p + 1 + length ns) p (omega arith) ∙ e, l, z, rest.0), rest.1)
  where
    kept : (b : Buffer) (k p : ℕ) → p < k → buf_set b k 0 p ≡ b p
    kept b k p h = ground arith

shifted : (vs : List ℕ) (b : Buffer) (k p : ℕ) → At vs b (k + p) → At vs (λ j. b (k + j)) p
shifted [] b k p a = a
shifted (v ∷ vs) b k p (e, l, z, a) =
    let there : k + p + 1 ≡ k + (p + 1) = omega arith in
    (e, l, z, shifted vs b k (p + 1) (rw there at a))

-- SET has put the value under the name.
pub record Sets (ns vs : List ℕ) (dos_alloc : ℕ → ℕ) (fuel : ℕ) (s : Sys) (r : List ℕ × Sys)
    : Type 0 where
  pub name : Buffer
  pub value : Option Buffer
  pub name_text : At ns name 0
  pub value_text : Given vs value
  pub done : r ≡ ([], env_put dos_alloc fuel name value s)

set_entry-Sets :
    (ns vs : List ℕ) (dos_alloc : ℕ → ℕ) (fuel : ℕ) (eq : Option ℕ) (text : Buffer) (i : ℕ)
    (s : Sys)
    → At (ns ++ b'=' ∷ vs) text 0
    → i ≡ length ns + 1 + length vs
    → eq ≡ some (length ns)
    → Sets ns vs dos_alloc fuel s (set_entry dos_alloc fuel eq text i s)
unfolding set_entry
set_entry-Sets ns [] dos_alloc fuel eq text i s a e q =
    let parts = split_name ns [] text 0 a in
    let start : 0 + length ns ≡ length ns = omega arith in
    let ends : leb i (length ns + 1) ≡ true = ground arith in
    record {
      name = buf_set text (length ns) 0;
      value = none;
      name_text = rw start at parts.0;
      value_text = tt;
      done = rw (q, ends) refl;
    }
set_entry-Sets ns (v ∷ vs) dos_alloc fuel eq text i s a e q =
    let parts = split_name ns (v ∷ vs) text 0 a in
    let start : 0 + length ns ≡ length ns = omega arith in
    let more : leb i (length ns + 1) ≡ false = ground arith in
    let name : Buffer = buf_set text (length ns) 0 in
    let values : At (v ∷ vs) name (length ns + 1) =
      At-same (v ∷ vs) text name (length ns + 1) (λ j x y. kept text (length ns) j (omega arith))
        (rw start at parts.1) in
    let there : length ns + 1 + 0 ≡ length ns + 1 = omega arith in
    record {
      name = name;
      value = some (λ j. name (length ns + 1 + j));
      name_text = rw start at parts.0;
      value_text = shifted (v ∷ vs) name (length ns + 1) 0 (rw there values);
      done = rw (q, more) refl;
    }
  where
    kept : (b : Buffer) (k p : ℕ) → k < p → buf_set b k 0 p ≡ b p
    kept b k p h = ground arith

-- `SET NAME=VALUE` calls `env_put` with the name and the value, or with a null pointer where the
-- value is empty, and prints nothing. The text begins at the cursor without a blank, the name has
-- no '=' and is not empty, and the text has at most 78 bytes.
pub do_set-Sets :
    (n : ℕ) (ns vs : List ℕ) (dos_alloc : ℕ → ℕ) (fuel : ℕ) (line : Buffer) (cursor : ℕ)
    (last_set : Buffer) (s : Sys)
    → blank n ≡ false
    → IsName (n ∷ ns)
    → At ((n ∷ ns) ++ b'=' ∷ vs) line cursor
    → length ((n ∷ ns) ++ b'=' ∷ vs) ≤ 78
    → Sets (n ∷ ns) vs dos_alloc fuel s (do_set dos_alloc fuel line cursor last_set s)
unfolding do_set
do_set-Sets n ns vs dos_alloc fuel line cursor last_set s b k a h =
    let here : skip_spaces fuel line cursor ≡ cursor = no_blank fuel line cursor n a.0 b in
    let some_byte : (line cursor == 0) ≡ false = nonzero (line cursor) n a.0 a.2 in
    let e = entry_from-Entered ((n ∷ ns) ++ b'=' ∷ vs) 78 line cursor last_set 0 none a h in
    let r = entry_from 78 line cursor last_set 0 none in
    rw (here, some_byte)
      (set_entry-Sets (n ∷ ns) vs dos_alloc fuel r.eq (buf_set r.text r.i 0) r.i s e.text
        (e.len ∙ omega (arith, length-append (n ∷ ns) (b'=' ∷ vs)))
        (e.sign ∙ sign_in-name (n ∷ ns) vs 0 k ∙ ap some (omega arith)))
  where
    nonzero : (x c : ℕ) → x ≡ c → c ≢ 0 → (x == 0) ≡ false
    nonzero x c e h = ground arith
