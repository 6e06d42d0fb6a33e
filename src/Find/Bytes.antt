-- ===== src/Find/Bytes.antt =====
-- A byte of a line in find.c.
use rmdos.Base.{
  ℕ, ◌+◌, ◌≤◌, ◌<◌, true, false, List, [], ◌∷◌, ◌++◌, ◌≡◌, inl, inr, sym, ap, ◌∙◌, arith, ltb,
  if◌then◌else◌, Buffer, buf_set, Bool-cases, length, slice, slice-suc, slice_same, take_more,
  take_full, length-snoc,
}
use Prim.{Unit}
use mathlib.Core.Path.{ap₂}
use native.Mathlib.Numerals.{add-one}
use rmdos.Find.{Find}
use rmdos.Find.Lines.{Query, Report, Reads}

abbrev pub AreBytes : List ℕ → Type 0
AreBytes [] = Unit
AreBytes (c ∷ cs) = (c < 256) × AreBytes cs

-- A byte of a line.
unfoldable pub byte_read : ℕ → Find → Find
byte_read c s =
    if ltb s.linelen 126
    then record s { linebuf = buf_set s.linebuf s.linelen c; linelen = s.linelen + 1 }
    else s

has_room : (l n : ℕ) → ltb l 126 ≡ true → l ≡ (if ltb n 126 then n else 126) → (n < 126) × (l ≡ n)
has_room l n h e = (ground arith, ground arith)

no_room : (l n : ℕ) → ltb l 126 ≡ false → l ≡ (if ltb n 126 then n else 126) → (126 ≤ n) × (l ≡ 126)
no_room l n h e = (ground arith, ground arith)

stored_len : (n m l : ℕ) → n < 126 → m ≡ n + 1 → l ≡ n → l + 1 ≡ (if ltb m 126 then m else 126)
stored_len n m l h e k = ground arith

full_len : (n m l : ℕ) → 126 ≤ n → m ≡ n + 1 → l ≡ 126 → l ≡ (if ltb m 126 then m else 126)
full_len n m l h e k = ground arith

pub byte_read-Reads :
    (q : Query) (c : ℕ) (s : Find) (r : Report) (cur : List ℕ)
    → c < 256
    → Reads q s r cur
    → Reads q (byte_read c s) r (cur ++ c ∷ [])
unfolding byte_read
byte_read-Reads q c s r cur byte w = elim (Bool-cases (ltb s.linelen 126)) [
  | inl room ↦
      let (few, is_len) = has_room s.linelen (length cur) room w.len in
      let linebuf = buf_set s.linebuf s.linelen c in
      rw room (record {
        needle = w.needle;
        opt_v = w.opt_v;
        opt_c = w.opt_c;
        opt_n = w.opt_n;
        found = w.found;
        match_count = w.match_count;
        line_number = w.line_number;
        out = w.out;
        begun =
            ap (slice linebuf 0) (add-one s.linelen)
            ∙ slice-suc linebuf 0 s.linelen
            ∙ ap₂ (λ (a : List ℕ) (b : ℕ). a ++ b ∷ [])
                (slice_same linebuf s.linebuf 0 s.linelen (λ j p. other j s.linelen s.linebuf p)
                  ∙ w.begun)
                (here s.linelen s.linebuf)
            ∙ sym (take_more 126 cur c few);
        len = stored_len (length cur) _ s.linelen few (length-snoc cur c) is_len;
      })
  | inr full ↦
      let (many, is_len) = no_room s.linelen (length cur) full w.len in
      rw full (record {
        needle = w.needle;
        opt_v = w.opt_v;
        opt_c = w.opt_c;
        opt_n = w.opt_n;
        found = w.found;
        match_count = w.match_count;
        line_number = w.line_number;
        out = w.out;
        begun = w.begun ∙ sym (take_full 126 cur c many);
        len = full_len (length cur) _ s.linelen many (length-snoc cur c) is_len;
      })
]
  where
    other : (j l : ℕ) (b : Buffer) → j < l → buf_set b l c (0 + j) ≡ b (0 + j)
    other j l b p = ground arith

    here : (l : ℕ) (b : Buffer) → buf_set b l c (0 + l) ≡ c
    here l b = ground arith
