-- ===== src/Sort/Lines.antt =====
-- What `ingest` and `finish_line` of sort.c make of one byte of their input.
use rmdos.Base.{
  take, take_more, take_full, length-snoc, slice_same, ℕ, suc, ◌+◌, ◌-◌, ◌≤◌, ◌<◌, false, List, [],
  ◌∷◌, ◌++◌, ◌≡◌, ◌≢◌, refl, ap, ◌∙◌, sym, inl, inr, arith, ltb, leb, ◌==◌, if◌then◌else◌, buf_set,
  Bool-cases, ◌&&◌, slice, slice-suc, length,
}
use mathlib.Core.Path.{ap₂}
use mathlib.Core.List.{append-nil}
use native.Mathlib.Numerals.{add-one}
use rmdos.Compare.Texts.{until_nul, text_at-slice}
use rmdos.Sort.{Sorter, line_off, max_lines, finish_line, ingest}
use rmdos.Sort.Sorted.{line, IsBytes}
use rmdos.Sort.Text.{take_lines, kept, lines_to, lines_to_same, take_none}

-- The bytes of the line that is being read, `cur` of them so far.
pub record Reads (s : Sorter) (cur : List ℕ) : Type 0 where
  pub bytes : IsBytes s.pool
  pub few : s.nlines ≤ max_lines
  pub full : s.nlines ≡ max_lines → s.linelen ≡ 0
  pub short : s.linelen ≤ 39
  pub begun : s.nlines < max_lines → slice s.pool (line_off s.nlines) s.linelen ≡ take 39 cur
  pub len : s.nlines < max_lines → s.linelen ≡ (if ltb (length cur) 39 then length cur else 39)

-- A line that ends.
pub record Finished (s r : Sorter) (cur : List ℕ) : Type 0 where
  pub reads : Reads r []
  pub lines :
      lines_to r.nlines r.pool
      ≡ lines_to s.nlines s.pool ++ take_lines (max_lines - s.nlines) (kept cur ∷ [])
  pub count : r.nlines ≡ (if leb max_lines s.nlines then s.nlines else s.nlines + 1)

pub finish_line-Finished :
    (s : Sorter) (cur : List ℕ) → Reads s cur → Finished s (finish_line s) cur
unfolding finish_line
finish_line-Finished s cur w = elim (Bool-cases (leb max_lines s.nlines)) [
  | inl full ↦
      let none_left : max_lines - s.nlines ≡ 0 = ground (arith, w.few) in
      rw full (record {
        reads = record {
          bytes = w.bytes;
          few = w.few;
          full = λ _. refl;
          short = omega arith;
          begun = λ h. absurd (ground arith);
          len = λ h. absurd (ground arith);
        };
        lines = rw none_left (sym (append-nil (lines_to s.nlines s.pool)));
        count = ground arith;
      })
  | inr room ↦
      let pool = buf_set s.pool (line_off s.nlines + s.linelen) 0 in
      let some_left : max_lines - s.nlines ≡ suc (23 - s.nlines) = ground arith in
      let low : s.nlines < max_lines = ground arith in
      let ended : line pool s.nlines ≡ kept cur =
        text_at-slice s.linelen 40 (line_off s.nlines) pool (omega (arith, w.short)) (ground arith)
        ∙ ap until_nul (
            slice_same pool s.pool (line_off s.nlines) s.linelen (λ j p. ground arith)
            ∙ w.begun low) in
      rw room (record {
        reads = record {
          bytes = λ j. ground (arith, w.bytes j);
          few = ground arith;
          full = λ _. refl;
          short = omega arith;
          begun = λ h. refl;
          len = λ h. refl;
        };
        lines =
            rw (add-one, some_left)
              (ap₂ (λ (a : List (List ℕ)) (b : List ℕ). a ++ b ∷ [])
                  (lines_to_same s.nlines pool s.pool (λ j p. ground arith)) ended
                ∙ ap (λ (a : List (List ℕ)). lines_to s.nlines s.pool ++ kept cur ∷ a)
                    (sym (take_none (23 - s.nlines))));
        count = ground arith;
      })
]

is_full :
    (l n len : ℕ)
    → (ltb l 39 && ltb n max_lines) ≡ false
    → n < max_lines
    → l ≡ (if ltb len 39 then len else 39)
    → 39 ≤ len
is_full l n len e h k = ground arith

still_full :
    (l n len len' : ℕ)
    → (ltb l 39 && ltb n max_lines) ≡ false
    → n < max_lines
    → l ≡ (if ltb len 39 then len else 39)
    → len' ≡ len + 1
    → l ≡ (if ltb len' 39 then len' else 39)
still_full l n len len' e h k e' = ground arith

-- A byte of the line that is being read.
pub ingest-Reads :
    (c : ℕ) (s : Sorter) (cur : List ℕ)
    → c < 256
    → c ≢ 13
    → c ≢ 10
    → Reads s cur
    → Reads (ingest c s) (cur ++ c ∷ [])
      × (lines_to (ingest c s).nlines (ingest c s).pool ≡ lines_to s.nlines s.pool)
      × ((ingest c s).nlines ≡ s.nlines)
unfolding ingest
ingest-Reads c s cur byte not_cr not_lf w =
    let cr : (c == 13) ≡ false = ground arith in
    let lf : (c == 10) ≡ false = ground arith in
    let len = length-snoc cur c in
    elim (Bool-cases (ltb s.linelen 39 && ltb s.nlines max_lines)) [
      | inl stored ↦
          let pool = buf_set s.pool (line_off s.nlines + s.linelen) c in
          let low : s.nlines < max_lines = ground arith in
          let room : length cur < 39 = ground (arith, w.len) in
          let is_len : s.linelen ≡ length cur = ground (arith, w.len) in
          rw (cr, lf, stored)
            (
              record {
                bytes = λ j. ground (arith, w.bytes j);
                few = w.few;
                full = λ h. absurd (omega arith);
                short = omega (arith, is_len);
                begun = λ _.
                    ap (slice pool (line_off s.nlines)) (add-one s.linelen)
                    ∙ slice-suc pool (line_off s.nlines) s.linelen
                    ∙ ap₂ (λ (a : List ℕ) (b : ℕ). a ++ b ∷ [])
                        (slice_same pool s.pool (line_off s.nlines) s.linelen (λ j p. ground arith)
                          ∙ w.begun low)
                        (ground arith)
                    ∙ sym (take_more 39 cur c room);
                len = λ _. ground (arith, len);
              },
              lines_to_same s.nlines pool s.pool (λ j p. ground arith),
              refl,
            )
      | inr dropped ↦
          rw (cr, lf, dropped)
            (
              record {
                bytes = w.bytes;
                few = w.few;
                full = w.full;
                short = w.short;
                begun = λ h.
                    w.begun h
                    ∙ sym (
                        take_full 39 cur c
                          (is_full s.linelen s.nlines (length cur) dropped h (w.len h)));
                len = λ h. still_full s.linelen s.nlines (length cur) _ dropped h (w.len h) len;
              },
              refl,
              refl,
            )
    ]
