-- ===== src/Sort/Reading.antt =====
-- What sort.c makes of the bytes of a file.
use rmdos.Base.{
  ℕ, suc, ◌+◌, ◌-◌, ◌≤◌, ◌<◌, true, false, List, [], ◌∷◌, ◌++◌, ◌≡◌, refl, ap, ◌∙◌, sym, inl, inr,
  ◌⊎◌, arith, ltb, leb, ◌==◌, if◌then◌else◌, Bool-cases, ==→≢, ltb→lt, ltb→le, length,
}
use Prim.{Unit}
use mathlib.Core.List.{map, append_assoc, append-nil}
use rmdos.Sort.{Sorter, max_lines, finish_line, ingest, read_lines}
use rmdos.Sort.Sorted.{IsBytes}
use rmdos.Sort.Text.{
  take_lines, kept, lines_from, lines_to, take_none, lines_from_cr, lines_from_lf, lines_from_byte,
  take_step,
}
use rmdos.Sort.Lines.{Reads, Finished, finish_line-Finished, ingest-Reads}

abbrev pub AreBytes : List ℕ → Type 0
AreBytes [] = Unit
AreBytes (c ∷ cs) = (c < 256) × AreBytes cs

-- What reading the rest of the input adds.
pub record HasRead (s r : Sorter) (more : List (List ℕ)) : Type 0 where
  pub bytes : IsBytes r.pool
  pub few : r.nlines ≤ max_lines
  pub lines :
      lines_to r.nlines r.pool
      ≡ lines_to s.nlines s.pool ++ take_lines (max_lines - s.nlines) (map kept more)

nothing_read : (s : Sorter) (cur : List ℕ) → Reads s cur → HasRead s s []
nothing_read s cur w = record {
  bytes = w.bytes;
  few = w.few;
  lines = rw (take_none (max_lines - s.nlines)) (sym (append-nil (lines_to s.nlines s.pool)));
}

-- A line that ends, and then the rest.
line_then :
    (s s' r : Sorter) (cur : List ℕ) (more : List (List ℕ))
    → s.nlines ≤ max_lines
    → Finished s s' cur
    → HasRead s' r more
    → HasRead s r (cur ∷ more)
line_then s s' r cur more few a b = record {
  bytes = b.bytes;
  few = b.few;
  lines =
      b.lines
      ∙ ap (λ (l : List (List ℕ)). l ++ take_lines (max_lines - s'.nlines) (map kept more)) a.lines
      ∙ append_assoc (lines_to s.nlines s.pool) _ _
      ∙ ap (◌++◌ (lines_to s.nlines s.pool))
          (take_step _ _ (kept cur) (map kept more) (left s.nlines s'.nlines few a.count));
}
  where
    left :
        (n n' : ℕ)
        → n ≤ max_lines
        → n' ≡ (if leb max_lines n then n else n + 1)
        → ((max_lines - n ≡ 0) × (max_lines - n' ≡ 0)) ⊎ (max_lines - n ≡ suc (max_lines - n'))
    left n n' h e = elim (Bool-cases (leb max_lines n)) [
      | inl full ↦ inl (ground arith, ground arith)
      | inr room ↦ inr (ground arith)
    ]

-- A line that ends with the input.
last_line :
    (s s' : Sorter) (cur : List ℕ)
    → s.nlines ≤ max_lines
    → Finished s s' cur
    → HasRead s s' (cur ∷ [])
last_line s s' cur few a = line_then s s' s' cur [] few a (nothing_read s' [] a.reads)

none_stored_at :
    (l n : ℕ) (x : ℕ) (xs : List ℕ)
    → ltb 0 l ≡ false
    → n ≤ max_lines
    → (n < max_lines → l ≡ (if ltb (length (x ∷ xs)) 39 then length (x ∷ xs) else 39))
    → n ≡ max_lines
none_stored_at l n x xs e few len = elim (Bool-cases (ltb n max_lines)) [
  | inl low ↦
      absurd (omega (arith, stored (length xs) l (len (ltb→lt n max_lines low)), ltb→le 0 l e))
  | inr full ↦ ground arith
]
  where
    stored : (k l : ℕ) → l ≡ (if ltb (suc k) 39 then suc k else 39) → 0 < l
    stored k l e = ground arith

-- One byte of the input, and then the rest.
next_byte :
    (c : ℕ) (cs cur : List ℕ) (s : Sorter)
    → c < 256
    → AreBytes cs
    → Reads s cur
    → ((c == 13) ≡ true) ⊎ ((c == 13) ≡ false)
    → ((c == 10) ≡ true) ⊎ ((c == 10) ≡ false)
    → ((cur : List ℕ) (s : Sorter)
        → AreBytes cs
        → Reads s cur
        → HasRead s (read_lines cs s) (lines_from cs cur))
    → HasRead s (read_lines cs (ingest c s)) (lines_from (c ∷ cs) cur)
next_byte c cs cur s byte b w (inl cr) lf ih =
    let unchanged : ingest c s ≡ s = unfold ingest in rw cr refl in
    rw (lines_from_cr c cs cur cr, unchanged) (ih cur s b w)
next_byte c cs cur s byte b w (inr no_cr) (inl lf) ih =
    let ends : ingest c s ≡ finish_line s = unfold ingest in rw (no_cr, lf) refl in
    let a = finish_line-Finished s cur w in
    rw (lines_from_lf c cs cur no_cr lf, ends)
      (line_then s (finish_line s) _ cur (lines_from cs []) w.few a
        (ih [] (finish_line s) b a.reads))
next_byte c cs cur s byte b w (inr no_cr) (inr no_lf) ih =
    let (w', lines, n) = ingest-Reads c s cur byte (==→≢ c 13 no_cr) (==→≢ c 10 no_lf) w in
    let all = ih (cur ++ c ∷ []) (ingest c s) b w' in
    rw (lines_from_byte c cs cur no_cr no_lf)
      (record { bytes = all.bytes; few = all.few; lines = all.lines ∙ rw (lines, n) refl })

pub read_lines-HasRead :
    (cs cur : List ℕ) (s : Sorter)
    → AreBytes cs
    → Reads s cur
    → HasRead s (read_lines cs s) (lines_from cs cur)
unfolding read_lines lines_from
read_lines-HasRead [] [] s b w = elim (Bool-cases (ltb s.nlines max_lines)) [
  | inl low ↦
      let none_stored : ltb 0 s.linelen ≡ false =
        ground (arith, w.len (ltb→lt s.nlines max_lines low)) in
      rw none_stored (nothing_read s [] w)
  | inr full ↦
      let none_stored : ltb 0 s.linelen ≡ false = ground (arith, w.full, w.few) in
      rw none_stored (nothing_read s [] w)
]
read_lines-HasRead [] (x ∷ xs) s b w = elim (Bool-cases (ltb 0 s.linelen)) [
  | inl stored ↦
      rw stored (last_line s (finish_line s) (x ∷ xs) w.few (finish_line-Finished s (x ∷ xs) w))
  | inr none_stored ↦
      let none_left : max_lines - s.nlines ≡ 0 =
        omega (arith, none_stored_at s.linelen s.nlines x xs none_stored w.few w.len) in
      rw none_stored (record {
        bytes = w.bytes;
        few = w.few;
        lines = rw none_left (sym (append-nil (lines_to s.nlines s.pool)));
      })
]
read_lines-HasRead (c ∷ cs) cur s (byte, b) w =
    next_byte c cs cur s byte b w (Bool-cases (c == 13)) (Bool-cases (c == 10))
      (read_lines-HasRead cs)
