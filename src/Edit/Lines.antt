-- ===== src/Edit/Lines.antt =====
-- The line structure that edit.c reads off the newlines of the text.
use rmdos.Base.{
  ℕ, zero, suc, ◌+◌, ◌-◌, ◌≤◌, ◌<◌, true, ◌≡◌, ◌≢◌, refl, ap, ◌∙◌, ◌⊎◌, inl, inr, arith, ltb, ◌==◌,
  if◌then◌else◌, Buffer, Bool-cases, ltb→lt, ltb→le, ==→≡,
}
use rmdos.Edit.{
  Editor, line_start, next_line_in, next_line, count_lines_in, count_lines, cursor_row_in,
  cursor_row, ensure_view, rows,
}

-- The newlines among the `n` bytes from offset `i` on.
abbrev pub newlines : Buffer → ℕ → ℕ → ℕ
newlines t i zero = 0
newlines t i (suc n) = (if t i == 10 then 1 else 0) + newlines t (i + 1) n

newlines_split :
    (t : Buffer) (i n m : ℕ) → newlines t i (n + m) ≡ newlines t i n + newlines t (i + n) m
newlines_split t i zero m = ground arith
newlines_split t i (suc n) m =
    let e : suc n + m ≡ suc (n + m) = omega arith in
    rw e (ground (arith, newlines_split t (i + 1) n m))

newlines_mono : (t : Buffer) (n m : ℕ) → n ≤ m → newlines t 0 n ≤ newlines t 0 m
newlines_mono t n m h =
    let e : m ≡ n + (m - n) = omega arith in rw e (ground (arith, newlines_split t 0 n (m - n)))

-- `s` is where the line that holds offset `pos` begins.
pub record StartsLine (t : Buffer) (s pos : ℕ) : Type 0 where
  pub le_pos : s ≤ pos
  pub at_start : (s ≡ 0) ⊎ (t (s - 1) ≡ 10)
  pub no_newline : (j : ℕ) → s ≤ j → j < pos → t j ≢ 10

-- `line_start` gives the beginning of the line: it is at most `pos`, at offset 0 or just behind a
-- newline, and no newline stands between it and `pos`.
pub line_start-StartsLine : (t : Buffer) (pos : ℕ) → StartsLine t (line_start t pos) pos
unfolding line_start
line_start-StartsLine t zero = record {
  le_pos = omega arith;
  at_start = inl refl;
  no_newline = λ j p q. absurd (omega arith);
}
line_start-StartsLine t (suc p) =
    let ih = line_start-StartsLine t p in
    elim (Bool-cases (t p == 10)) [
      | inl e ↦
          rw (e, line_start)
            (record {
              le_pos = omega arith;
              at_start = inr (ap t (omega arith) ∙ ==→≡ _ _ e);
              no_newline = λ j a b. absurd (omega arith);
            })
      | inr e ↦
          rw (e, line_start)
            (record {
              le_pos = omega (arith, ih.le_pos);
              at_start = ih.at_start;
              no_newline = λ j a b x. ground (arith, ih.no_newline j);
            })
    ]

-- What one round of the loops over lines finds: the line from `pos` on ends at `q`.
pub record EndsLine (t : Buffer) (pos left q : ℕ) : Type 0 where
  pub moves : pos < q
  pub within : q ≤ pos + left
  pub stops : (q < pos + left) → t (q - 1) ≡ 10
  pub counts :
      newlines t pos left ≡ (if t (q - 1) == 10 then 1 else 0) + newlines t q (pos + left - q)

pub next_line_in-EndsLine :
    (t : Buffer) (left pos : ℕ) → 0 < left → EndsLine t pos left (next_line_in t left pos)
unfolding next_line_in
next_line_in-EndsLine t zero pos h = elim h [ ]
next_line_in-EndsLine t (suc zero) pos h = record {
  moves = ground arith;
  within = ground arith;
  stops = ground arith;
  counts = ground arith;
}
next_line_in-EndsLine t (suc (suc left)) pos h =
    let ih = next_line_in-EndsLine t (suc left) (pos + 1) (omega arith) in
    record {
      moves = ground (arith, ih.moves);
      within = ground (arith, ih.within);
      stops = λ r. ground (arith, ih.stops);
      counts = ground (arith, ih.counts);
    }

cursor_row_in-newlines : (t : Buffer) (n p row : ℕ) → cursor_row_in t n p row ≡ row + newlines t p n
unfolding cursor_row_in
cursor_row_in-newlines t zero p row = omega arith
cursor_row_in-newlines t (suc n) p row =
    ground (arith, cursor_row_in-newlines t n (p + 1) (if t p == 10 then row + 1 else row))

pub next_line-EndsLine :
    (t : Buffer) (len pos : ℕ) → pos < len → EndsLine t pos (len - pos) (next_line t len pos)
unfolding next_line
next_line-EndsLine t len pos h =
    let e : ltb pos len ≡ true = ground arith in
    rw e (next_line_in-EndsLine t (len - pos) pos (omega arith))

count_lines_in-newlines :
    (t : Buffer) (len fuel pos n : ℕ)
    → pos ≤ len
    → len - pos ≤ fuel
    → count_lines_in t len fuel pos n
      ≡ n
        + newlines t pos (len - pos)
        + (if ltb pos len then (if t (len - 1) == 10 then 0 else 1) else 0)
unfolding count_lines_in next_line
count_lines_in-newlines t len zero pos n h k =
    let e : len - pos ≡ 0 = omega arith in rw e (ground arith)
count_lines_in-newlines t len (suc fuel) pos n h k = elim (Bool-cases (ltb pos len)) [
  | inl more ↦
      let q = next_line_in t (len - pos) pos in
      let step : EndsLine t pos (len - pos) q =
        next_line_in-EndsLine t (len - pos) pos (omega (arith, ltb→lt pos len more)) in
      let e : pos + (len - pos) ≡ len = omega arith in
      let ih =
        count_lines_in-newlines t len fuel q (n + 1) (omega (arith, step.within))
          (omega (arith, step.moves)) in
      rw more (ground (arith, step.moves, step.within, step.stops, rw e at step.counts, ih))
  | inr done ↦
      let e : len - pos ≡ 0 = omega (arith, ltb→le pos len done) in rw (done, e) (omega arith)
]

-- `count_lines` counts one line more than the text has newlines, also where the text is empty or
-- ends in a newline.
pub count_lines-newlines : (t : Buffer) (len : ℕ) → count_lines t len ≡ newlines t 0 len + 1
unfolding count_lines
count_lines-newlines t len =
    ground (arith, count_lines_in-newlines t len len 0 0 (omega arith) (omega arith))

-- `cursor_row` counts the newlines before the cursor.
cursor_row-newlines :
    (s : Editor) → s.cursor ≤ s.text_len → cursor_row s ≡ newlines s.text 0 s.cursor
unfolding cursor_row
cursor_row-newlines s h = ground (arith, cursor_row_in-newlines s.text s.cursor 0 0)

-- After `ensure_view` the cursor's row is one of the 24 rows on the screen, the first row shown is
-- a line of the text, and nothing but the first row has changed.
pub ensure_view-IsVisible :
    (s : Editor)
    → s.cursor ≤ s.text_len
    → ((ensure_view s).view_row ≤ cursor_row s)
      × (cursor_row s < (ensure_view s).view_row + rows)
      × ((ensure_view s).view_row < count_lines s.text s.text_len)
      × (ensure_view s ≡ record s { view_row = (ensure_view s).view_row })
unfolding ensure_view
ensure_view-IsVisible s h =
    let row = cursor_row-newlines s h in
    let all = count_lines-newlines s.text s.text_len in
    let below = newlines_mono s.text s.cursor s.text_len h in
    (
      ground (arith, row, all, below),
      ground (arith, row, all, below),
      ground (arith, row, all, below),
      refl,
    )
