-- ===== src/Edit/Moves.antt =====
-- The cursor keys: where `move_up` and `move_down` land.
use rmdos.Base.{
  ℕ, zero, suc, ◌+◌, ◌-◌, ◌≤◌, ◌<◌, ◌≡◌, ◌≢◌, ap, ◌⊎◌, inl, inr, arith, ltb, leb, false, ◌==◌,
  Buffer, Bool-cases, ltb→lt, ==→≡,
}
use rmdos.Edit.{Editor, line_start, line_col, next_line, advance, move_up, move_down}
use rmdos.Edit.Lines.{StartsLine, line_start-StartsLine, next_line-EndsLine}

-- Where the loop that ends both moves stops: at most `col` further, on no newline's far side, and
-- short of `col` only at a newline or at the end of the text.
record Advances (t : Buffer) (len col pos q : ℕ) : Type 0 where
  forward : pos ≤ q
  within : q ≤ pos + col
  inside : pos ≤ len → q ≤ len
  same_line : (j : ℕ) → pos ≤ j → j < q → t j ≢ 10
  short : (q < pos + col) → (t q ≡ 10) ⊎ (len ≤ q)

advance-Advances : (t : Buffer) (len col pos : ℕ) → Advances t len col pos (advance t len col pos)
unfolding advance
advance-Advances t len zero pos = record {
  forward = omega arith;
  within = omega arith;
  inside = λ h. h;
  same_line = λ j p q. absurd (omega arith);
  short = λ h. absurd (omega arith);
}
advance-Advances t len (suc col) pos =
    let ih = advance-Advances t len col (pos + 1) in
    record {
      forward = ground (arith, ih.forward);
      within = ground (arith, ih.within);
      inside = λ h. ground (arith, ih.inside);
      same_line = λ j p q x. ground (arith, ih.same_line j);
      short = λ h. ground (arith, ih.short);
    }

StartsLine-unique : (t : Buffer) (a b pos : ℕ) → StartsLine t a pos → StartsLine t b pos → a ≤ b
StartsLine-unique t a b pos p q = elim (Bool-cases (leb a b)) [
  | inl e ↦ ground arith
  | inr e ↦ ground (arith, p.at_start, p.le_pos, q.no_newline (a - 1))
]

-- An offset in the line that begins at `start` has `start` for its line's beginning.
line_start_of :
    (t : Buffer) (start q : ℕ)
    → (start ≡ 0) ⊎ (t (start - 1) ≡ 10)
    → start ≤ q
    → ((j : ℕ) → start ≤ j → j < q → t j ≢ 10)
    → line_start t q ≡ start
line_start_of t start q at le none_between =
    let mine : StartsLine t start q = record {
      le_pos = le;
      at_start = at;
      no_newline = none_between;
    } in
    let its = line_start-StartsLine t q in
    omega (arith, StartsLine-unique t _ _ q mine its, StartsLine-unique t _ _ q its mine)

-- The cursor stands in the line that begins at `start`, in the column `col` or, if the line is
-- shorter, at its end.
pub record LandsIn (s : Editor) (start col : ℕ) : Type 0 where
  pub in_text : s.cursor ≤ s.text_len
  pub line : line_start s.text s.cursor ≡ start
  pub col_le : line_col s.text s.cursor ≤ col
  pub short : line_col s.text s.cursor < col → (s.text s.cursor ≡ 10) ⊎ (s.cursor ≡ s.text_len)

lands :
    (s : Editor) (start col : ℕ)
    → (start ≡ 0) ⊎ (s.text (start - 1) ≡ 10)
    → start ≤ s.text_len
    → LandsIn (record s { cursor = advance s.text s.text_len col start }) start col
unfolding line_col
lands s start col at le =
    let a = advance-Advances s.text s.text_len col start in
    let e =
      line_start_of s.text start (advance s.text s.text_len col start) at a.forward a.same_line in
    record {
      in_text = a.inside le;
      line = e;
      col_le = rw e (omega (arith, a.within));
      short = λ h. ground (arith, a.short, a.inside, e);
    }

-- From the first line `move_up` changes nothing. From any other it goes to the line above, to the
-- same column or, if that line is shorter, to its end.
pub move_up-LandsIn :
    (s : Editor)
    → s.cursor ≤ s.text_len
    → (line_start s.text s.cursor ≡ 0 → move_up s ≡ s)
      × (0 < line_start s.text s.cursor
          → LandsIn
              (move_up s)
              (line_start s.text (line_start s.text s.cursor - 1))
              (line_col s.text s.cursor))
unfolding move_up
move_up-LandsIn s h = (
  λ e. ground arith,
  λ p.
      let t = s.text in
      let start = line_start t s.cursor in
      let e : (start == 0) ≡ false = ground arith in
      let above = line_start-StartsLine t (start - 1) in
      rw e (
        lands s (line_start t (start - 1)) (line_col t s.cursor) above.at_start
          (omega (arith, above.le_pos, (line_start-StartsLine t s.cursor).le_pos))),
)

-- At the end of the text `move_down` changes nothing. Elsewhere, if a newline ends the cursor's
-- line, it goes to the line below, to the same column or, if that line is shorter, to its end; if
-- none does, it goes to the end of the text.
pub move_down-LandsIn :
    (s : Editor)
    → s.cursor ≤ s.text_len
    → (s.cursor ≡ s.text_len → move_down s ≡ s)
      × (s.cursor < s.text_len
          → s.text (next_line s.text s.text_len s.cursor - 1) ≡ 10
          → LandsIn (move_down s) (next_line s.text s.text_len s.cursor) (line_col s.text s.cursor))
      × (s.cursor < s.text_len
          → s.text (next_line s.text s.text_len s.cursor - 1) ≢ 10
          → (move_down s).cursor ≡ s.text_len)
unfolding move_down
move_down-LandsIn s h = (
  λ e. unfold next_line in ground arith,
  λ p nl.
      let n = next_line-EndsLine s.text s.text_len s.cursor p in
      let q = next_line s.text s.text_len s.cursor in
      let e : (q == s.cursor) ≡ false = ground (arith, n.moves) in
      rw e (lands s q (line_col s.text s.cursor) (inr nl) (omega (arith, n.within))),
  λ p no_nl.
      let n = next_line-EndsLine s.text s.text_len s.cursor p in
      let q = next_line s.text s.text_len s.cursor in
      let e : (q == s.cursor) ≡ false = ground (arith, n.moves) in
      let a = advance-Advances s.text s.text_len (line_col s.text s.cursor) q in
      let last : q ≡ s.text_len = ground (arith, n.stops, n.within) in
      rw e (omega (arith, a.forward, a.inside (omega arith), last)),
)

-- The moves change the cursor and nothing else.
pub move_up_only : (s : Editor) → move_up s ≡ record s { cursor = (move_up s).cursor }
unfolding move_up
move_up_only s = ground arith

pub move_down_only : (s : Editor) → move_down s ≡ record s { cursor = (move_down s).cursor }
unfolding move_down
move_down_only s = ground arith

pub move_up-le : (s : Editor) → s.cursor ≤ s.text_len → (move_up s).cursor ≤ s.text_len
move_up-le s h = elim (Bool-cases (line_start s.text s.cursor == 0)) [
  | inl e ↦ rw ((move_up-LandsIn s h).0 (==→≡ _ _ e)) h
  | inr e ↦ omega (
    arith,
    ((move_up-LandsIn s h).1 (ground arith)).in_text,
    ap (λ (r : Editor). r.text_len) (move_up_only s),
  )
]

pub move_down-le : (s : Editor) → s.cursor ≤ s.text_len → (move_down s).cursor ≤ s.text_len
unfolding move_down
move_down-le s h =
    let q = next_line s.text s.text_len s.cursor in
    elim (Bool-cases (ltb s.cursor s.text_len)) [
      | inl e ↦
          let n = next_line-EndsLine s.text s.text_len s.cursor (ltb→lt _ _ e) in
          let a = advance-Advances s.text s.text_len (line_col s.text s.cursor) q in
          ground (arith, a.inside (omega (arith, n.within)))
      | inr e ↦ rw ((move_down-LandsIn s h).0 (ground arith)) h
    ]
