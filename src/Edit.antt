-- ===== src/Edit.antt =====
-- EDIT.COM, firmware/src/main/dos/edit.c: the text buffer, its lines, the cursor, the search, the
-- transfer to and from a file, and the key loop. Every count stays below 2 ^ 15, so sums here
-- neither wrap nor turn negative.
pub mod Zipper
pub mod Lines
pub mod Moves
pub mod Search
pub mod Files
pub mod Load
pub mod Keys
pub mod RoundTrip
mod Examples
use rmdos.Base.{
  ℕ, zero, suc, ◌+◌, ◌-◌, ◌/◌, ◌%◌, ◌≤◌, ◌<◌, Bool, true, false, not, ◌&&◌, ◌||◌, List, [], ◌∷◌,
  ◌++◌, Option, none, some, ltb, leb, ◌==◌, if◌then◌else◌, Buffer, buf_set,
}

abbrev pub fallback_max : ℕ
fallback_max = 4096

abbrev pub heap_max : ℕ
heap_max = 16384

abbrev pub xfer_max : ℕ
xfer_max = 256

abbrev pub rows : ℕ
rows = 24

abbrev pub find_max : ℕ
find_max = 40

-- The globals. `text` is the buffer that `text_seg` selects, the heap block or `text_near`.
pub record Editor : Type 0 where
  pub text : Buffer
  pub buf_cap : ℕ
  pub text_len : ℕ
  pub cursor : ℕ
  pub dirty : Bool
  pub have_path : Bool
  pub view_row : ℕ
  pub find_pat : Buffer
  pub find_len : ℕ

-- The size follows from whether `dos_alloc` gave a segment.
abbrev pub init_buffer : Bool → Editor → Editor
init_buffer allocated s = record s { buf_cap = if allocated then heap_max else fallback_max }

abbrev pub text_get : Editor → ℕ → ℕ
text_get s i = s.text i

abbrev pub text_set : Editor → ℕ → ℕ → Editor
text_set s i v = record s { text = buf_set s.text i v }

-- `pos` falls to the first byte behind a newline.
pub line_start : Buffer → ℕ → ℕ
line_start t zero = zero
line_start t (suc p) = if t p == 10 then suc p else line_start t p

pub line_col : Buffer → ℕ → ℕ
line_col t pos = pos - line_start t pos

-- The loop of `next_line` at `pos`, with `left` bytes up to the end.
pub next_line_in : Buffer → ℕ → ℕ → ℕ
next_line_in t zero pos = pos
next_line_in t (suc left) pos = if t pos == 10 then pos + 1 else next_line_in t left (pos + 1)

pub next_line : Buffer → ℕ → ℕ → ℕ
next_line t len pos = if ltb pos len then next_line_in t (len - pos) pos else len

-- `n` is the rounds left.
pub nth_line_start : Buffer → ℕ → ℕ → ℕ → ℕ
nth_line_start t len zero pos = pos
nth_line_start t len (suc n) pos =
    let rest = nth_line_start t len n (next_line t len pos) in if ltb pos len then rest else pos

-- The loop of `count_lines`. A round moves `pos` on, so `len` rounds are enough.
pub count_lines_in : Buffer → ℕ → ℕ → ℕ → ℕ → ℕ
count_lines_in t len zero pos n = n
count_lines_in t len (suc fuel) pos n =
    let rest = count_lines_in t len fuel (next_line t len pos) (n + 1) in
    if ltb pos len then rest else n

pub count_lines : Buffer → ℕ → ℕ
count_lines t len =
    let n = count_lines_in t len len 0 0 in
    if len == 0 then 1 else if t (len - 1) == 10 then n + 1 else n

-- The loop of `cursor_row` from `p`, with `left` rounds to go.
pub cursor_row_in : Buffer → ℕ → ℕ → ℕ → ℕ
cursor_row_in t zero p row = row
cursor_row_in t (suc left) p row = cursor_row_in t left (p + 1) (if t p == 10 then row + 1 else row)

pub cursor_row : Editor → ℕ
cursor_row s = cursor_row_in s.text (if ltb s.cursor s.text_len then s.cursor else s.text_len) 0 0

-- The test `view_row < 0` of the source never holds: `row - ROWS + 1` follows `row >= ROWS`.
pub ensure_view : Editor → Editor
ensure_view s =
    let row = cursor_row s in
    let up = if ltb row s.view_row then row else s.view_row in
    let down = if leb (up + rows) row then row + 1 - rows else up in
    let n = count_lines s.text s.text_len in
    record s { view_row = if ltb 0 down && leb n down then n - 1 else down }

-- The shift of `insert_char`: `left` bytes, the last of them to offset `cursor + left`.
pub shift_up : Buffer → ℕ → ℕ → Buffer
shift_up t cursor zero = t
shift_up t cursor (suc left) =
    shift_up (buf_set t (cursor + suc left) (t (cursor + left))) cursor left

pub insert_char : ℕ → Editor → Editor
insert_char ch s =
    let shifted = shift_up s.text s.cursor (s.text_len - s.cursor) in
    if leb (s.buf_cap - 1) s.text_len then s else record s {
      text = buf_set shifted s.cursor ch;
      text_len = s.text_len + 1;
      cursor = s.cursor + 1;
      dirty = true;
    }

-- The shift of `delete_char` at `i`, with `left` bytes to go.
pub shift_down : Buffer → ℕ → ℕ → Buffer
shift_down t i zero = t
shift_down t i (suc left) = shift_down (buf_set t i (t (i + 1))) (i + 1) left

pub delete_char : Editor → Editor
delete_char s =
    let shifted = shift_down s.text s.cursor (s.text_len - 1 - s.cursor) in
    if leb s.text_len s.cursor
    then s
    else record s { text = shifted; text_len = s.text_len - 1; dirty = true }

pub backspace : Editor → Editor
backspace s = if ltb s.cursor 1 then s else delete_char (record s { cursor = s.cursor - 1 })

-- The loop that ends both moves: right by at most `col`, up to the end of the line.
pub advance : Buffer → ℕ → ℕ → ℕ → ℕ
advance t len zero pos = pos
advance t len (suc col) pos =
    let rest = advance t len col (pos + 1) in
    if ltb pos len then (if t pos == 10 then pos else rest) else pos

pub move_up : Editor → Editor
move_up s =
    let start = line_start s.text s.cursor in
    let above = line_start s.text (start - 1) in
    if start == 0
    then s
    else record s { cursor = advance s.text s.text_len (line_col s.text s.cursor) above }

pub move_down : Editor → Editor
move_down s =
    let below = next_line s.text s.text_len s.cursor in
    if below == s.cursor && leb s.text_len below
    then s
    else record s { cursor = advance s.text s.text_len (line_col s.text s.cursor) below }
