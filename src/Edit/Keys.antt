-- ===== src/Edit/Keys.antt =====
-- The key loop of edit.c: `main` after the file is loaded, with the two places below it that wait
-- for keys of their own, the prompt of `do_find` and the question before quitting with changes.
-- Each wait is a mode, so one call of `step` is one key. Of `redraw` the model keeps `ensure_view`,
-- its one change of the editor's state; the screen memory is not modelled.
pub mod Session
pub mod Saves
pub mod Quit
mod Examples
use rmdos.Base.{
  ℕ, zero, suc, ◌+◌, ◌-◌, ◌/◌, ◌%◌, ◌≤◌, ◌<◌, Bool, true, false, not, ◌&&◌, ◌||◌, List, [], ◌∷◌,
  Option, none, some, ◌≡◌, refl, sym, ap, ◌∙◌, ◌⊎◌, inl, inr, arith, ltb, leb, ◌==◌, if◌then◌else◌,
  Buffer, buf_set, Bool-cases,
}
use rmdos.Runtime.{toupper_ch}
use rmdos.Edit.{
  Editor, find_max, ensure_view, insert_char, delete_char, backspace, move_up, move_down,
}
use rmdos.Edit.Search.{search_on}
use rmdos.Edit.Files.{Saved, save_file}

pub data Mode : Type 0 where
  editing finding quitting finished : Mode

abbrev State : Type 0
State = Mode × Editor

-- `key_ax & 255` and `(key_ax >> 8) & 255`.
abbrev ascii_of : ℕ → ℕ
ascii_of key = key % 256

abbrev scan_of : ℕ → ℕ
scan_of key = key / 256 % 256

abbrev redraw : Editor → Editor
redraw s = ensure_view s

abbrev is_printable : ℕ → Bool
is_printable c = leb 32 c && ltb c 127

-- One key of the loop that `do_find` runs while it prompts for the pattern.
step_finding : Editor → ℕ → State
step_finding s key =
    let ascii = ascii_of key in
    if ascii == 13
    then (editing, search_on true s)
    else if ascii == 27
    then (editing, s)
    else if ascii == 8
    then (
      finding,
      if ltb 0 s.find_len
          then record s {
            find_len = s.find_len - 1;
            find_pat = buf_set s.find_pat (s.find_len - 1) 0;
          }
          else s,
    )
    else (
      finding,
      if is_printable ascii && ltb s.find_len (find_max - 1)
          then record s {
            find_len = s.find_len + 1;
            find_pat = buf_set (buf_set s.find_pat s.find_len ascii) (s.find_len + 1) 0;
          }
          else s,
    )

-- The answer to "Quit without save (Y/N)?".
step_quitting : Editor → ℕ → State
step_quitting s key =
    if toupper_ch (ascii_of key) == b'Y' then (finished, s) else (editing, redraw s)

abbrev move_left : Editor → Editor
move_left s = if ltb 0 s.cursor then record s { cursor = s.cursor - 1 } else s

abbrev move_right : Editor → Editor
move_right s = if ltb s.cursor s.text_len then record s { cursor = s.cursor + 1 } else s

-- The tests of the loop from the cursor keys on, in their order.
edit_key : Editor → ℕ → Editor
edit_key s key =
    let ascii = ascii_of key in
    let scan = scan_of key in
    if scan == 0x4b
    then redraw (move_left s)
    else if scan == 0x4d
    then redraw (move_right s)
    else if scan == 0x48
    then redraw (move_up s)
    else if scan == 0x50
    then redraw (move_down s)
    else if scan == 0x53
    then redraw (delete_char s)
    else if ascii == 8
    then redraw (backspace s)
    else if ascii == 13
    then redraw (insert_char 10 (insert_char 13 s))
    else if is_printable ascii
    then redraw (insert_char ascii s)
    else s

abbrev succeeded : Option Saved → Bool
succeeded none = false
succeeded (some r) = r.complete

-- `write` and `created` are what INT 21h answers while the file is saved.
module _ (write : ℕ → ℕ → ℕ) (created : Bool) where
  save_key : Editor → Editor
  save_key s =
      let (s', saved) = save_file write created s in if succeeded saved then redraw s' else s'

  step_editing : Editor → ℕ → State
  unfolding edit_key
  step_editing s key =
      let ascii = ascii_of key in
      let scan = scan_of key in
      if ascii == 27
      then (if s.dirty then quitting else finished, s)
      else if ascii == 6
      then (finding, record s { find_len = 0 })
      else if scan == 0x3d
      then (editing, search_on false s)
      else if scan == 0x3c
      then (editing, save_key s)
      else (editing, edit_key s key)

  pub step : State → ℕ → State
  unfolding step_editing step_finding step_quitting
  step (editing, s) key = step_editing s key
  step (finding, s) key = step_finding s key
  step (quitting, s) key = step_quitting s key
  step (finished, s) key = (finished, s)

  pub run : State → List ℕ → State
  run st [] = st
  run st (k ∷ ks) = run (step st k) ks
