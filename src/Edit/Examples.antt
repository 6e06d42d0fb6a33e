-- ===== src/Edit/Examples.antt =====
-- The editor on a small text, "AB", a newline and "C".
use rmdos.Base.{
  ℕ, ◌+◌, ◌-◌, ◌≤◌, ◌<◌, true, false, List, [], ◌∷◌, Option, some, ◌≡◌, refl, arith, ◌==◌, ltb,
  if◌then◌else◌, Buffer, zeroed, slice,
}
use rmdos.Edit.{
  Editor, line_start, line_col, next_line, next_line_in, count_lines, cursor_row, ensure_view,
  insert_char, delete_char, move_up, move_down, rows,
}
use rmdos.Edit.Zipper.{before, after, IsValid, insert_char_zipper, delete_char_zipper}
use rmdos.Edit.Lines.{ensure_view-IsVisible}
use rmdos.Edit.Moves.{LandsIn, move_up-LandsIn, move_down-LandsIn}
use rmdos.Edit.Search.{find_at, FindsFirst, find_at-FindsFirst}
use rmdos.Edit.Files.{Saved, save_file, save_file_lem}
use rmdos.Edit.Load.{Reads, load_file, load_file-slice}
use rmdos.Edit.RoundTrip.{save_file-load_file}

abbrev pub letters : Buffer
letters = λ j.
    if j == 0 then 65 else if j == 1 then 66 else if j == 2 then 10 else if j == 3 then 67 else 0

abbrev pub pattern : Buffer
pattern = λ j. if j == 0 then 98 else 0

abbrev pub editor : Editor
editor = record {
  text = letters;
  buf_cap = 16;
  text_len = 4;
  cursor = 1;
  dirty = false;
  have_path = true;
  view_row = 0;
  find_pat = pattern;
  find_len = 1;
}

pub letters_lt : (j : ℕ) → letters j < 256
letters_lt j = ground arith

editor-IsValid : IsValid editor
editor-IsValid = record { cursor_le = omega arith; len_lt = omega arith; bytes = letters_lt }

insert_char_zipper_example :
    (before (insert_char 88 editor) ≡ 65 ∷ 88 ∷ [])
    × (after (insert_char 88 editor) ≡ 66 ∷ 10 ∷ 67 ∷ [])
insert_char_zipper_example = (insert_char_zipper 88 editor editor-IsValid).0 (omega arith)

delete_char_zipper_example :
    (before (delete_char editor) ≡ 65 ∷ []) × (66 ∷ 10 ∷ 67 ∷ [] ≡ 66 ∷ after (delete_char editor))
delete_char_zipper_example = (delete_char_zipper editor editor-IsValid).0 (omega arith)

ensure_view-IsVisible_example :
    ((ensure_view editor).view_row ≤ cursor_row editor)
    × (cursor_row editor < (ensure_view editor).view_row + rows)
    × ((ensure_view editor).view_row < count_lines letters 4)
    × (ensure_view editor ≡ record editor { view_row = (ensure_view editor).view_row })
ensure_view-IsVisible_example = ensure_view-IsVisible editor (omega arith)

-- The cursor behind the last byte.
abbrev at_end : Editor
at_end = record editor { cursor = 4 }

starts :
    (line_start letters 4 ≡ 3)
    × (line_start letters 2 ≡ 0)
    × (line_col letters 4 ≡ 1)
    × (next_line letters 4 1 ≡ 3)
    × (line_col letters 1 ≡ 1)
unfolding line_start line_col next_line next_line_in
starts = (refl, refl, refl, refl, refl)

move_up-LandsIn_example :
    LandsIn (move_up at_end) (line_start letters (line_start letters 4 - 1)) (line_col letters 4)
move_up-LandsIn_example = (move_up-LandsIn at_end (omega arith)).1 (omega (arith, starts.0))

move_down-LandsIn_example : LandsIn (move_down editor) (next_line letters 4 1) (line_col letters 1)
move_down-LandsIn_example =
    (move_down-LandsIn editor (omega arith)).1 (omega arith) (rw (starts.3) refl)

find_at-FindsFirst_example : FindsFirst editor 0 (find_at editor 0)
find_at-FindsFirst_example = (find_at-FindsFirst editor 0).0 (omega arith)

-- Writes that take all that they are given.
abbrev pub write_all : ℕ → ℕ → ℕ
write_all off n = n

abbrev read_letters : ℕ → ℕ → Option (List ℕ)
read_letters off n = some (slice letters off (if ltb n (4 - off) then n else 4 - off))

letters-Reads : Reads letters 4 read_letters
letters-Reads off n = refl

save_file_lem_example :
    (r : Saved) × ((save_file write_all true editor).1 ≡ some r)
    × (r.complete ≡ true
        → (r.file ≡ 65 ∷ 66 ∷ 10 ∷ 67 ∷ [])
          × ((save_file write_all true editor).0 ≡ record editor { dirty = false }))
    × (r.complete ≡ false → (save_file write_all true editor).0 ≡ editor)
    × (((n m : ℕ) → write_all n m ≡ m) → r.complete ≡ true)
save_file_lem_example = save_file_lem write_all editor refl

-- The file that the next two load, over an editor that holds nothing.
abbrev empty_editor : Editor
empty_editor = record editor { text = zeroed; text_len = 0; cursor = 0 }

load_file-slice_example :
    let l = load_file read_letters true empty_editor in
    (l.text_len ≡ 4)
    × (slice l.text 0 l.text_len ≡ 65 ∷ 66 ∷ 10 ∷ 67 ∷ [])
    × (l.cursor ≡ 0)
    × (l.dirty ≡ false)
    × (l.text_len < 16)
load_file-slice_example =
    load_file-slice letters 4 read_letters letters_lt letters-Reads empty_editor refl (omega arith)

save_file-load_file_example :
    (save_file write_all true (load_file read_letters true empty_editor)).1
    ≡ some (record { complete = true; file = 65 ∷ 66 ∷ 10 ∷ 67 ∷ [] })
save_file-load_file_example =
    save_file-load_file letters 4 read_letters write_all empty_editor letters_lt letters-Reads
      (λ n m. refl) refl (omega arith)
