-- ===== src/Edit/Keys/Examples.antt =====
-- Two sessions at the keyboard, on the text of Edit/Examples.
use rmdos.Base.{ℕ, true, List, [], ◌∷◌, ◌≡◌, refl, ◌⊎◌, arith, slice}
use rmdos.Runtime.{toupper_ch}
use rmdos.Edit.{insert_char, ensure_view}
use rmdos.Edit.Examples.{letters, pattern, editor, write_all, letters_lt}
use rmdos.Edit.Keys.{editing, finished, step, run, step_editing, step_quitting, edit_key}
use rmdos.Edit.Keys.Session.{IsSound, run-IsSound}
use rmdos.Edit.Keys.Saves.{last_saved}
use rmdos.Edit.Keys.Quit.{Confirmed, run-Confirmed}

editor-IsSound : IsSound 16 letters pattern editor
editor-IsSound = record {
  cursor_le = omega arith;
  len_lt = omega arith;
  bytes = letters_lt;
  cap_is = refl;
  find_lt = omega arith;
  text_behind = λ j h. refl;
  pat_behind = λ j h. refl;
}

-- `x`, Ctrl-F, `C`, Enter, cursor up, F2 and Escape.
abbrev keys : List ℕ
keys = 120 ∷ 6 ∷ 67 ∷ 13 ∷ 0x4800 ∷ 0x3c00 ∷ 27 ∷ []

run-IsSound_example : IsSound 16 letters pattern (run write_all true (editing, editor) keys).1
run-IsSound_example = run-IsSound write_all true keys editing editor editor-IsSound

-- `x`, Escape and `y`. The text last saved is the one that the session begins with.
abbrev quit_keys : List ℕ
quit_keys = 120 ∷ 27 ∷ 121 ∷ []

quits : (run write_all true (editing, editor) quit_keys).0 ≡ finished
unfolding run step step_editing step_quitting edit_key insert_char ensure_view toupper_ch
quits = refl

run-Confirmed_example :
    let e = (run write_all true (editing, editor) quit_keys).1 in
    (slice e.text 0 e.text_len
      ≡ last_saved write_all true (editing, editor) quit_keys (slice editor.text 0 editor.text_len))
    ⊎ Confirmed write_all true (editing, editor) quit_keys
run-Confirmed_example =
    run-Confirmed write_all true quit_keys editing editor (slice editor.text 0 editor.text_len) (cc)
      (λ d. refl) quits
