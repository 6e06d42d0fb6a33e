-- ===== src/Edit/Keys/Saves.antt =====
-- The text that a session at the keyboard saved last, beside the dirty flag.
use rmdos.Base.{
  ℕ, ◌+◌, ◌-◌, Bool, true, false, not, ◌&&◌, List, [], ◌∷◌, Option, none, some, ◌≡◌, inl, inr, refl,
  sym, ◌∙◌, arith, ltb, leb, ◌==◌, if◌then◌else◌, Buffer, slice, Bool-cases,
}
use rmdos.Runtime.{toupper_ch}
use rmdos.Edit.{Editor, ensure_view, insert_char, delete_char, backspace, move_up, move_down}
use rmdos.Edit.Search.{search_on, search_on_only}
use rmdos.Edit.Keys.{
  Mode, State, editing, finding, quitting, finished, redraw, ascii_of, scan_of, edit_key,
  is_printable, step_finding, step_editing, step_quitting, save_key, step, run,
}
use rmdos.Edit.Files.{Saved, save_file, save_file_ends}

-- The keys that save: F2 in the loop of `main`, where neither Escape nor Ctrl-F comes first.
abbrev is_save : State → ℕ → Bool
is_save (editing, s) key =
    not (ascii_of key == 27) && not (ascii_of key == 6) && scan_of key == 0x3c
is_save (finding, s) key = false
is_save (quitting, s) key = false
is_save (finished, s) key = false

-- A save counts where it is complete.
abbrev counted : Option Saved → List ℕ → List ℕ
counted none last = last
counted (some r) last = if r.complete then r.file else last

module _ (write : ℕ → ℕ → ℕ) (created : Bool) where
  abbrev saved_by : State → ℕ → List ℕ → List ℕ
  saved_by st key last =
      if is_save st key then counted (save_file write created st.1).1 last else last

  -- The bytes that the last complete save of the keys wrote, or `last` if none did.
  pub last_saved : State → List ℕ → List ℕ → List ℕ
  last_saved st [] last = last
  last_saved st (k ∷ ks) last = last_saved (step write created st k) ks (saved_by st k last)

-- A clear flag says that the text is the one last saved.
abbrev pub IsClean : List ℕ → Editor → Type 0
IsClean last s = s.dirty ≡ false → slice s.text 0 s.text_len ≡ last

-- What every operation but a save does: it sets the flag, or leaves the text and the flag alone.
record Same (s s' : Editor) : Type 0 where
  text : s'.text ≡ s.text
  len : s'.text_len ≡ s.text_len
  flag : s'.dirty ≡ s.dirty

data IsMarked (s s' : Editor) : Type 0 where
  flagged : s'.dirty ≡ true → IsMarked s s'
  kept : Same s s' → IsMarked s s'

same_here : (s : Editor) → IsMarked s s
same_here s = kept (record { text = refl; len = refl; flag = refl })

marked_then : (s s1 s2 : Editor) → IsMarked s s1 → IsMarked s1 s2 → IsMarked s s2
marked_then s s1 s2 a (flagged d) = flagged d
marked_then s s1 s2 (flagged d) (kept b) = flagged (b.flag ∙ d)
marked_then s s1 s2 (kept a) (kept b) =
    kept (record { text = b.text ∙ a.text; len = b.len ∙ a.len; flag = b.flag ∙ a.flag })

IsMarked-IsClean :
    (last : List ℕ) (s s' : Editor) → IsMarked s s' → IsClean last s → IsClean last s'
IsMarked-IsClean last s s' (flagged d) clean e = cc
IsMarked-IsClean last s s' (kept a) clean e = rw (a.text, a.len) (clean (sym a.flag ∙ e))

record MarkedState (s : Editor) (st : State) : Type 0 where
  marked : IsMarked s st.1

at_mode : (s : Editor) (mode : Mode) (s' : Editor) → IsMarked s s' → MarkedState s (mode, s')
at_mode s mode s' m = record { marked = m }

if_state :
    (s : Editor) (b : Bool) (x y : State)
    → MarkedState s x
    → MarkedState s y
    → MarkedState s (if b then x else y)
if_state s true _ _ p q = p
if_state s false _ _ p q = q

if_marked :
    (s : Editor) (b : Bool) (x y : Editor)
    → IsMarked s x
    → IsMarked s y
    → IsMarked s (if b then x else y)
if_marked s true _ _ p q = p
if_marked s false _ _ p q = q

ensure_view-IsMarked : (s : Editor) → IsMarked s (ensure_view s)
unfolding ensure_view
ensure_view-IsMarked s = kept (record { text = refl; len = refl; flag = refl })

shown : (s s' : Editor) → IsMarked s s' → IsMarked s (redraw s')
shown s s' m = marked_then s s' (redraw s') m (ensure_view-IsMarked s')

insert_char-IsMarked : (ch : ℕ) (s : Editor) → IsMarked s (insert_char ch s)
unfolding insert_char
insert_char-IsMarked ch s = elim (Bool-cases (leb (s.buf_cap - 1) s.text_len)) [
  | inl e ↦ rw e (same_here s)
  | inr e ↦ rw e (flagged refl)
]

delete_char-IsMarked : (s : Editor) → IsMarked s (delete_char s)
unfolding delete_char
delete_char-IsMarked s = elim (Bool-cases (leb s.text_len s.cursor)) [
  | inl e ↦ rw e (same_here s)
  | inr e ↦ rw e (flagged refl)
]

backspace-IsMarked : (s : Editor) → IsMarked s (backspace s)
unfolding backspace
backspace-IsMarked s = if_marked s _ _ _ (same_here s) (
    marked_then s s1 _ (kept (record { text = refl; len = refl; flag = refl }))
      (delete_char-IsMarked s1))
  where
    s1 : Editor
    s1 = record s { cursor = s.cursor - 1 }

move_up-IsMarked : (s : Editor) → IsMarked s (move_up s)
unfolding move_up
move_up-IsMarked s =
    if_marked s _ _ _ (same_here s) (kept (record { text = refl; len = refl; flag = refl }))

move_down-IsMarked : (s : Editor) → IsMarked s (move_down s)
unfolding move_down
move_down-IsMarked s =
    if_marked s _ _ _ (same_here s) (kept (record { text = refl; len = refl; flag = refl }))

search_on-IsMarked : (prompt : Bool) (s : Editor) → IsMarked s (search_on prompt s)
search_on-IsMarked prompt s =
    let (c, e) = search_on_only prompt s in
    rw e
      (shown s (record s { cursor = c }) (kept (record { text = refl; len = refl; flag = refl })))

edit_key-IsMarked : (s : Editor) (key : ℕ) → IsMarked s (edit_key s key)
unfolding edit_key
edit_key-IsMarked s key =
    if_marked s (scan_of key == 0x4b) _ _ (shown s _ (to_cursor (ltb 0 s.cursor) (s.cursor - 1))) (
      if_marked s (scan_of key == 0x4d) _ _
        (shown s _ (to_cursor (ltb s.cursor s.text_len) (s.cursor + 1)))
        (if_marked s (scan_of key == 0x48) _ _ (shown s _ (move_up-IsMarked s)) (
          if_marked s (scan_of key == 0x50) _ _ (shown s _ (move_down-IsMarked s)) (
            if_marked s (scan_of key == 0x53) _ _ (shown s _ (delete_char-IsMarked s)) (
              if_marked s (ascii_of key == 8) _ _ (shown s _ (backspace-IsMarked s)) (
                if_marked s (ascii_of key == 13) _ _ (shown s _ enter) (
                  if_marked s (is_printable (ascii_of key)) _ _
                    (shown s _ (insert_char-IsMarked (ascii_of key) s)) (same_here s))))))))
  where
    to_cursor : (b : Bool) (c : ℕ) → IsMarked s (if b then record s { cursor = c } else s)
    to_cursor b c =
        if_marked s b _ _ (kept (record { text = refl; len = refl; flag = refl })) (same_here s)

    enter : IsMarked s (insert_char 10 (insert_char 13 s))
    enter =
        marked_then s (insert_char 13 s) _ (insert_char-IsMarked 13 s)
          (insert_char-IsMarked 10 (insert_char 13 s))

step_finding-Marked : (s : Editor) (key : ℕ) → MarkedState s (step_finding s key)
unfolding step_finding
step_finding-Marked s key =
    let ascii = ascii_of key in
    if_state s (ascii == 13) _ _ (at_mode s editing _ (search_on-IsMarked true s)) (
      if_state s (ascii == 27) _ _ (at_mode s editing s (same_here s)) (
        if_state s (ascii == 8) _ _ (at_mode s finding _ (typed _ _ _))
          (at_mode s finding _ (typed _ _ _))))
  where
    typed :
        (b : Bool) (n : ℕ) (pat : Buffer)
        → IsMarked s (if b then record s { find_len = n; find_pat = pat } else s)
    typed b n pat =
        if_marked s b _ _ (kept (record { text = refl; len = refl; flag = refl })) (same_here s)

module _ (write : ℕ → ℕ → ℕ) (created : Bool) where
  save_key-IsClean :
      (last : List ℕ) (s : Editor)
      → IsClean last s
      → IsClean (counted (save_file write created s).1 last) (save_key write created s)
  unfolding save_key
  save_key-IsClean last s clean =
      IsMarked-IsClean _ (save_file write created s).0 _
        (if_marked _ _ _ _ (ensure_view-IsMarked _) (same_here _))
        (elim (save_file_ends write created s) [
          | inl (r, e, full, whole, e') ↦ rw (e, e', full) (λ d. sym whole)
          | inr (e', inl e) ↦ rw (e, e') clean
          | inr (e', inr (r, e, part)) ↦ rw (e, e', part) clean
        ])

  step-IsClean :
      (last : List ℕ) (mode : Mode) (s : Editor) (key : ℕ)
      → IsClean last s
      → IsClean (saved_by write created (mode, s) key last) (step write created (mode, s) key).1
  unfolding step step_editing step_quitting
  step-IsClean last editing s key clean = elim (Bool-cases (ascii_of key == 27)) [
    | inl a ↦ rw a clean
    | inr a ↦ elim (Bool-cases (ascii_of key == 6)) [
      | inl b ↦ rw (a, b) clean
      | inr b ↦ elim (Bool-cases (scan_of key == 0x3d)) [
        | inl c ↦
            let other : (scan_of key == 0x3c) ≡ false = ground arith in
            rw (a, b, c, other) (IsMarked-IsClean last s _ (search_on-IsMarked false s) clean)
        | inr c ↦ elim (Bool-cases (scan_of key == 0x3c)) [
          | inl e ↦ rw (a, b, c, e) (save_key-IsClean last s clean)
          | inr e ↦ rw (a, b, c, e) (IsMarked-IsClean last s _ (edit_key-IsMarked s key) clean)
        ]
      ]
    ]
  ]
  step-IsClean last finding s key clean =
      IsMarked-IsClean last s _ (step_finding-Marked s key).marked clean
  step-IsClean last quitting s key clean = elim (Bool-cases (toupper_ch (ascii_of key) == b'Y')) [
    | inl a ↦ rw a clean
    | inr a ↦ rw a (IsMarked-IsClean last s _ (ensure_view-IsMarked s) clean)
  ]
  step-IsClean last finished s key clean = clean

  pub run-IsClean :
      (keys : List ℕ) (st : State) (last : List ℕ)
      → IsClean last st.1
      → IsClean (last_saved write created st keys last) (run write created st keys).1
  unfolding run last_saved
  run-IsClean [] st last clean = clean
  run-IsClean (k ∷ ks) (mode, s) last clean =
      run-IsClean ks (step write created (mode, s) k) _ (step-IsClean last mode s k clean)
