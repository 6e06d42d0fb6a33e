-- ===== src/Edit/Keys/Session.antt =====
-- What holds through a whole session at the keyboard.
use rmdos.Base.{
  ℕ, ◌+◌, ◌-◌, ◌≤◌, ◌<◌, Bool, true, false, ◌&&◌, List, [], ◌∷◌, ◌≡◌, inl, inr, refl, ◌∙◌, arith,
  ltb, ◌==◌, if◌then◌else◌, Buffer, buf_set, Bool-cases,
}
use rmdos.Runtime.{toupper_ch}
use rmdos.Edit.{
  Editor, find_max, ensure_view, insert_char, delete_char, backspace, move_up, move_down,
}
use rmdos.Edit.Zipper.{shift_up_at, shift_down_at}
use rmdos.Edit.Moves.{move_up_only, move_down_only, move_up-le, move_down-le}
use rmdos.Edit.Search.{search_on, search_on_moves}
use rmdos.Edit.Keys.{
  Mode, State, editing, finding, quitting, finished, redraw, ascii_of, scan_of, edit_key, move_left,
  move_right, is_printable, step_finding, save_key, step, run,
}
use rmdos.Edit.Files.{save_file, save_file_only}

-- The editor's offsets agree with its arrays, and it has written to no byte behind them: `cap`
-- bytes of text, which were `t0` at the start, and 40 of the pattern, which were `p0`.
pub record IsSound (cap : ℕ) (t0 p0 : Buffer) (s : Editor) : Type 0 where
  pub cursor_le : s.cursor ≤ s.text_len
  pub len_lt : s.text_len < s.buf_cap
  pub bytes : (j : ℕ) → s.text j < 256
  pub cap_is : s.buf_cap ≡ cap
  pub find_lt : s.find_len < find_max
  pub text_behind : (j : ℕ) → cap ≤ j → s.text j ≡ t0 j
  pub pat_behind : (j : ℕ) → find_max ≤ j → s.find_pat j ≡ p0 j

module _ (cap : ℕ) (t0 p0 : Buffer) where
  abbrev Sound : Editor → Type 0
  Sound = IsSound cap t0 p0

  -- Only the cursor and what is shown may change.
  moved :
      (s : Editor) (cursor view : ℕ) (d : Bool)
      → Sound s
      → cursor ≤ s.text_len
      → Sound (record s { cursor = cursor; view_row = view; dirty = d })
  moved s cursor view d v h = record {
    cursor_le = h;
    len_lt = v.len_lt;
    bytes = v.bytes;
    cap_is = v.cap_is;
    find_lt = v.find_lt;
    text_behind = v.text_behind;
    pat_behind = v.pat_behind;
  }

  insert_char-IsSound : (ch : ℕ) (s : Editor) → Sound s → Sound (insert_char ch s)
  unfolding insert_char
  insert_char-IsSound ch s v =
      let at = shift_up_at s.text s.cursor (s.text_len - s.cursor) in
      record {
        cursor_le = ground (arith, v.cursor_le);
        len_lt = ground (arith, v.len_lt);
        bytes = λ j. ground (arith, v.bytes j, v.bytes (j - 1), at j v.bytes);
        cap_is = ground (arith, v.cap_is);
        find_lt = ground (arith, v.find_lt);
        text_behind =
            λ j h. ground (arith, v.text_behind j h, v.cap_is, v.len_lt, v.cursor_le, at j v.bytes);
        pat_behind = λ j h. ground (arith, v.pat_behind j h);
      }

  delete_char-IsSound : (s : Editor) → Sound s → Sound (delete_char s)
  unfolding delete_char
  delete_char-IsSound s v =
      let at = shift_down_at s.text s.cursor (s.text_len - 1 - s.cursor) in
      record {
        cursor_le = ground (arith, v.cursor_le);
        len_lt = ground (arith, v.len_lt);
        bytes = λ j. ground (arith, v.bytes j, v.bytes (j + 1), at j v.bytes);
        cap_is = ground (arith, v.cap_is);
        find_lt = ground (arith, v.find_lt);
        text_behind =
            λ j h. ground (arith, v.text_behind j h, v.cap_is, v.len_lt, v.cursor_le, at j v.bytes);
        pat_behind = λ j h. ground (arith, v.pat_behind j h);
      }

  backspace-IsSound : (s : Editor) → Sound s → Sound (backspace s)
  unfolding backspace
  backspace-IsSound s v = elim (Bool-cases (ltb s.cursor 1)) [
    | inl e ↦ rw e v
    | inr e ↦ rw e (
        delete_char-IsSound _
          (moved s (s.cursor - 1) s.view_row s.dirty v (omega (arith, v.cursor_le))))
  ]

  ensure_view-IsSound : (s : Editor) → Sound s → Sound (ensure_view s)
  unfolding ensure_view
  ensure_view-IsSound s v = moved s s.cursor _ s.dirty v v.cursor_le

  search_on-IsSound : (prompt : Bool) (s : Editor) → Sound s → Sound (search_on prompt s)
  search_on-IsSound prompt s v =
      let (c, e, le) = search_on_moves prompt s v.cursor_le in
      rw e (ensure_view-IsSound _ (moved s c s.view_row s.dirty v le))

  move_up-IsSound : (s : Editor) → Sound s → Sound (move_up s)
  move_up-IsSound s v =
      rw (move_up_only s)
        (moved s (move_up s).cursor s.view_row s.dirty v (move_up-le s v.cursor_le))

  move_down-IsSound : (s : Editor) → Sound s → Sound (move_down s)
  move_down-IsSound s v =
      rw (move_down_only s)
        (moved s (move_down s).cursor s.view_row s.dirty v (move_down-le s v.cursor_le))

  save_file-IsSound :
      (write : ℕ → ℕ → ℕ) (created : Bool) (s : Editor)
      → Sound s
      → Sound (save_file write created s).0
  save_file-IsSound write created s v =
      let (d, e) = save_file_only write created s in
      rw e (moved s s.cursor s.view_row d v v.cursor_le)

  record SoundState (st : State) : Type 0 where
    sound : Sound st.1

  at_mode : (mode : Mode) (s : Editor) → Sound s → SoundState (mode, s)
  at_mode mode s v = record { sound = v }

  -- A branch keeps what both of its sides have.
  if_editor : (b : Bool) (x y : Editor) → Sound x → Sound y → Sound (if b then x else y)
  if_editor true _ _ p q = p
  if_editor false _ _ p q = q

  if_state :
      (b : Bool) (x y : State) → SoundState x → SoundState y → SoundState (if b then x else y)
  if_state true _ _ p q = p
  if_state false _ _ p q = q

  shown : (s : Editor) → Sound s → Sound (redraw s)
  shown s v = ensure_view-IsSound s v

  edit_key-IsSound : (s : Editor) (key : ℕ) → Sound s → Sound (edit_key s key)
  unfolding edit_key
  edit_key-IsSound s key v = if_editor _ _ _ (shown _ (if_left s v)) (
      if_editor _ _ _ (shown _ (if_right s v)) (
        if_editor _ _ _ (shown _ (move_up-IsSound s v)) (
          if_editor _ _ _ (shown _ (move_down-IsSound s v)) (
            if_editor _ _ _ (shown _ (delete_char-IsSound s v)) (
              if_editor _ _ _ (shown _ (backspace-IsSound s v)) (
                if_editor _ _ _ (shown _ (insert_char-IsSound 10 _ (insert_char-IsSound 13 s v)))
                  (if_editor _ _ _ (shown _ (insert_char-IsSound (ascii_of key) s v)) v)))))))
    where
      if_left : (s : Editor) → Sound s → Sound (move_left s)
      if_left s v =
          if_editor _ _ _ (moved s (s.cursor - 1) s.view_row s.dirty v (omega (arith, v.cursor_le)))
            v

      if_right : (s : Editor) → Sound s → Sound (move_right s)
      if_right s v = elim (Bool-cases (ltb s.cursor s.text_len)) [
        | inl e ↦ rw e (moved s (s.cursor + 1) s.view_row s.dirty v (ground arith))
        | inr e ↦ rw e v
      ]

  typed :
      (s : Editor) (n : ℕ) (pat : Buffer)
      → Sound s
      → n < find_max
      → ((j : ℕ) → find_max ≤ j → pat j ≡ s.find_pat j)
      → Sound (record s { find_pat = pat; find_len = n })
  typed s n pat v h same = record {
    cursor_le = v.cursor_le;
    len_lt = v.len_lt;
    bytes = v.bytes;
    cap_is = v.cap_is;
    find_lt = h;
    text_behind = v.text_behind;
    pat_behind = λ j p. same j p ∙ v.pat_behind j p;
  }

  step_finding-IsSound : (s : Editor) (key : ℕ) → Sound s → SoundState (step_finding s key)
  unfolding step_finding
  step_finding-IsSound s key v =
      if_state (ascii == 13) _ _ (at_mode editing _ (search_on-IsSound true s v)) (
        if_state (ascii == 27) _ _ (at_mode editing _ v)
          (if_state (ascii == 8) _ _ (at_mode finding _ erased) (at_mode finding _ added)))
    where
      ascii : ℕ
      ascii = ascii_of key

      erased : Sound (
          if ltb 0 s.find_len
          then record s {
            find_len = s.find_len - 1;
            find_pat = buf_set s.find_pat (s.find_len - 1) 0;
          }
          else s)
      erased =
          if_editor _ _ _
            (typed s (s.find_len - 1) _ v (ground (arith, v.find_lt))
              (λ j p. ground (arith, v.find_lt)))
            v

      added : Sound (
          if is_printable (ascii_of key) && ltb s.find_len (find_max - 1)
          then record s {
            find_len = s.find_len + 1;
            find_pat = buf_set (buf_set s.find_pat s.find_len (ascii_of key)) (s.find_len + 1) 0;
          }
          else s)
      added = elim (Bool-cases (is_printable (ascii_of key) && ltb s.find_len (find_max - 1))) [
        | inl e ↦ rw e (typed s (s.find_len + 1) _ v (ground arith) (λ j p. ground arith))
        | inr e ↦ rw e v
      ]

  save_key-IsSound :
      (write : ℕ → ℕ → ℕ) (created : Bool) (s : Editor) → Sound s → Sound (save_key write created s)
  unfolding save_key
  save_key-IsSound write created s v =
      let w = save_file-IsSound write created s v in if_editor _ _ _ (shown _ w) w

  step-IsSound :
      (write : ℕ → ℕ → ℕ) (created : Bool) (mode : Mode) (s : Editor) (key : ℕ)
      → Sound s
      → SoundState (step write created (mode, s) key)
  unfolding step
  step-IsSound write created editing s key v =
      if_state (ascii_of key == 27) _ _ (at_mode (if s.dirty then quitting else finished) _ v) (
        if_state (ascii_of key == 6) _ _
          (at_mode finding _ (typed s 0 s.find_pat v (omega arith) (λ j p. refl)))
          (if_state (scan_of key == 0x3d) _ _ (at_mode editing _ (search_on-IsSound false s v)) (
            if_state (scan_of key == 0x3c) _ _
              (at_mode editing _ (save_key-IsSound write created s v))
              (at_mode editing _ (edit_key-IsSound s key v)))))
  step-IsSound write created finding s key v = step_finding-IsSound s key v
  step-IsSound write created quitting s key v =
      if_state (toupper_ch (ascii_of key) == b'Y') _ _ (at_mode finished _ v)
        (at_mode editing _ (shown s v))
  step-IsSound write created finished s key v = at_mode finished _ v

pub run-IsSound_from :
    (cap : ℕ) (t0 p0 : Buffer) (write : ℕ → ℕ → ℕ) (created : Bool) (keys : List ℕ) (st : State)
    → IsSound cap t0 p0 st.1
    → IsSound cap t0 p0 (run write created st keys).1
unfolding run
run-IsSound_from cap t0 p0 write created [] st v = v
run-IsSound_from cap t0 p0 write created (k ∷ ks) (mode, s) v =
    run-IsSound_from cap t0 p0 write created ks (step write created (mode, s) k)
      (step-IsSound cap t0 p0 write created mode s k v).sound

-- From a state in which the cursor stands within the text, the text within the buffer and the
-- pattern within its array, no sequence of keys leads out of these bounds or writes a byte behind
-- either array, in whatever mode it begins and whatever the writes of the saves return.
pub run-IsSound :
    (write : ℕ → ℕ → ℕ) (created : Bool) (keys : List ℕ) (mode : Mode) (s : Editor)
    → IsSound s.buf_cap s.text s.find_pat s
    → IsSound s.buf_cap s.text s.find_pat (run write created (mode, s) keys).1
run-IsSound write created keys mode s v =
    run-IsSound_from s.buf_cap s.text s.find_pat write created keys (mode, s) v
