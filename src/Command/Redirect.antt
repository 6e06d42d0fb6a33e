-- ===== src/Command/Redirect.antt =====
-- Redirection in command.c: `setup_redirection` and `restore_redirection`.
pub mod Handles
pub mod Stdin
pub mod Restored
mod Examples
use rmdos.Base.{ℕ, Bool, true, false, if◌then◌else◌, Option, none, some, Buffer}

pub data RedirKind : Type 0 where
  redir_none : RedirKind
  redir_out : RedirKind
  redir_append : RedirKind
  redir_in : RedirKind

-- The calls of DOS. A handle is `none` where the call returns -1, and `force_dup` gives whether it
-- did not. `handle` is what a handle stands for, `none` when it is closed.
pub record Dos (W F : Type 0) : Type 0 where
  pub handle : W → ℕ → Option F
  pub dos_open : Buffer → ℕ → W → Option ℕ × W
  pub dos_create : Buffer → ℕ → W → Option ℕ × W
  pub dos_seek_end : ℕ → W → W
  pub dos_dup : ℕ → W → Option ℕ × W
  pub dos_force_dup : ℕ → ℕ → W → Bool × W
  pub dos_close : ℕ → W → W

-- The variables of a redirection, and the world that DOS keeps. A handle that is -1 is `none`.
pub record Redir (W : Type 0) : Type 0 where
  pub world : W
  pub redir_in_kind : RedirKind
  pub redir_out_kind : RedirKind
  pub redir_in_name : Buffer
  pub redir_out_name : Buffer
  pub redir_in_handle : Option ℕ
  pub redir_out_handle : Option ℕ
  pub saved_stdin : Option ℕ
  pub saved_stdout : Option ℕ

module _ {W F : Type 0} (dos : Dos W F) where
  -- What is done with a saved handle, and with one that was opened.
  abbrev pub put_back : Option ℕ → ℕ → W → W
  put_back none std w = w
  put_back (some h) std w = dos.dos_close h (dos.dos_force_dup h std w).1

  abbrev pub put_away : Option ℕ → W → W
  put_away none w = w
  put_away (some h) w = dos.dos_close h w

  pub restore_redirection : Redir W → Redir W
  restore_redirection st =
      let w1 = put_back st.saved_stdout 1 st.world in
      let w2 = put_away st.redir_out_handle w1 in
      let w3 = put_back st.saved_stdin 0 w2 in
      let w4 = put_away st.redir_in_handle w3 in
      record st {
        world = w4;
        saved_stdout = none;
        redir_out_handle = none;
        saved_stdin = none;
        redir_in_handle = none;
      }

  -- The first half of `setup_redirection`, from its end: the duplicate of the standard handle is
  -- there or not, then the file has been opened or not.
  pub stdin_saved : ℕ → Option ℕ → Redir W → Bool × Redir W
  stdin_saved h none st = (false, restore_redirection st)
  stdin_saved h (some s) st =
      let f = dos.dos_force_dup h 0 st.world in
      let st' = record st { world = f.1 } in
      if f.0 then (true, st') else (false, restore_redirection st')

  pub stdin_opened : Option ℕ → Redir W → Bool × Redir W
  stdin_opened none st = (false, st)
  stdin_opened (some h) st =
      let d = dos.dos_dup 0 st.world in
      stdin_saved h d.0 (record st { world = d.1; redir_in_handle = some h; saved_stdin = d.0 })

  pub setup_stdin : RedirKind → Redir W → Bool × Redir W
  setup_stdin redir_none st = (true, st)
  setup_stdin kind st =
      let o = dos.dos_open st.redir_in_name 0 st.world in
      stdin_opened o.0 (record st { world = o.1 })

  -- The second half.
  pub stdout_saved : ℕ → Option ℕ → Redir W → Bool × Redir W
  stdout_saved h none st = (false, restore_redirection st)
  stdout_saved h (some s) st =
      let f = dos.dos_force_dup h 1 st.world in
      let st' = record st { world = f.1 } in
      if f.0 then (true, st') else (false, restore_redirection st')

  pub stdout_opened : Option ℕ → Redir W → Bool × Redir W
  stdout_opened none st = (false, restore_redirection st)
  stdout_opened (some h) st =
      let d = dos.dos_dup 1 st.world in
      stdout_saved h d.0 (record st { world = d.1; redir_out_handle = some h; saved_stdout = d.0 })

  -- The file that is written: `>>` opens it and goes to its end, or else it is created.
  abbrev pub append_to : Option ℕ → Buffer → W → Option ℕ × W
  append_to none name w = dos.dos_create name 0 w
  append_to (some h) name w = (some h, dos.dos_seek_end h w)

  pub open_out : RedirKind → Buffer → W → Option ℕ × W
  open_out redir_append name w = let o = dos.dos_open name 1 w in append_to o.0 name o.1
  open_out kind name w = dos.dos_create name 0 w

  pub setup_stdout : RedirKind → Redir W → Bool × Redir W
  setup_stdout redir_none st = (true, st)
  setup_stdout kind st =
      let o = open_out kind st.redir_out_name st.world in
      stdout_opened o.0 (record st { world = o.1 })

  pub setup_redirection : Redir W → Bool × Redir W
  setup_redirection st =
      let r = setup_stdin st.redir_in_kind st in
      if r.0 then setup_stdout r.1.redir_out_kind r.1 else (false, r.1)
