-- ===== src/Command/Redirect/Stdin.antt =====
-- The first half of `setup_redirection`.
use rmdos.Base.{
  ℕ, Bool, true, false, ◌≡◌, ◌≢◌, inl, inr, refl, arith, Bool-cases, Option, none, some,
}
use rmdos.Command.Redirect.{
  RedirKind, redir_none, redir_in, redir_out, redir_append, Dos, Redir, restore_redirection,
  stdin_saved, stdin_opened, setup_stdin,
}
use rmdos.Command.Redirect.Handles.{
  Opened, Duplicated, Lawful, Same, Held, opened_only, forced, forced_other, held,
}

module _ {W F : Type 0} (dos : Dos W F) (laws : Lawful dos) where
  -- No handle is open for a redirection.
  abbrev pub Idle : Redir W → Type 0
  Idle st =
      (st.saved_stdout ≡ none)
      × (st.redir_out_handle ≡ none)
      × (st.saved_stdin ≡ none)
      × (st.redir_in_handle ≡ none)

  -- After the first half, which began at `w0`.
  abbrev pub Stdin : Bool → W → Redir W → Type 0
  Stdin false w0 r = Same dos w0 r.world × Idle r
  Stdin true w0 r =
      Held dos w0 r.world 0 r.redir_in_handle r.saved_stdin
      × (dos.handle r.world 1 ≡ dos.handle w0 1)
      × (r.saved_stdout ≡ none)
      × (r.redir_out_handle ≡ none)

  stdin_saved-Stdin :
      (h : ℕ) (s : Option ℕ) (w0 w1 : W) (st : Redir W)
      → dos.handle w0 0 ≢ none
      → dos.handle w0 1 ≢ none
      → Opened dos (some h) w0 w1
      → Duplicated dos 0 s w1 st.world
      → st.redir_in_handle ≡ some h
      → st.saved_stdin ≡ s
      → st.saved_stdout ≡ none
      → st.redir_out_handle ≡ none
      → Stdin (stdin_saved dos h s st).0 w0 (stdin_saved dos h s st).1
  unfolding stdin_saved restore_redirection
  stdin_saved-Stdin h none w0 w1 st a b o d e f g k =
      rw (e, f, g, k) (opened_only dos laws h w0 w1 st.world o d, (refl, refl, refl, refl))
  stdin_saved-Stdin h (some s) w0 w1 st a b o d e f g k =
      let r = held dos laws h s 0 w0 w1 st.world a o d in
      elim (Bool-cases (dos.dos_force_dup h 0 st.world).0) [
        | inl y ↦
            rw (y, e, f, g, k)
              (r, forced_other dos laws h s 0 w0 w1 st.world a o d 1 (omega arith) b, refl, refl)
        | inr n ↦
            rw (n, e, f, g, k)
              (r (forced dos laws h s 0 w0 w1 st.world a o d) (λ j. refl), (refl, refl, refl, refl))
      ]

  -- One handle that is closed was opened, or none.
  stdin_opened-Stdin :
      (h : Option ℕ) (w0 : W) (st : Redir W)
      → dos.handle w0 0 ≢ none
      → dos.handle w0 1 ≢ none
      → Opened dos h w0 st.world
      → Idle st
      → Stdin (stdin_opened dos h st).0 w0 (stdin_opened dos h st).1
  unfolding stdin_opened
  stdin_opened-Stdin none w0 st a b o i = (o, i)
  stdin_opened-Stdin (some h) w0 st a b o (i, j, k, l) =
      let d = dos.dos_dup 0 st.world in
      stdin_saved-Stdin h d.0 w0 st.world
        (record st { world = d.1; redir_in_handle = some h; saved_stdin = d.0 }) a b o
        (laws.dups 0 st.world) refl refl i j

  opened_lem :
      (st : Redir W)
      → dos.handle st.world 0 ≢ none
      → dos.handle st.world 1 ≢ none
      → Idle st
      → (let o = dos.dos_open st.redir_in_name 0 st.world in
          let r = stdin_opened dos o.0 (record st { world = o.1 }) in Stdin r.0 st.world r.1)
  opened_lem st a b i =
      let o = dos.dos_open st.redir_in_name 0 st.world in
      stdin_opened-Stdin o.0 st.world (record st { world = o.1 }) a b
        (laws.opens st.redir_in_name 0 st.world) i

  pub setup_stdin-Stdin :
      (kind : RedirKind) (st : Redir W)
      → dos.handle st.world 0 ≢ none
      → dos.handle st.world 1 ≢ none
      → Idle st
      → Stdin (setup_stdin dos kind st).0 st.world (setup_stdin dos kind st).1
  unfolding setup_stdin
  setup_stdin-Stdin redir_none st a b (i, j, k, l) =
      rw (i, j, k, l) ((λ w same. same), refl, refl, refl)
  setup_stdin-Stdin redir_in st a b i = opened_lem st a b i
  setup_stdin-Stdin redir_out st a b i = opened_lem st a b i
  setup_stdin-Stdin redir_append st a b i = opened_lem st a b i
