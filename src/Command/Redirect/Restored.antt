-- ===== src/Command/Redirect/Restored.antt =====
-- A redirection that fails leaves the handles as they were, and one that is undone does so too.
use rmdos.Base.{
  ℕ, Bool, true, false, ◌≡◌, ◌≢◌, inl, inr, refl, sym, ◌∙◌, if◌then◌else◌, Buffer, Bool-cases,
  Option, none, some,
}
use rmdos.Command.Redirect.{
  RedirKind, redir_none, redir_in, redir_out, redir_append, Dos, Redir, put_back, put_away,
  restore_redirection, setup_stdin, stdout_saved, stdout_opened, append_to, open_out, setup_stdout,
  setup_redirection,
}
use rmdos.Command.Redirect.Handles.{
  Opened, Duplicated, Lawful, Same, Held, opened_only, forced, held,
}
use rmdos.Command.Redirect.Stdin.{Idle, Stdin, setup_stdin-Stdin}

module _ {W F : Type 0} (dos : Dos W F) (laws : Lawful dos) where
  -- After the second half, which began with the handles of `w1`; before the first they were those
  -- of `w0`.
  abbrev Stdout : Bool → W → W → Option ℕ → Option ℕ → Redir W → Type 0
  Stdout false w0 w1 opened saved r = Same dos w0 r.world × Idle dos laws r
  Stdout true w0 w1 opened saved r =
      Held dos w1 r.world 1 r.redir_out_handle r.saved_stdout
      × (r.redir_in_handle ≡ opened)
      × (r.saved_stdin ≡ saved)

  stdout_saved-Stdout :
      (h : ℕ) (s : Option ℕ) (w0 w1 w2 : W) (st : Redir W)
      → Held dos w0 w1 0 st.redir_in_handle st.saved_stdin
      → dos.handle w1 1 ≢ none
      → Opened dos (some h) w1 w2
      → Duplicated dos 1 s w2 st.world
      → st.redir_out_handle ≡ some h
      → st.saved_stdout ≡ s
      → Stdout
          (stdout_saved dos h s st).0
          w0
          w1
          st.redir_in_handle
          st.saved_stdin
          (stdout_saved dos h s st).1
  unfolding stdout_saved restore_redirection
  stdout_saved-Stdout h none w0 w1 w2 st k b o d e f =
      rw (e, f)
        (
          k (dos.dos_close h st.world) (opened_only dos laws h w1 w2 st.world o d),
          (refl, refl, refl, refl),
        )
  stdout_saved-Stdout h (some s) w0 w1 w2 st k b o d e f =
      let r = held dos laws h s 1 w1 w2 st.world b o d in
      elim (Bool-cases (dos.dos_force_dup h 1 st.world).0) [
        | inl y ↦ rw (y, e, f) (r, refl, refl)
        | inr n ↦
            let now = forced dos laws h s 1 w1 w2 st.world b o d in
            rw (n, e, f)
              (
                k (put_away dos (some h) (put_back dos (some s) 1 now)) (r now (λ j. refl)),
                (refl, refl, refl, refl),
              )
      ]

  stdout_opened-Stdout :
      (h : Option ℕ) (w0 w1 : W) (st : Redir W)
      → Held dos w0 w1 0 st.redir_in_handle st.saved_stdin
      → dos.handle w1 1 ≢ none
      → Opened dos h w1 st.world
      → st.saved_stdout ≡ none
      → st.redir_out_handle ≡ none
      → Stdout
          (stdout_opened dos h st).0
          w0
          w1
          st.redir_in_handle
          st.saved_stdin
          (stdout_opened dos h st).1
  unfolding stdout_opened restore_redirection
  stdout_opened-Stdout none w0 w1 st k b o e f = rw (e, f) (k st.world o, (refl, refl, refl, refl))
  stdout_opened-Stdout (some h) w0 w1 st k b o e f =
      let d = dos.dos_dup 1 st.world in
      stdout_saved-Stdout h d.0 w0 w1 st.world
        (record st { world = d.1; redir_out_handle = some h; saved_stdout = d.0 }) k b o
        (laws.dups 1 st.world) refl refl

  created : (h : Option ℕ) (w w1 w2 : W) → Same dos w w1 → Opened dos h w1 w2 → Opened dos h w w2
  created none w w1 w2 a o = λ j. o j ∙ a j
  created (some h) w w1 w2 a (x, y, z) = (sym (a h) ∙ x, y, λ j n. z j n ∙ a j)

  open_out-Opened :
      (kind : RedirKind) (name : Buffer) (w : W)
      → Opened dos (open_out dos kind name w).0 w (open_out dos kind name w).1
  unfolding open_out
  open_out-Opened redir_append name w =
      let o = dos.dos_open name 1 w in appended o.0 name w o.1 (laws.opens name 1 w)
    where
      appended :
          (h : Option ℕ) (name : Buffer) (w w1 : W)
          → Opened dos h w w1
          → Opened dos (append_to dos h name w1).0 w (append_to dos h name w1).1
      appended none name w w1 o =
          created (dos.dos_create name 0 w1).0 w w1 (dos.dos_create name 0 w1).1 o
            (laws.creates name 0 w1)
      appended (some h) name w w1 (a, b, c) =
          (a, (λ e. b (sym (laws.seeks h w1 h) ∙ e)), (λ j n. laws.seeks h w1 j ∙ c j n))
  open_out-Opened redir_none name w = laws.creates name 0 w
  open_out-Opened redir_in name w = laws.creates name 0 w
  open_out-Opened redir_out name w = laws.creates name 0 w

  written_lem :
      (kind : RedirKind) (w0 : W) (st : Redir W)
      → Held dos w0 st.world 0 st.redir_in_handle st.saved_stdin
      → dos.handle st.world 1 ≢ none
      → st.saved_stdout ≡ none
      → st.redir_out_handle ≡ none
      → (let o = open_out dos kind st.redir_out_name st.world in
          let r = stdout_opened dos o.0 (record st { world = o.1 }) in
          Stdout r.0 w0 st.world st.redir_in_handle st.saved_stdin r.1)
  written_lem kind w0 st k b e f =
      let o = open_out dos kind st.redir_out_name st.world in
      stdout_opened-Stdout o.0 w0 st.world (record st { world = o.1 }) k b
        (open_out-Opened kind st.redir_out_name st.world) e f

  setup_stdout-Stdout :
      (kind : RedirKind) (w0 : W) (st : Redir W)
      → Held dos w0 st.world 0 st.redir_in_handle st.saved_stdin
      → dos.handle st.world 1 ≢ none
      → st.saved_stdout ≡ none
      → st.redir_out_handle ≡ none
      → Stdout
          (setup_stdout dos kind st).0
          w0
          st.world
          st.redir_in_handle
          st.saved_stdin
          (setup_stdout dos kind st).1
  unfolding setup_stdout
  setup_stdout-Stdout redir_none w0 st k b e f = rw (e, f) ((λ w same. same), refl, refl)
  setup_stdout-Stdout redir_in w0 st k b e f = written_lem redir_in w0 st k b e f
  setup_stdout-Stdout redir_out w0 st k b e f = written_lem redir_out w0 st k b e f
  setup_stdout-Stdout redir_append w0 st k b e f = written_lem redir_append w0 st k b e f

  -- After `setup_redirection`.
  abbrev Setup : Bool → W → Redir W → Type 0
  Setup false w0 r = Same dos w0 r.world × Idle dos laws r
  Setup true w0 r =
      (w : W)
      → Same dos r.world w
      → Same dos w0 (restore_redirection dos (record r { world = w })).world

  setup_redirection-Setup :
      (st : Redir W)
      → dos.handle st.world 0 ≢ none
      → dos.handle st.world 1 ≢ none
      → Idle dos laws st
      → Setup (setup_redirection dos st).0 st.world (setup_redirection dos st).1
  unfolding setup_redirection restore_redirection
  setup_redirection-Setup st a b i =
      both (setup_stdin dos st.redir_in_kind st).0 (setup_stdin dos st.redir_in_kind st).1
        (setup_stdin-Stdin dos laws st.redir_in_kind st a b i)
    where
      undone :
          (c : Bool) (r1 r : Redir W)
          → Stdin dos laws true st.world r1
          → Stdout c st.world r1.world r1.redir_in_handle r1.saved_stdin r
          → Setup c st.world r
      undone false r1 r x y = y
      undone true r1 r (k, o, e, f) (l, g, h) = λ w same.
          rw (g, h)
            (k (put_away dos r.redir_out_handle (put_back dos r.saved_stdout 1 w)) (l w same))

      both :
          (c : Bool) (r1 : Redir W)
          → Stdin dos laws c st.world r1
          → (let r = if c then setup_stdout dos r1.redir_out_kind r1 else (false, r1) in
              Setup r.0 st.world r.1)
      both false r1 x = x
      both true r1 (k, o, e, f) =
          let still_open : dos.handle r1.world 1 ≢ none = λ x. b (sym o ∙ x) in
          undone (setup_stdout dos r1.redir_out_kind r1).0 r1
            (setup_stdout dos r1.redir_out_kind r1).1 (k, o, e, f)
            (setup_stdout-Stdout r1.redir_out_kind st.world r1 k still_open e f)

  -- When `setup_redirection` fails, at whatever call, every handle stands for what it stood for
  -- before, and no handle is left open or saved. Handles 0 and 1 were open, no redirection was on, and
  -- the calls of DOS keep their promises.
  pub setup_redirection-Idle :
      (st : Redir W)
      → dos.handle st.world 0 ≢ none
      → dos.handle st.world 1 ≢ none
      → Idle dos laws st
      → (setup_redirection dos st).0 ≡ false
      → Same dos st.world (setup_redirection dos st).1.world
        × Idle dos laws (setup_redirection dos st).1
  setup_redirection-Idle st a b i e =
      coe 0 1 (j. Setup (e j) st.world (setup_redirection dos st).1)
        (setup_redirection-Setup st a b i)

  -- When `setup_redirection` succeeds and the command in between leaves the handles alone,
  -- `restore_redirection` makes every handle stand for what it stood for before. Handles 0 and 1
  -- were open, no redirection was on, and the calls of DOS keep their promises.
  pub restore_redirection-setup_redirection :
      (st : Redir W)
      → dos.handle st.world 0 ≢ none
      → dos.handle st.world 1 ≢ none
      → Idle dos laws st
      → (setup_redirection dos st).0 ≡ true
      → (w : W) → Same dos (setup_redirection dos st).1.world w
      → Same dos st.world
          (restore_redirection dos (record (setup_redirection dos st).1 { world = w })).world
  restore_redirection-setup_redirection st a b i e =
      coe 0 1 (j. Setup (e j) st.world (setup_redirection dos st).1)
        (setup_redirection-Setup st a b i)
