-- ===== src/Command/Redirect/Examples.antt =====
-- `>> file`, with a DOS that has eight handles from 5 on.
use rmdos.Base.{
  ℕ, zero, suc, ◌+◌, Bool, true, false, ◌&&◌, ◌≡◌, ◌≢◌, refl, sym, ◌∙◌, arith, ◌==◌, if◌then◌else◌,
  zeroed, Option, none, some,
}
use Prim.{Unit, tt}
use rmdos.Command.Redirect.{
  stdin_saved, stdin_opened, setup_stdin, stdout_saved, stdout_opened, open_out, setup_stdout,
  redir_in, redir_append, Dos, Redir, setup_redirection, restore_redirection,
}
use rmdos.Command.Redirect.Handles.{Opened, Duplicated, Lawful, Same}
use rmdos.Command.Redirect.Stdin.{Idle}
use rmdos.Command.Redirect.Restored.{setup_redirection-Idle, restore_redirection-setup_redirection}

-- What each handle stands for; 7 is the file.
abbrev Handles : Type 0
Handles = ℕ → Option ℕ

abbrev put_handle : ℕ → Option ℕ → Handles → Handles
put_handle h v w j = if j == h then v else w j

-- The first of `n` handles from `h` on that is closed.
abbrev closed_or : Option ℕ → Option ℕ → Option ℕ → Option ℕ
closed_or none h other = h
closed_or (some f) h other = other

abbrev first_closed : ℕ → ℕ → Handles → Option ℕ
first_closed zero h w = none
first_closed (suc n) h w = closed_or (w h) (some h) (first_closed n (h + 1) w)

abbrev given_to : Option ℕ → Option ℕ → Handles → Handles
given_to none v w = w
given_to (some h) v w = put_handle h v w

abbrev forced_to : Option ℕ → ℕ → Handles → Bool × Handles
forced_to none std w = (false, w)
forced_to (some f) std w = (true, put_handle std (some f) w)

-- `limit` is how many handles there are.
abbrev dos : ℕ → Dos Handles ℕ
dos limit = record {
  handle = λ w j. w j;
  dos_open = λ name mode w. (first_closed limit 5 w, given_to (first_closed limit 5 w) (some 7) w);
  dos_create =
      λ name attr w. (first_closed limit 5 w, given_to (first_closed limit 5 w) (some 7) w);
  dos_seek_end = λ h w. w;
  dos_dup = λ std w. (first_closed limit 5 w, given_to (first_closed limit 5 w) (w std) w);
  dos_force_dup = λ h std w. forced_to (w h) std w;
  dos_close = λ h w. put_handle h none w;
}

abbrev IsClosed : Option ℕ → Handles → Type 0
IsClosed none w = Unit
IsClosed (some h) w = w h ≡ none

first_closed-IsClosed : (n h : ℕ) (w : Handles) → IsClosed (first_closed n h w) w
first_closed-IsClosed zero h w = tt
first_closed-IsClosed (suc n) h w = either (w h) refl (first_closed-IsClosed n (h + 1) w)
  where
    either :
        (v : Option ℕ)
        → w h ≡ v
        → IsClosed (first_closed n (h + 1) w) w
        → IsClosed (closed_or v (some h) (first_closed n (h + 1) w)) w
    either none e c = e
    either (some f) e c = c

put_there : (h : ℕ) (v : Option ℕ) (w : Handles) → put_handle h v w h ≡ v
put_there h v w = let e : (h == h) ≡ true = ground arith in rw e refl

put_apart : (h : ℕ) (v : Option ℕ) (w : Handles) (j : ℕ) → j ≢ h → put_handle h v w j ≡ w j
put_apart h v w j n = let e : (j == h) ≡ false = ground arith in rw e refl

some_open : (f : ℕ) (v : Option ℕ) → v ≡ some f → v ≢ none
some_open f v e k = let never : none ≡ some f = sym k ∙ e in cc

file_opened :
    (limit : ℕ) (f : Option ℕ) (w : Handles)
    → IsClosed f w
    → Opened (dos limit) f w (given_to f (some 7) w)
file_opened limit none w c = λ j. refl
file_opened limit (some h) w c =
    (c, some_open 7 (put_handle h (some 7) w h) (put_there h (some 7) w), put_apart h (some 7) w)

copied :
    (limit std : ℕ) (f : Option ℕ) (w : Handles)
    → IsClosed f w
    → Duplicated (dos limit) std f w (given_to f (w std) w)
copied limit std none w c = λ j. refl
copied limit std (some h) w c = (c, put_there h (w std) w, put_apart h (w std) w)

forced :
    (v : Option ℕ) (std : ℕ) (w : Handles) (j : ℕ)
    → (forced_to v std w).1 j ≡ (if (forced_to v std w).0 && j == std then v else w j)
forced none std w j = refl
forced (some f) std w j = refl

forced_open : (v : Option ℕ) (std : ℕ) (w : Handles) → v ≢ none → (forced_to v std w).0 ≡ true
forced_open none std w h = absurd (h refl)
forced_open (some f) std w h = refl

laws : (limit : ℕ) → Lawful (dos limit)
laws limit = record {
  opens =
      λ name mode w. file_opened limit (first_closed limit 5 w) w (first_closed-IsClosed limit 5 w);
  creates =
      λ name attr w. file_opened limit (first_closed limit 5 w) w (first_closed-IsClosed limit 5 w);
  seeks = λ h w j. refl;
  dups = λ std w. copied limit std (first_closed limit 5 w) w (first_closed-IsClosed limit 5 w);
  forces = λ h std w j. forced (w h) std w j;
  forces_open = λ h std w o. forced_open (w h) std w o;
  closes = λ h w j. refl;
}

-- Handles 0 and 1 are the console.
abbrev console : Handles
console zero = some 1
console (suc zero) = some 1
console (suc (suc j)) = none

abbrev start : Redir Handles
start = record {
  world = console;
  redir_in_kind = redir_in;
  redir_out_kind = redir_append;
  redir_in_name = zeroed;
  redir_out_name = zeroed;
  redir_in_handle = none;
  redir_out_handle = none;
  saved_stdin = none;
  saved_stdout = none;
}

-- With three handles the duplicate of standard output fails.
setup_redirection-Idle_example :
    Same (dos 3) start.world (setup_redirection (dos 3) start).1.world
    × Idle (dos 3) (laws 3) (setup_redirection (dos 3) start).1
unfolding setup_redirection setup_stdin stdin_opened stdin_saved setup_stdout open_out stdout_opened
    stdout_saved
setup_redirection-Idle_example =
    setup_redirection-Idle (dos 3) (laws 3) start (some_open 1 (console 0) refl)
      (some_open 1 (console 1) refl) (refl, refl, refl, refl) refl

-- With eight it does not.
restore_redirection-setup_redirection_example :
    Same
      (dos 8)
      start.world
      (restore_redirection (dos 8) (record (setup_redirection (dos 8) start).1 {
        world = (setup_redirection (dos 8) start).1.world;
      })).world
unfolding setup_redirection setup_stdin stdin_opened stdin_saved setup_stdout open_out stdout_opened
    stdout_saved
restore_redirection-setup_redirection_example =
    restore_redirection-setup_redirection (dos 8) (laws 8) start (some_open 1 (console 0) refl)
      (some_open 1 (console 1) refl) (refl, refl, refl, refl) refl
      (setup_redirection (dos 8) start).1.world (λ j. refl)
