-- ===== src/Command/Set.antt =====
-- The command SET, `do_set` of command.c.
pub mod Stored
mod Examples
use rmdos.Base.{
  ℕ, zero, suc, ◌+◌, ◌-◌, Bool, true, false, not, ◌&&◌, ◌||◌, List, [], ◌∷◌, ◌++◌, Option, none,
  some, leb, ltb, ◌==◌, if◌then◌else◌, Buffer, buf_set,
}
use rmdos.Command.Env.{Sys, print_env_value, env_dump, env_put}
use rmdos.Command.Text.{skip_spaces}

-- The text that is set, how long it is, and where its first '=' stands; `none` is -1.
pub record SetText : Type 0 where
  pub text : Buffer
  pub i : ℕ
  pub eq : Option ℕ

abbrev pub or_here : Option ℕ → ℕ → ℕ → Option ℕ
or_here none c i = if c == b'=' then some i else none
or_here (some e) c i = some e

-- The loop of `do_set` at `cursor`, where `left` = 78 - i.
pub entry_from : ℕ → Buffer → ℕ → Buffer → ℕ → Option ℕ → SetText
entry_from zero line cursor b i eq = record { text = b; i = i; eq = eq }
entry_from (suc left) line cursor b i eq =
    let c = line cursor in
    let rest = entry_from left line (cursor + 1) (buf_set b i c) (i + 1) (or_here eq c i) in
    if c == 0 then record { text = b; i = i; eq = eq } else rest

-- What is printed of a value, and whether there is one.
abbrev pub value_line : Bool × List ℕ → List ℕ
value_line (true, v) = v ++ 13 ∷ 10 ∷ []
value_line (false, v) = v

-- The end of `do_set`: `text` has its NUL, and is `i` bytes long.
pub set_entry : (ℕ → ℕ) → ℕ → Option ℕ → Buffer → ℕ → Sys → List ℕ × Sys
set_entry dos_alloc fuel none text i s = (value_line (print_env_value fuel s text), s)
set_entry dos_alloc fuel (some eq) text i s =
    let name = buf_set text eq 0 in
    let value = if leb i (eq + 1) then none else some (λ j. name (eq + 1 + j)) in
    ([], env_put dos_alloc fuel name value s)

-- What `do_set` prints, and the environment. `last_set` has 80 bytes. Where the cursor ends and what
-- `last_set` holds are not kept: nothing reads them before they are set again.
pub do_set : (ℕ → ℕ) → ℕ → Buffer → ℕ → Buffer → Sys → List ℕ × Sys
do_set dos_alloc fuel line cursor last_set s =
    let here = skip_spaces fuel line cursor in
    let r = entry_from 78 line here last_set 0 none in
    if line here == 0
    then (env_dump fuel s, s)
    else set_entry dos_alloc fuel r.eq (buf_set r.text r.i 0) r.i s
