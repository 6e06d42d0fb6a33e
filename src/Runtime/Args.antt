-- ===== src/Runtime/Args.antt =====
-- The words of the command line: `args_init` to `args_token_quoted` of
-- firmware/src/main/dos/inc/dos.c. DOS leaves the command line at 0x81, ended by a CR.
pub mod Words
pub mod Copies
pub mod Tokens
use rmdos.Base.{
  ℕ, zero, suc, ◌+◌, ◌-◌, Bool, true, false, not, ◌||◌, ltb, ◌==◌, if◌then◌else◌, Buffer, buf_set,
}

-- Memory and `arg_ptr`.
pub record Args : Type 0 where
  pub mem : Buffer
  pub arg_ptr : ℕ

pub args_init : Args → Args
args_init a = record a { arg_ptr = 129 }

abbrev pub is_blank : ℕ → Bool
is_blank c = c == 32 || c == 9

abbrev pub is_end : ℕ → Bool
is_end c = c == 13 || c == 0

-- What is left of the command line, and whether there is a word in it.
pub record Skip : Type 0 where
  pub args : Args
  pub any : Bool

-- Each loop goes on for at most `fuel` bytes; more than the command line has left is enough.
pub args_skip : ℕ → Args → Skip
args_skip zero a = record { args = a; any = false }
args_skip (suc fuel) a =
    let rest = args_skip fuel (record a { arg_ptr = a.arg_ptr + 1 }) in
    let c = a.mem a.arg_ptr in
    if is_blank c then rest else record { args = a; any = not (is_end c) }

-- What the loops that copy a word have come to.
pub record Copy : Type 0 where
  pub args : Args
  pub buf : Buffer
  pub i : ℕ

-- The loop that copies a word up to a byte at which it stops; `args_token` and
-- `args_token_quoted` differ in where they stop.
pub copy_until : (ℕ → Bool) → ℕ → ℕ → Copy → Copy
copy_until stops maxlen zero w = w
copy_until stops maxlen (suc fuel) w =
    let c = w.args.mem w.args.arg_ptr in
    let next = record w.args { arg_ptr = w.args.arg_ptr + 1 } in
    let stored : Copy =
      (if ltb w.i (maxlen - 1)
        then record { args = next; buf = buf_set w.buf w.i c; i = w.i + 1 }
        else record { args = next; buf = w.buf; i = w.i }) in
    let rest = copy_until stops maxlen fuel stored in if stops c then w else rest

-- A word, whether there was one, and what is left.
pub record Token : Type 0 where
  pub args : Args
  pub buf : Buffer
  pub ok : Bool

-- 34 is the quote.
abbrev pub ends_word : ℕ → Bool
ends_word c = is_blank c || is_end c

abbrev pub ends_quoted : ℕ → Bool
ends_quoted c = c == 34 || is_end c

pub args_token : ℕ → ℕ → Buffer → Args → Token
unfolding args_skip copy_until
args_token fuel maxlen buf a =
    let r = args_skip fuel a in
    let b = r.args in
    if r.any
    then (let w = copy_until ends_word maxlen fuel (record { args = b; buf = buf; i = 0 }) in
        record { args = w.args; buf = buf_set w.buf w.i 0; ok = true })
    else record { args = b; buf = buf_set buf 0 0; ok = false }

pub args_token_quoted : ℕ → ℕ → Buffer → Args → Token
unfolding args_skip copy_until args_token
args_token_quoted fuel maxlen buf a =
    let r = args_skip fuel a in
    let b = r.args in
    if r.any
    then (if b.mem b.arg_ptr == 34
        then (let opened = record b { arg_ptr = b.arg_ptr + 1 } in
            let w =
              copy_until ends_quoted maxlen fuel (record { args = opened; buf = buf; i = 0 }) in
            let p = w.args.arg_ptr in
            record {
              args = if w.args.mem p == 34 then record w.args { arg_ptr = p + 1 } else w.args;
              buf = buf_set w.buf w.i 0;
              ok = ltb 0 w.i;
            })
        else args_token fuel maxlen buf b)
    else record { args = b; buf = buf_set buf 0 0; ok = false }
