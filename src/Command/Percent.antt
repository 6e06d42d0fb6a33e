-- ===== src/Command/Percent.antt =====
-- `expand_env_percent` of command.c, which puts the values of the environment for %NAME%.
pub mod Inside
mod Examples
use rmdos.Base.{
  ℕ, zero, suc, ◌+◌, Bool, true, false, ◌&&◌, ◌||◌, not, leb, ltb, ◌==◌, if◌then◌else◌, Buffer,
  buf_set, zeroed,
}
use rmdos.Command.Env.{Sys, env_copy_var}
use rmdos.Command.Text.{str_copy}
use rmdos.Command.Batch.{Out, append_from}

-- The name behind a '%', where the text goes on, and whether a second '%' has closed it.
pub record PercentName : Type 0 where
  pub next : ℕ
  pub name : Buffer
  pub closed : Bool

-- The loop over the name, where `left` = 31 - ni, and its NUL.
pub percent_name : ℕ → Buffer → ℕ → ℕ → Buffer → PercentName
percent_name zero cmd i ni name = record { next = i; name = buf_set name ni 0; closed = false }
percent_name (suc left) cmd i ni name =
    let c = cmd i in
    let rest = percent_name left cmd (i + 1) (ni + 1) (buf_set name ni c) in
    if c == 0
    then record { next = i; name = buf_set name ni 0; closed = false }
    else if c == b'%'
    then record { next = i + 1; name = buf_set name ni 0; closed = true }
    else rest

-- The name as it was typed, where the environment does not have it.
pub put_typed : PercentName → ℕ → Buffer → Out
put_typed p o out =
    let r = append_from 81 p.name 0 (o + 1) (buf_set out o b'%') in
    if p.closed && ltb r.o 80 then record { o = r.o + 1; out = buf_set r.out r.o b'%' } else r

-- The outer loop, at `i` of the command; `pathbuf` is `env_pathbuf`.
pub percent_from : ℕ → Sys → Buffer → ℕ → ℕ → Buffer → Buffer → Out
percent_from zero s cmd i o out pathbuf = record { o = o; out = out }
percent_from (suc fuel) s cmd i o out pathbuf =
    let c = cmd i in
    let d = cmd (i + 1) in
    let kept = percent_from fuel s cmd (i + 1) (o + 1) (buf_set out o c) pathbuf in
    let single = percent_from fuel s cmd (i + 2) (o + 1) (buf_set out o b'%') pathbuf in
    let digit =
      percent_from fuel s cmd (i + 2) (o + 2) (buf_set (buf_set out o b'%') (o + 1) d) pathbuf in
    let p = percent_name 31 cmd (i + 1) 0 zeroed in
    let v = env_copy_var fuel s p.name 128 pathbuf in
    let value = append_from 81 v.buf 0 o out in
    let replaced = percent_from fuel s cmd p.next value.o value.out v.buf in
    let typed = put_typed p o out in
    let unknown =
      percent_from fuel s cmd p.next typed.o typed.out (if p.closed then v.buf else pathbuf) in
    if c == 0 || leb 80 o
    then record { o = o; out = out }
    else if not (c == b'%')
    then kept
    else if d == b'%'
    then single
    else if leb b'0' d && leb d b'9'
    then digit
    else if p.closed && v.found
    then replaced
    else unknown

-- The command, whose array has 82 bytes.
pub expand_env_percent : ℕ → Sys → Buffer → Buffer → Buffer → Buffer
expand_env_percent fuel s out pathbuf cmd =
    let r = percent_from fuel s cmd 0 0 out pathbuf in str_copy cmd 0 (buf_set r.out r.o 0) 82
