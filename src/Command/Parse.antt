-- ===== src/Command/Parse.antt =====
-- `parse_redirection` of command.c, which takes the redirections out of a command. The four handles
-- that it also sets to -1 are those of Command/Redirect.antt, where none is open at the start.
pub mod Names
use rmdos.Base.{
  ℕ, zero, suc, ◌+◌, ◌-◌, Bool, true, false, not, ◌&&◌, ◌||◌, leb, ltb, ◌==◌, if◌then◌else◌, Buffer,
  buf_set,
}
use rmdos.Command.Redirect.{RedirKind, redir_none, redir_in, redir_out, redir_append}
use rmdos.Command.Text.{blank}

-- The command, and what is found in it.
pub record Redirection : Type 0 where
  pub cmd : Buffer
  pub redir_in_name : Buffer
  pub redir_out_name : Buffer
  pub redir_in_kind : RedirKind
  pub redir_out_kind : RedirKind

-- The loop over blanks at `i`; each loop goes on for at most `fuel` bytes.
pub skip_blank : ℕ → Buffer → ℕ → ℕ
skip_blank zero cmd i = i
skip_blank (suc fuel) cmd i =
    let rest = skip_blank fuel cmd (i + 1) in if blank (cmd i) then rest else i

-- Where a file name ends, how many of its bytes are stored, and the array they are in.
pub record Named : Type 0 where
  pub next : ℕ
  pub count : ℕ
  pub name : Buffer

-- The loop over the file name at `i`. PATH_MAX is 64.
pub name_from : ℕ → Buffer → ℕ → ℕ → Buffer → Named
name_from zero cmd i n name = record { next = i; count = n; name = name }
name_from (suc fuel) cmd i n name =
    let c = cmd i in
    let kept = name_from fuel cmd (i + 1) (n + 1) (buf_set name n c) in
    let skipped = name_from fuel cmd (i + 1) n name in
    if c == 0 || blank c || c == b'<' || c == b'>'
    then record { next = i; count = n; name = name }
    else if ltb n 63
    then kept
    else skipped

-- The last loop, which takes blanks off the end at `o`.
pub trimmed : ℕ → Buffer → ℕ
trimmed zero cmd = 0
trimmed (suc o) cmd = let rest = trimmed o cmd in if blank (cmd o) then rest else suc o

-- The outer loop, at `i` of the command and `o` of what stays.
pub parse_from : ℕ → ℕ → ℕ → Redirection → Redirection
parse_from zero i o st = st
parse_from (suc fuel) i o st =
    let c = st.cmd i in
    let double = st.cmd (i + 1) == b'>' in
    let start = skip_blank fuel st.cmd (i + 1) in
    let start_out = skip_blank fuel st.cmd (if double then i + 2 else i + 1) in
    let input = name_from fuel st.cmd start 0 st.redir_in_name in
    let output = name_from fuel st.cmd start_out 0 st.redir_out_name in
    let after_in =
      parse_from fuel input.next o (record st {
        redir_in_name = buf_set input.name input.count 0;
        redir_in_kind = redir_in;
      }) in
    let after_out = parse_from fuel output.next o (record st {
      redir_out_name = buf_set output.name output.count 0;
      redir_out_kind = if double then redir_append else redir_out;
    }) in
    let kept = parse_from fuel (i + 1) (o + 1) (record st { cmd = buf_set st.cmd o c }) in
    if c == 0
    then record st { cmd = buf_set st.cmd (trimmed o st.cmd) 0 }
    else if c == b'<'
    then after_in
    else if c == b'>'
    then after_out
    else kept

pub parse_redirection : ℕ → Redirection → Redirection
parse_redirection fuel st = parse_from fuel 0 0 (record st {
  redir_in_kind = redir_none;
  redir_out_kind = redir_none;
  redir_in_name = buf_set st.redir_in_name 0 0;
  redir_out_name = buf_set st.redir_out_name 0 0;
})
