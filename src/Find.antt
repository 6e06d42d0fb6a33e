-- ===== src/Find.antt =====
-- FIND.COM, firmware/src/main/dos/find.c: the lines of a file that have a string in them.
pub mod Match
pub mod Lines
pub mod Bytes
pub mod Reading
pub mod Ends
mod Examples
use rmdos.Base.{
  ℕ, zero, suc, ◌+◌, ◌-◌, Bool, true, false, not, ◌&&◌, ◌||◌, List, [], ◌∷◌, ◌++◌, Option, none,
  some, ltb, ◌==◌, if◌then◌else◌, w16, Buffer, buf_set, zeroed,
}
use rmdos.Compare.Texts.{c_text}
use rmdos.Runtime.{toupper_ch, print_num}
use rmdos.Runtime.Args.{Args, args_init, Token, args_token_quoted}

-- The globals, and what has been printed.
pub record Find : Type 0 where
  pub needle : Buffer
  pub linebuf : Buffer
  pub linelen : ℕ
  pub found : Bool
  pub opt_v : Bool
  pub opt_c : Bool
  pub opt_n : Bool
  pub match_count : ℕ
  pub line_number : ℕ
  pub out : List ℕ

-- The inner loop of `line_has_needle` at `di`. It stops at the NUL of `linebuf`, which has 128
-- bytes, so both loops go on for at most 128 bytes.
unfoldable pub needle_at : ℕ → Buffer → Buffer → ℕ → ℕ → Bool
needle_at zero needle linebuf si di = false
needle_at (suc left) needle linebuf si di =
    let rest = needle_at left needle linebuf si (di + 1) in
    let a = needle di in
    let b = linebuf (si + di) in
    if a == 0
    then true
    else if b == 0
    then false
    else if not (toupper_ch a == toupper_ch b)
    then false
    else rest

-- The outer loop at `si`.
unfoldable pub needle_from : ℕ → Buffer → Buffer → ℕ → Bool
needle_from zero needle linebuf si = false
needle_from (suc left) needle linebuf si =
    let rest = needle_from left needle linebuf (si + 1) in
    if linebuf si == 0 then false else if needle_at 128 needle linebuf si 0 then true else rest

unfoldable pub line_has_needle : Buffer → Buffer → Bool
unfolding needle_from
line_has_needle needle linebuf = needle_from 128 needle linebuf 0

-- The loop of `copy_token` at `i`. Tokens have their NUL within 64 bytes.
pub copy_from : ℕ → ℕ → Buffer → Buffer → Buffer
copy_from zero i dst src = dst
copy_from (suc left) i dst src =
    let c = src i in
    let dst' = buf_set dst i c in
    let rest = copy_from left (i + 1) dst' src in if c == 0 then dst' else rest

pub copy_token : Buffer → Buffer → Buffer
unfolding copy_from
copy_token dst src = copy_from 64 0 dst src

-- The 0, 1 and -1 of `parse_switch`.
pub data Parsed : Type 0 where
  operand valid invalid : Parsed

-- A switch's letter.
abbrev pub set_option : ℕ → Find → Option Find
set_option c s =
    if c == 86
    then some (record s { opt_v = true })
    else if c == 67
    then some (record s { opt_c = true })
    else if c == 78
    then some (record s { opt_n = true })
    else none

-- How `parse_switch` goes on after a letter.
abbrev pub after_letter : Option Find → Find → (Find → Parsed × Find) → Parsed × Find
after_letter none s go_on = (invalid, s)
after_letter (some s') s go_on = go_on s'

-- The loop of `parse_switch` at `i`. The options stay set when a letter is refused.
pub switches_from : ℕ → ℕ → Buffer → Find → Parsed × Find
switches_from zero i token s = (invalid, s)
switches_from (suc left) i token s =
    if token i == 0
    then (valid, s)
    else after_letter (set_option (toupper_ch (token i)) s) s (switches_from left (i + 1) token)

pub parse_switch : Buffer → Find → Parsed × Find
unfolding switches_from
parse_switch token s =
    let c = token 0 in
    if not (c == 47) && not (c == 45)
    then (operand, s)
    else if token 1 == 0
    then (invalid, s)
    else switches_from 64 1 token s

-- The loop of `flush_line` that prints the line.
abbrev pub line_text : Buffer → List ℕ
line_text linebuf = c_text 128 linebuf

pub flush_line : Find → Find
flush_line s =
    let linebuf = buf_set s.linebuf s.linelen 0 in
    let line_number = w16 (s.line_number + 1) in
    let has = line_has_needle s.needle linebuf in
    let selected = if s.opt_v then not has else has in
    let numbered = if s.opt_n then print_num line_number ++ (58 ∷ []) else [] in
    let printed = if s.opt_c then [] else numbered ++ (line_text linebuf ++ (13 ∷ 10 ∷ [])) in
    let ended = record s { linebuf = linebuf; line_number = line_number; linelen = 0 } in
    if selected
    then record ended {
      found = true;
      match_count = w16 (s.match_count + 1);
      out = s.out ++ printed;
    }
    else ended

-- A byte of the file, where `last_cr` says whether a CR stands before it.
pub read_byte : ℕ → Bool → Find → Bool × Find
unfolding flush_line
read_byte c last_cr s =
    if c == 13
    then (true, flush_line s)
    else if c == 10
    then (false, if not last_cr then flush_line s else s)
    else if ltb s.linelen 126
    then (false, record s { linebuf = buf_set s.linebuf s.linelen c; linelen = s.linelen + 1 })
    else (false, s)

-- What `dos_read` gives, a byte at a time: these bytes, and then an error or the end.
pub record Input : Type 0 where
  pub bytes : List ℕ
  pub fails : Bool

-- The loop that reads, on the bytes to come.
pub read_bytes : List ℕ → Bool → Find → Find
unfolding read_byte
read_bytes [] last_cr s = s
read_bytes (c ∷ cs) last_cr s =
    let (last_cr', s') = read_byte c last_cr s in read_bytes cs last_cr' s'

-- What `main` returns and prints.
pub record Exit : Type 0 where
  pub code : ℕ
  pub out : List ℕ

abbrev pub msg_usage : List ℕ
msg_usage =
    70 ∷ 73 ∷ 78 ∷ 68 ∷ 32 ∷ 91 ∷ 47 ∷ 86 ∷ 93 ∷ 32 ∷ 91 ∷ 47 ∷ 67 ∷ 93 ∷ 32 ∷ 91 ∷ 47 ∷ 78 ∷ 93
    ∷ 32 ∷ 34 ∷ 115 ∷ 116 ∷ 114 ∷ 105 ∷ 110 ∷ 103 ∷ 34 ∷ 32 ∷ 91 ∷ 102 ∷ 105 ∷ 108 ∷ 101 ∷ 93 ∷ 13
    ∷ 10 ∷ []

abbrev pub msg_err : List ℕ
msg_err =
    70 ∷ 73 ∷ 78 ∷ 68 ∷ 58 ∷ 32 ∷ 102 ∷ 105 ∷ 108 ∷ 101 ∷ 32 ∷ 101 ∷ 114 ∷ 114 ∷ 111 ∷ 114 ∷ 13 ∷ 10
    ∷ []

-- `main` from the loop that reads on.
pub search : Input → Find → Exit
unfolding read_bytes
search input s =
    let r = read_bytes input.bytes false s in
    if input.fails
    then record { code = 2; out = r.out ++ msg_err }
    else (let e = if not (r.linelen == 0) then flush_line r else r in
        let total = if e.opt_c then print_num e.match_count ++ (13 ∷ 10 ∷ []) else [] in
        record { code = if e.found then 0 else 1; out = e.out ++ total })

-- The options, the needle and the path that the loop over the arguments has found.
pub record Arguments : Type 0 where
  pub find : Find
  pub have_needle : Bool
  pub have_path : Bool
  pub path : Buffer

-- An operand: the needle, the path, or one too many.
abbrev pub take_operand : Buffer → Arguments → Option Arguments
take_operand token o =
    if not o.have_needle
    then some (record o {
      find = record o.find { needle = copy_token o.find.needle token };
      have_needle = true;
    })
    else if not o.have_path
    then some (record o { path = copy_token o.path token; have_path = true })
    else none

-- The body of the loop over the arguments; `none` is the way to the usage message.
abbrev pub after_switch : Parsed → Find → Buffer → Arguments → Option Arguments
after_switch invalid s token o = none
after_switch valid s token o = some (record o { find = s })
after_switch operand s token o = take_operand token (record o { find = s })

pub take_argument : Buffer → Arguments → Option Arguments
unfolding parse_switch copy_token
take_argument token o = let (parsed, s) = parse_switch token o.find in after_switch parsed s token o

-- How the loop goes on after an argument.
abbrev pub after_argument : Option Arguments → (Arguments → Option Arguments) → Option Arguments
after_argument none go_on = none
after_argument (some o) go_on = go_on o

-- The loop over the arguments, with at most `left` of them; each is shorter than the command line.
pub read_arguments : ℕ → ℕ → Buffer → Args → Arguments → Option Arguments
unfolding take_argument
read_arguments zero fuel token a o = some o
read_arguments (suc left) fuel token a o =
    let t = args_token_quoted fuel 64 token a in
    if t.ok
    then after_argument (take_argument t.buf o) (read_arguments left fuel t.buf t.args)
    else some o

abbrev pub at_start : Find
at_start = record {
  needle = zeroed;
  linebuf = zeroed;
  linelen = 0;
  found = false;
  opt_v = false;
  opt_c = false;
  opt_n = false;
  match_count = 0;
  line_number = 0;
  out = [];
}

abbrev pub no_options : Arguments
no_options = record { find = at_start; have_needle = false; have_path = false; path = zeroed }

module _ (dos_open : Buffer → Option Input) (stdin : Input) where
  open_input : Arguments → Option Input
  open_input o = if o.have_path then dos_open o.path else some stdin

  run_search : Option Input → Find → Exit
  unfolding search
  run_search none s = record { code = 2; out = msg_err }
  run_search (some input) s = search input s

  run_options : Option Arguments → Exit
  unfolding open_input run_search
  run_options none = record { code = 2; out = msg_usage }
  run_options (some o) =
      if not o.have_needle
      then record { code = 2; out = msg_usage }
      else run_search (open_input o) o.find

  -- The program on the memory that holds its command line, of at most 127 bytes.
  pub find_main : Args → Exit
  unfolding read_arguments run_options
  find_main a = run_options (read_arguments 128 128 zeroed (args_init a) no_options)
