-- ===== src/Command/Text.antt =====
-- The strings of command.c: `str_clear` to `next_token`, `is_all_files_pattern`, `build_delete_path`,
-- `is_drive_spec` and `parse_uint`. Each loop goes on for at most `fuel` bytes; more than the string
-- has is enough.
pub mod Copy
use rmdos.Base.{
  ℕ, zero, suc, ◌+◌, ◌-◌, ◌*◌, ◌/◌, ◌%◌, Bool, true, false, not, ◌&&◌, ◌||◌, Option, none, some,
  leb, ltb, ◌==◌, if◌then◌else◌, slt, w16, Buffer, buf_set,
}
use rmdos.Runtime.{toupper_ch}

pub str_clear : Buffer → Buffer
str_clear s = buf_set s 0 0

-- The loop of `str_copy` at `i`, where `room` bytes still fit in front of the NUL. The target
-- begins at `d`.
pub str_copy_from : ℕ → Buffer → ℕ → Buffer → ℕ → Buffer
str_copy_from zero dst d src i = buf_set dst (d + i) 0
str_copy_from (suc room) dst d src i =
    let c = src i in
    let dst' = buf_set dst (d + i) c in
    let rest = str_copy_from room dst' d src (i + 1) in if c == 0 then dst' else rest

pub str_copy : Buffer → ℕ → Buffer → ℕ → Buffer
unfolding str_copy_from
str_copy dst d src max = str_copy_from (max - 1) dst d src 0

-- The loop of `str_eq` at `i`.
pub str_eq_from : ℕ → Buffer → Buffer → ℕ → Bool
str_eq_from zero a b i = false
str_eq_from (suc fuel) a b i =
    let x = toupper_ch (a i) in
    let y = toupper_ch (b i) in
    let rest = str_eq_from fuel a b (i + 1) in
    if not (x == y) then false else if x == 0 then true else rest

pub str_eq : ℕ → Buffer → Buffer → Bool
unfolding str_eq_from
str_eq fuel a b = str_eq_from fuel a b 0

-- The loop of `str_has` at `i`.
pub str_has_from : ℕ → Buffer → ℕ → ℕ → Bool
str_has_from zero s c i = false
str_has_from (suc fuel) s c i =
    let rest = str_has_from fuel s c (i + 1) in
    if s i == 0 then false else if s i == c then true else rest

pub str_has : ℕ → Buffer → ℕ → Bool
unfolding str_has_from
str_has fuel s c = str_has_from fuel s c 0

abbrev pub blank : ℕ → Bool
blank c = c == b' ' || c == 9

-- `cursor` is an offset in the line.
pub skip_spaces : ℕ → Buffer → ℕ → ℕ
skip_spaces zero line cursor = cursor
skip_spaces (suc fuel) line cursor =
    let rest = skip_spaces fuel line (cursor + 1) in if blank (line cursor) then rest else cursor

-- Where `next_token` leaves the cursor, its buffer, and how many bytes it has stored. It returns
-- whether that is not 0.
pub record NextToken : Type 0 where
  pub cursor : ℕ
  pub out : Buffer
  pub count : ℕ

-- The loop of `next_token`, where `room` bytes still fit.
pub token_from : ℕ → Buffer → ℕ → Buffer → ℕ → ℕ → NextToken
token_from zero line cursor out i room = record {
  cursor = cursor;
  out = buf_set out i 0;
  count = i;
}
token_from (suc fuel) line cursor out i room =
    let c = line cursor in
    let kept =
      token_from fuel line (cursor + 1) (buf_set out i (toupper_ch c)) (i + 1) (room - 1) in
    let skipped = token_from fuel line (cursor + 1) out i room in
    if c == 0 || blank c
    then record { cursor = cursor; out = buf_set out i 0; count = i }
    else if ltb 0 room
    then kept
    else skipped

pub next_token : ℕ → Buffer → ℕ → Buffer → ℕ → NextToken
unfolding skip_spaces token_from
next_token fuel line cursor out max =
    token_from fuel line (skip_spaces fuel line cursor) out 0 (max - 1)

-- Where the last part of a path begins: the first loop of `is_all_files_pattern` and
-- `build_delete_path` at `i`.
pub last_part : ℕ → Buffer → ℕ → ℕ → ℕ
last_part zero spec i base = base
last_part (suc fuel) spec i base =
    let c = spec i in
    let part = last_part fuel spec (i + 1) (i + 1) in
    let same = last_part fuel spec (i + 1) base in
    if c == 0 then base else if c == 0x5C || c == 0x2F || c == b':' then part else same

pub is_all_files_pattern : ℕ → Buffer → Bool
unfolding last_part
is_all_files_pattern fuel spec =
    let base = last_part fuel spec 0 0 in
    spec base == b'*' && spec (base + 1) == b'.' && spec (base + 2) == b'*' && spec (base + 3) == 0

-- The other loops of `build_delete_path`, each where `room` bytes still fit: the directory, `left`
-- bytes long, and the name that was found.
pub found_from : ℕ → Buffer → ℕ → Buffer → ℕ → Buffer
found_from zero found i path out = buf_set path out 0
found_from (suc room) found i path out =
    let rest = found_from room found (i + 1) (buf_set path out (found i)) (out + 1) in
    if found i == 0 then buf_set path out 0 else rest

pub dir_from : ℕ → ℕ → Buffer → Buffer → Buffer → ℕ → Buffer
unfolding found_from
dir_from zero room spec found path out = found_from room found 0 path out
dir_from (suc left) zero spec found path out = found_from zero found 0 path out
dir_from (suc left) (suc room) spec found path out =
    dir_from left room spec found (buf_set path out (spec out)) (out + 1)

-- PATH_MAX is 64.
pub build_delete_path : ℕ → Buffer → Buffer → Buffer → Buffer
unfolding dir_from
build_delete_path fuel spec found path = dir_from (last_part fuel spec 0 0) 63 spec found path 0

pub is_drive_spec : Buffer → Bool
is_drive_spec p =
    let a = p 0 in
    if not (p 1 == b':')
    then false
    else if not (p 2 == 0)
    then false
    else if ltb a b'A' || ltb b'Z' a
    then false
    else true

-- What `parse_uint` returns, and `parse_pos`.
pub record Number : Type 0 where
  pub value : ℕ
  pub pos : ℕ

pub uint_from : ℕ → Buffer → ℕ → ℕ → Number
uint_from zero s i n = record { value = n; pos = i }
uint_from (suc fuel) s i n =
    let c = s i in
    let rest = uint_from fuel s (i + 1) (w16 (n * 10 + (c - b'0'))) in
    if ltb c b'0' || ltb b'9' c then record { value = n; pos = i } else rest

pub parse_uint : ℕ → Buffer → ℕ → Number
unfolding uint_from
parse_uint fuel s parse_pos = uint_from fuel s parse_pos 0
