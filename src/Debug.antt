-- ===== src/Debug.antt =====
-- DEBUG.COM, firmware/src/main/dos/debug.c: numbers in base 16, the tokens of a line, and the
-- arena, the segment in which the program under test stands. Each loop goes on for at most `fuel`
-- steps; more than the line has bytes is enough.
pub mod Code
pub mod Assemble
pub mod Files
pub mod Hex
use rmdos.Base.{
  ℕ, zero, suc, ◌+◌, ◌-◌, ◌*◌, ◌/◌, ◌%◌, Bool, true, false, not, ◌&&◌, ◌||◌, List, [], ◌∷◌, ◌++◌,
  Option, none, some, leb, ltb, ◌==◌, if◌then◌else◌, slt, w16, minus_one, Buffer, buf_set,
}
use rmdos.Runtime.{toupper_ch}

-- -1 is the word `minus_one`.
pub hex_val : ℕ → ℕ
hex_val c0 =
    let c = toupper_ch c0 in
    if leb b'0' c && leb c b'9'
    then c - b'0'
    else if leb b'A' c && leb c b'F'
    then c - b'A' + 10
    else minus_one

-- `hexdig`.
abbrev pub hexdig : ℕ → ℕ
hexdig d = if ltb d 10 then d + b'0' else d - 10 + b'A'

-- What `print_hex2` and `print_hex4` print of a word. `(v >> 4) & 15` and `(v >> 8) & 255` are the
-- bits 4 to 7 and 8 to 15, `v & 15` and `v & 255` the remainders.
pub print_hex2 : ℕ → List ℕ
print_hex2 v = hexdig (v / 16 % 16) ∷ hexdig (v % 16) ∷ []

pub print_hex4 : ℕ → List ℕ
unfolding print_hex2
print_hex4 v = print_hex2 (v / 256 % 256) ++ print_hex2 (v % 256)

abbrev pub is_space : ℕ → Bool
is_space c = c == b' ' || c == 9

-- The loop of `parse_hex` at `i`.
pub parse_hex_from : ℕ → Buffer → ℕ → ℕ → Option ℕ
parse_hex_from zero s i v = none
parse_hex_from (suc fuel) s i v =
    let c = s i in
    let d = hex_val c in
    let rest = parse_hex_from fuel s (i + 1) (w16 (v * 16 + d)) in
    if c == 0 || is_space c then some v else if slt d 0 then none else rest

-- What `parse_hex` leaves in `parse_hex_val`, or `none` where it returns 0.
pub parse_hex : ℕ → Buffer → Option ℕ
unfolding parse_hex_from
parse_hex fuel s = if s 0 == 0 then none else parse_hex_from fuel s 0 0

pub skip_tok : ℕ → Buffer → ℕ → ℕ
skip_tok zero s i = i
skip_tok (suc fuel) s i = let rest = skip_tok fuel s (i + 1) in if is_space (s i) then rest else i

-- What `next_tok` returns, and its buffer.
pub record Scan : Type 0 where
  pub next : ℕ
  pub tok : Buffer

-- The loop of `next_tok`, where `room` bytes still fit.
pub scan_from : ℕ → Buffer → ℕ → Buffer → ℕ → ℕ → Scan
scan_from zero s i out n room = record { next = i; tok = buf_set out n 0 }
scan_from (suc fuel) s i out n room =
    let c = s i in
    let kept = scan_from fuel s (i + 1) (buf_set out n c) (n + 1) (room - 1) in
    let skipped = scan_from fuel s (i + 1) out n room in
    if c == 0 || is_space c
    then record { next = i; tok = buf_set out n 0 }
    else if ltb 0 room
    then kept
    else skipped

pub next_tok : ℕ → Buffer → ℕ → Buffer → ℕ → Scan
unfolding skip_tok scan_from
next_tok fuel s i out max = scan_from fuel s (skip_tok fuel s i) out 0 (max - 1)

-- The loop of `streq_tok` at `i`.
pub streq_from : ℕ → Buffer → Buffer → ℕ → Bool
streq_from zero a b i = false
streq_from (suc fuel) a b i =
    let ca = toupper_ch (a i) in
    let cb = toupper_ch (b i) in
    let rest = streq_from fuel a b (i + 1) in
    if not (ca == cb) then false else if ca == 0 then true else rest

pub streq_tok : ℕ → Buffer → Buffer → Bool
unfolding streq_from
streq_tok fuel a b = streq_from fuel a b 0

-- The bytes of the arena and the variables that the commands share. Addresses are words.
pub record Arena : Type 0 where
  pub mem : Buffer
  pub default_addr : ℕ
  pub load_len : ℕ
  pub did_dump : Bool

pub mem_get : ℕ → Arena → ℕ
mem_get addr st = st.mem (w16 addr)

pub mem_set : ℕ → ℕ → Arena → Arena
mem_set addr v st = record st { mem = buf_set st.mem (w16 addr) v }
