-- ===== src/Command/Env.antt =====
-- The environment in command.c: `env_skip` to `env_put`, and `env_seg` and `env_set_seg` of
-- firmware/src/main/dos/inc/dos.c. Its strings "NAME=value" stand one behind the other in a block
-- of memory, each ended by a NUL, and a NUL ends the block.
pub mod Block
pub mod Lookup
pub mod Kept
pub mod Put
pub mod Names
pub mod Shown
mod Examples
use rmdos.Base.{
  ℕ, zero, suc, ◌+◌, ◌-◌, ◌*◌, ◌/◌, ◌%◌, Bool, true, false, not, ◌&&◌, List, [], ◌∷◌, ◌++◌, Option,
  none, some, slt, ◌==◌, if◌then◌else◌, Buffer, buf_set,
}
use rmdos.Runtime.{toupper_ch}

-- The memory, the segment of the program's PSP, and how many paragraphs an environment gets.
pub record Sys : Type 0 where
  pub mem : Buffer
  pub psp : ℕ
  pub env_paras : ℕ

-- Where a segment begins. Offsets stay below 2 ^ 16: a block has at most 2048 paragraphs.
abbrev pub base : ℕ → ℕ
base seg = seg * 16

pub env_seg : Sys → ℕ
env_seg s = s.mem (base s.psp + 44) + s.mem (base s.psp + 45) * 256

-- `far_poke` stores the low byte.
pub env_set_seg : ℕ → Sys → Sys
env_set_seg seg s = record s {
  mem = buf_set (buf_set s.mem (base s.psp + 44) seg) (base s.psp + 45) (seg / 256);
}

-- The loop of `env_skip` at `off`. Here and below `off` is an address, and each loop goes on for at
-- most `fuel` bytes or strings; more than the block has is enough.
pub env_skip : ℕ → Buffer → ℕ → ℕ
env_skip zero m off = off
env_skip (suc fuel) m off =
    let rest = env_skip fuel m (off + 1) in if m off == 0 then off + 1 else rest

-- The loop of `env_name_eq` at `i`. 61 is '='.
pub name_eq_from : ℕ → Buffer → ℕ → Buffer → ℕ → Bool
name_eq_from zero m off name i = false
name_eq_from (suc fuel) m off name i =
    let rest = name_eq_from fuel m off name (i + 1) in
    let c = m (off + i) in
    let d = name i in
    if d == 0 then c == 61 else if not (toupper_ch c == toupper_ch d) then false else rest

pub env_name_eq : ℕ → Buffer → ℕ → Buffer → Bool
unfolding name_eq_from
env_name_eq fuel m off name = name_eq_from fuel m off name 0

-- `str_len` from `i` on.
pub str_len : ℕ → Buffer → ℕ → ℕ
str_len zero s i = i
str_len (suc fuel) s i = let rest = str_len fuel s (i + 1) in if s i == 0 then i else rest

-- The inner loop of `env_copy_var` at `n`, and the NUL behind it.
pub copy_value : ℕ → Buffer → ℕ → Buffer → ℕ → Buffer
copy_value zero m off buf n = buf_set buf n 0
copy_value (suc room) m off buf n =
    let c = m off in
    let rest = copy_value room m (off + 1) (buf_set buf n c) (n + 1) in
    if c == 0 then buf_set buf n 0 else rest

-- What `env_copy_var` returns, and the buffer.
pub record Fetched : Type 0 where
  pub found : Bool
  pub buf : Buffer

-- The loop of `env_copy_var` over the strings, at `off`.
pub fetch_from : ℕ → Buffer → ℕ → Buffer → ℕ → Buffer → Fetched
fetch_from zero m off name maxlen buf = record { found = false; buf = buf }
fetch_from (suc fuel) m off name maxlen buf =
    let rest = fetch_from fuel m (env_skip fuel m off) name maxlen buf in
    if m off == 0
    then record { found = false; buf = buf }
    else if env_name_eq fuel m off name
    then record {
      found = true;
      buf = copy_value (maxlen - 1) m (off + str_len fuel name 0 + 1) buf 0;
    }
    else rest

pub env_copy_var : ℕ → Sys → Buffer → ℕ → Buffer → Fetched
unfolding fetch_from
env_copy_var fuel s name maxlen buf =
    let seg = env_seg s in
    if seg == 0
    then record { found = false; buf = buf }
    else fetch_from fuel s.mem (base seg) name maxlen buf

-- The bytes of a string, up to its NUL.
pub bytes_from : ℕ → Buffer → ℕ → List ℕ
bytes_from zero m off = []
bytes_from (suc fuel) m off =
    let rest = bytes_from fuel m (off + 1) in if m off == 0 then [] else m off ∷ rest

-- The loop of `print_env_value` over the strings: whether the name is there, and what is printed.
pub print_from : ℕ → Buffer → ℕ → Buffer → Bool × List ℕ
print_from zero m off name = (false, [])
print_from (suc fuel) m off name =
    let rest = print_from fuel m (env_skip fuel m off) name in
    if m off == 0
    then (false, [])
    else if env_name_eq fuel m off name
    then (true, bytes_from fuel m (off + str_len fuel name 0 + 1))
    else rest

pub print_env_value : ℕ → Sys → Buffer → Bool × List ℕ
unfolding print_from
print_env_value fuel s name =
    let seg = env_seg s in if seg == 0 then (false, []) else print_from fuel s.mem (base seg) name

-- `env_dump`, its loop over the strings. A string is followed by CR and LF.
pub dump_from : ℕ → Buffer → ℕ → List ℕ
dump_from zero m off = []
dump_from (suc fuel) m off =
    let rest = dump_from fuel m (env_skip fuel m off) in
    if m off == 0 then [] else bytes_from fuel m off ++ (13 ∷ 10 ∷ rest)

pub env_dump : ℕ → Sys → List ℕ
unfolding dump_from
env_dump fuel s = let seg = env_seg s in if seg == 0 then [] else dump_from fuel s.mem (base seg)

-- Where the loops of `env_put` stand in the old block and in the new one.
pub record Place : Type 0 where
  pub mem : Buffer
  pub oi : ℕ
  pub ni : ℕ

-- The loop of `env_put` that copies a string with its NUL from `oi` to `ni`.
pub copy_string : ℕ → Buffer → ℕ → ℕ → Place
copy_string zero m oi ni = record { mem = m; oi = oi; ni = ni }
copy_string (suc fuel) m oi ni =
    let c = m oi in
    let m' = buf_set m ni c in
    let rest = copy_string fuel m' (oi + 1) (ni + 1) in
    if c == 0 then record { mem = m'; oi = oi + 1; ni = ni + 1 } else rest

-- The loops that write the name and the value, without their NUL, at `c` of the text.
pub write_text : ℕ → Buffer → ℕ → Buffer → ℕ → Buffer
write_text zero text c m ni = m
write_text (suc fuel) text c m ni =
    let rest = write_text fuel text (c + 1) (buf_set m ni (text c)) (ni + 1) in
    if text c == 0 then m else rest

-- `NAME=value` with its NUL.
pub write_string : ℕ → Buffer → Buffer → Buffer → ℕ → Buffer
unfolding write_text str_len
write_string fuel name value m ni =
    let eq = ni + str_len fuel name 0 in
    let m1 = buf_set (write_text fuel name 0 m ni) eq 61 in
    buf_set (write_text fuel value 0 m1 (eq + 1)) (eq + 1 + str_len fuel value 0) 0

-- What follows the strings that are kept, at `oi` of the old block and `ni` of the new one. The
-- value is `none` where the source has the null pointer.
pub put_end : ℕ → Buffer → Option Buffer → Buffer → ℕ → ℕ → Buffer
put_end fuel name none m oi ni = (copy_string fuel (buf_set m ni 0) (oi + 1) (ni + 1)).mem
put_end fuel name (some value) m oi ni =
    if value 0 == 0
    then (copy_string fuel (buf_set m ni 0) (oi + 1) (ni + 1)).mem
    else (let ni' = ni + str_len fuel name 0 + 1 + str_len fuel value 0 + 1 in
        (copy_string fuel (buf_set (write_string fuel name value m ni) ni' 0) (oi + 1)
          (ni' + 1)).mem)

-- The loop of `env_put` over the strings, and what follows it.
pub put_from : ℕ → Buffer → Option Buffer → Buffer → ℕ → ℕ → Buffer
unfolding put_end
put_from zero name value m oi ni = m
put_from (suc fuel) name value m oi ni =
    let skipped = put_from fuel name value m (env_skip fuel m oi) ni in
    let p = copy_string fuel m oi ni in
    let kept = put_from fuel name value p.mem p.oi p.ni in
    if m oi == 0
    then put_end fuel name value m oi ni
    else if env_name_eq fuel m oi name
    then skipped
    else kept

abbrev pub clamped_paras : ℕ → ℕ
clamped_paras n = if slt n 16 then 16 else if slt 2048 n then 2048 else n

-- `dos_alloc` gives a segment, or 0. That `dos_free` gives the old block back is left out: nothing
-- here allocates again.
pub env_put : (ℕ → ℕ) → ℕ → Buffer → Option Buffer → Sys → Sys
unfolding put_from
env_put dos_alloc fuel name value s =
    let old = env_seg s in
    let paras = clamped_paras s.env_paras in
    let neu = dos_alloc paras in
    if old == 0
    then s
    else if neu == 0
    then record s { env_paras = paras }
    else env_set_seg neu
        (record s { mem = put_from fuel name value s.mem (base old) (base neu); env_paras = paras })
