-- ===== src/Command/Startup.antt =====
-- The command tail of COMMAND.COM itself: `parse_startup_tail` of command.c.
pub mod Paras
mod Examples
use rmdos.Base.{
  ℕ, zero, suc, ◌+◌, ◌-◌, ◌*◌, ◌≤◌, ◌<◌, Bool, true, false, not, ◌&&◌, ◌||◌, ◌≡◌, ◌⊎◌, inl, inr,
  refl, ap, ◌∙◌, arith, leb, ltb, ◌==◌, if◌then◌else◌, slt, sdiv, w16, Buffer, buf_set, Bool-cases,
}
use rmdos.Runtime.{toupper_ch}
use rmdos.Command.Env.{clamped_paras}
use rmdos.Command.Text.{blank}

-- What `parse_startup_tail` returns, and the variables it sets.
pub record Startup : Type 0 where
  pub has_command : Bool
  pub cmd : Buffer
  pub permanent_shell : Bool
  pub env_paras : ℕ

-- The tail has `n` bytes, and `tail i` is the byte at 0x81 + i of the PSP. Each loop ends at `n`,
-- so `left` = n - i. The loop over blanks, and the one over what is left of an option.
pub skip_blanks : ℕ → Buffer → ℕ → ℕ
skip_blanks zero tail i = i
skip_blanks (suc left) tail i =
    let rest = skip_blanks left tail (i + 1) in if blank (tail i) then rest else i

pub skip_option : ℕ → Buffer → ℕ → ℕ
skip_option zero tail i = i
skip_option (suc left) tail i =
    let rest = skip_option left tail (i + 1) in if blank (tail i) then i else rest

-- The loop that stores the command of /C, where `room` bytes still fit, and its NUL.
pub copy_command : ℕ → ℕ → Buffer → ℕ → Buffer → ℕ → Buffer
copy_command zero room tail i cmd o = buf_set cmd o 0
copy_command (suc left) zero tail i cmd o = buf_set cmd o 0
copy_command (suc left) (suc room) tail i cmd o =
    copy_command left room tail (i + 1) (buf_set cmd o (tail i)) (o + 1)

-- The loop over the digits of /E: the number, and where it ends.
pub size_from : ℕ → Buffer → ℕ → ℕ → ℕ × ℕ
size_from zero tail i v = (v, i)
size_from (suc left) tail i v =
    let c = tail i in
    let rest = size_from left tail (i + 1) (w16 (v * 10 + (c - b'0'))) in
    if ltb c b'0' || ltb b'9' c then (v, i) else rest

-- `env_paras` for `v`. The comparisons are signed, and 32768 is the word of -32768.
pub paras_of : ℕ → ℕ
paras_of v =
    let v1 = if slt v 160 then 160 else v in
    let v2 = if slt 32768 v1 then 32768 else v1 in sdiv (w16 (v2 + 15)) 16

-- The outer loop at `i`, with at most `fuel` options; more than `n` is enough. LINE_MAX is 80.
pub startup_from : ℕ → ℕ → Buffer → ℕ → Startup → Startup
startup_from zero n tail i st = st
startup_from (suc fuel) n tail i0 st =
    let i = skip_blanks (n - i0) tail i0 in
    let c = tail i in
    let d = toupper_ch (tail (i + 1)) in
    let i2 = i + 2 in
    let colon = if ltb i2 n && tail i2 == b':' then i2 + 1 else i2 in
    let number = size_from (n - colon) tail colon 0 in
    let after_p =
      startup_from fuel n tail (skip_option (n - i2) tail i2)
        (record st { permanent_shell = true }) in
    let after_e =
      startup_from fuel n tail (skip_option (n - number.1) tail number.1)
        (record st { env_paras = paras_of number.0 }) in
    let after = startup_from fuel n tail (skip_option (n - i2) tail i2) st in
    let body = skip_blanks (n - i2) tail i2 in
    if leb n i0 || leb n i
    then st
    else if not (c == 0x2F) && not (c == b'-')
    then st
    else if d == b'C'
    then record st { has_command = true; cmd = copy_command (n - body) 80 tail body st.cmd 0 }
    else if d == b'P'
    then after_p
    else if d == b'E'
    then after_e
    else after

pub parse_startup_tail : ℕ → ℕ → Buffer → Buffer → Startup
parse_startup_tail fuel n tail cmd =
    startup_from fuel n tail 0
      (record { has_command = false; cmd = cmd; permanent_shell = false; env_paras = 32 })
