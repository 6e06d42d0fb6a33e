-- ===== src/Debug/Code.antt =====
-- The commands U and A of debug.c, which disassemble and assemble, and D and E, which show and
-- change bytes.
pub mod Length
use rmdos.Base.{
  ℕ, zero, suc, ◌+◌, ◌-◌, ◌*◌, ◌/◌, ◌%◌, Bool, true, false, not, ◌&&◌, ◌||◌, List, [], ◌∷◌, ◌++◌,
  Option, none, some, leb, ltb, ◌==◌, if◌then◌else◌, slt, sub16, w16, Buffer, buf_set, zeroed,
}
use rmdos.Debug.{
  print_hex2, print_hex4, parse_hex, Scan, next_tok, streq_tok, Arena, mem_get, mem_set,
}

abbrev pub msg_crlf : List ℕ
msg_crlf = 13 ∷ 10 ∷ []

abbrev pub err_text : List ℕ
err_text = b'E' ∷ b'R' ∷ b'R' ∷ b'O' ∷ b'R' ∷ msg_crlf

abbrev pub space : List ℕ
space = b' ' ∷ []

-- What `disasm_one` prints, and the step it returns.
pub record Disasm : Type 0 where
  pub text : List ℕ
  pub step : ℕ

abbrev jmp_word : List ℕ
jmp_word = b' ' ∷ b'J' ∷ b'M' ∷ b'P' ∷ b' ' ∷ []

abbrev pub short_word : List ℕ
short_word = b' ' ∷ b'J' ∷ b'M' ∷ b'P' ∷ b' ' ∷ b'S' ∷ b'H' ∷ b'O' ∷ b'R' ∷ b'T' ∷ b' ' ∷ []

abbrev call_word : List ℕ
call_word = b' ' ∷ b'C' ∷ b'A' ∷ b'L' ∷ b'L' ∷ b' ' ∷ []

abbrev mov8_word : List ℕ
mov8_word = b' ' ∷ b'M' ∷ b'O' ∷ b'V' ∷ b' ' ∷ b'r' ∷ b'8' ∷ b',' ∷ b'i' ∷ b'm' ∷ b'm' ∷ msg_crlf

abbrev mov16_word : List ℕ
mov16_word =
    b' ' ∷ b'M' ∷ b'O' ∷ b'V' ∷ b' ' ∷ b'r' ∷ b'1' ∷ b'6' ∷ b',' ∷ b'i' ∷ b'm' ∷ b'm' ∷ msg_crlf

abbrev pub int_word : List ℕ
int_word = b' ' ∷ b'I' ∷ b'N' ∷ b'T' ∷ b' ' ∷ []

-- The byte behind a short jump, with its sign.
abbrev pub signed : ℕ → ℕ
signed off = if leb 128 off then sub16 off 256 else off

-- The part of `disasm_one` behind the address and the opcode.
unfoldable pub disasm_op : ℕ → ℕ → Arena → Disasm
disasm_op op addr st =
    let b1 = mem_get (addr + 1) st in
    let b2 = mem_get (addr + 2) st in
    if op == 0x90
    then record { text = b'N' ∷ b'O' ∷ b'P' ∷ msg_crlf; step = 1 }
    else if op == 0xC3
    then record { text = b'R' ∷ b'E' ∷ b'T' ∷ msg_crlf; step = 1 }
    else if op == 0xCC
    then record { text = b'I' ∷ b'N' ∷ b'T' ∷ b'3' ∷ msg_crlf; step = 1 }
    else if op == 0xCD
    then record { text = print_hex2 b1 ++ int_word ++ print_hex2 b1 ++ msg_crlf; step = 2 }
    else if op == 0xEB
    then record {
      text = print_hex2 b1 ++ short_word ++ print_hex4 (w16 (addr + 2 + signed b1)) ++ msg_crlf;
      step = 2;
    }
    else if op == 0xE8 || op == 0xE9
    then record {
      text =
          print_hex2 b1
          ++ space
          ++ print_hex2 b2
          ++ (if op == 0xE8 then call_word else jmp_word)
          ++ print_hex4 (w16 (addr + 3 + (b1 + b2 * 256)))
          ++ msg_crlf;
      step = 3;
    }
    else if leb 0xB0 op && leb op 0xB7
    then record { text = print_hex2 b1 ++ mov8_word; step = 2 }
    else if leb 0xB8 op && leb op 0xBF
    then record { text = print_hex2 b1 ++ space ++ print_hex2 b2 ++ mov16_word; step = 3 }
    else record { text = b'D' ∷ b'B' ∷ b' ' ∷ (print_hex2 op ++ msg_crlf); step = 1 }

unfoldable pub disasm_one : ℕ → Arena → Disasm
disasm_one addr st =
    let op = mem_get addr st in
    let r = disasm_op op addr st in
    record {
      text = print_hex4 (w16 addr) ++ space ++ print_hex2 op ++ space ++ r.text;
      step = r.step;
    }

-- The loop of `cmd_u` with `left` instructions to go: what is printed, and where it ends.
pub record Listing : Type 0 where
  pub text : List ℕ
  pub addr : ℕ

pub disasm_from : ℕ → ℕ → Arena → Listing
disasm_from zero addr st = record { text = []; addr = addr }
disasm_from (suc left) addr st =
    let d = disasm_one addr st in
    let r = disasm_from left (w16 (addr + d.step)) st in
    record { text = d.text ++ r.text; addr = r.addr }

pub cmd_u : ℕ → ℕ → Arena → List ℕ × Arena
cmd_u addr count st =
    let n = if slt count 1 then 8 else count in
    let r = disasm_from n addr st in (r.text, record st { default_addr = r.addr })

pub insn_len : ℕ → Arena → ℕ
insn_len addr st =
    let op = mem_get addr st in
    if op == 0xCD || op == 0xEB
    then 2
    else if op == 0xE8 || op == 0xE9
    then 3
    else if leb 0xB0 op && leb op 0xB7
    then 2
    else if leb 0xB8 op && leb op 0xBF
    then 3
    else 1

-- The loop of `cmd_dump` at `i` with `left` bytes to go.
pub dump_bytes : ℕ → ℕ → ℕ → Arena → List ℕ
dump_bytes zero i addr st = []
dump_bytes (suc left) i addr st =
    (if i % 16 == 0
      then (if i == 0 then [] else msg_crlf) ++ print_hex4 (w16 (addr + i)) ++ space
      else [])
    ++ print_hex2 (mem_get (addr + i) st)
    ++ space
    ++ dump_bytes left (i + 1) addr st

pub cmd_dump : ℕ → ℕ → Arena → List ℕ × Arena
cmd_dump addr len st =
    let n = if slt len 1 then 128 else len in
    (
      dump_bytes n 0 addr st ++ msg_crlf,
      record st { default_addr = w16 (addr + n); did_dump = true },
    )

-- `load_len` once a byte stands in front of `addr`.
abbrev pub load_grown : ℕ → Arena → Arena
load_grown addr st =
    if slt st.load_len (sub16 addr 0x100) then record st { load_len = sub16 addr 0x100 } else st

-- The loop of `cmd_enter` at `i`. A local array begins as `zeroed`: what stands behind a token's
-- NUL is never read.
pub enter_from : ℕ → ℕ → Buffer → ℕ → Arena → List ℕ × Arena
enter_from zero addr rest i st = ([], st)
enter_from (suc fuel) addr rest i st =
    let t = next_tok fuel rest i zeroed 8 in
    if t.tok 0 == 0 then ([], record st { default_addr = addr }) else elim (parse_hex fuel t.tok) [
      | none ↦ (err_text, st)
      | some v ↦
          let next = w16 (addr + 1) in
          enter_from fuel next rest t.next (load_grown next (mem_set addr (v % 256) st))
    ]

pub cmd_enter : ℕ → ℕ → Buffer → Arena → List ℕ × Arena
cmd_enter fuel addr rest st = enter_from fuel addr rest 0 st
