-- ===== src/Debug/Assemble.antt =====
-- The command A of debug.c, `cmd_a`.
pub mod Words
pub mod Trip
pub mod Back
mod Examples
use rmdos.Base.{
  ℕ, zero, suc, ◌+◌, ◌-◌, ◌*◌, ◌/◌, ◌%◌, Bool, true, false, not, ◌&&◌, ◌||◌, List, [], ◌∷◌, ◌++◌,
  Option, none, some, leb, ltb, ◌==◌, if◌then◌else◌, slt, sub16, w16, Buffer, buf_set, zeroed,
}
use rmdos.Strings.{lit}
use rmdos.Debug.{print_hex4, parse_hex, Scan, next_tok, streq_tok, Arena, mem_set}
use rmdos.Debug.Code.{err_text}

abbrev pub nop_name : List ℕ
nop_name = b'N' ∷ b'O' ∷ b'P' ∷ []

abbrev pub ret_name : List ℕ
ret_name = b'R' ∷ b'E' ∷ b'T' ∷ []

abbrev pub int3_name : List ℕ
int3_name = b'I' ∷ b'N' ∷ b'T' ∷ b'3' ∷ []

abbrev pub db_name : List ℕ
db_name = b'D' ∷ b'B' ∷ []

abbrev pub int_name : List ℕ
int_name = b'I' ∷ b'N' ∷ b'T' ∷ []

abbrev pub jmp_name : List ℕ
jmp_name = b'J' ∷ b'M' ∷ b'P' ∷ []

abbrev pub short_name : List ℕ
short_name = b'S' ∷ b'H' ∷ b'O' ∷ b'R' ∷ b'T' ∷ []

-- An instruction of one byte, and one of two.
pub put_one : ℕ → ℕ → Arena → Arena
put_one addr v st = record (mem_set addr v st) { default_addr = w16 (addr + 1) }

pub put_two : ℕ → ℕ → ℕ → Arena → Arena
put_two addr v v2 st = record (mem_set (addr + 1) v2 (mem_set addr v st)) {
  default_addr = w16 (addr + 2);
}

-- The branches for DB, INT and JMP SHORT, with what `parse_hex` made of the operand.
pub asm_db : ℕ → Option ℕ → Arena → List ℕ × Arena
asm_db addr none st = (err_text, st)
asm_db addr (some v) st = ([], put_one addr (v % 256) st)

pub asm_int : ℕ → Option ℕ → Arena → List ℕ × Arena
unfolding put_one put_two
asm_int addr none st = (err_text, st)
asm_int addr (some v) st =
    ([], if v == 3 then put_one addr 0xCC st else put_two addr 0xCD (v % 256) st)

pub asm_short : ℕ → Option ℕ → Arena → List ℕ × Arena
asm_short addr none st = (err_text, st)
asm_short addr (some v) st = ([], put_two addr 0xEB (sub16 v (w16 (addr + 2)) % 256) st)

-- `cmd_a` from the first token on.
pub asm_line : ℕ → ℕ → Buffer → Scan → Arena → List ℕ × Arena
asm_line fuel addr line t st =
    let t2 = next_tok fuel line t.next zeroed 16 in
    let t3 = next_tok fuel line t2.next t2.tok 16 in
    let is_word = λ (b : Buffer) (name : List ℕ). streq_tok fuel b (lit name) in
    if is_word t.tok nop_name
    then ([], put_one addr 0x90 st)
    else if is_word t.tok ret_name
    then ([], put_one addr 0xC3 st)
    else if is_word t.tok int3_name
    then ([], put_one addr 0xCC st)
    else if is_word t.tok db_name
    then asm_db addr (parse_hex fuel t2.tok) st
    else if is_word t.tok int_name
    then asm_int addr (parse_hex fuel t2.tok) st
    else if is_word t.tok jmp_name && is_word t2.tok short_name
    then asm_short addr (parse_hex fuel t3.tok) st
    else (err_text, st)

-- What `cmd_a` prints before it reads a line, the line, or `none` where there is no more input, and
-- what it does with it.
pub cmd_a : ℕ → ℕ → Option Buffer → Arena → List ℕ × Arena
cmd_a fuel addr none st = (print_hex4 addr ++ b':' ∷ b' ' ∷ [], st)
cmd_a fuel addr (some line) st =
    let t = next_tok fuel line 0 zeroed 16 in
    let r = asm_line fuel addr line t st in
    if t.tok 0 == 0
    then (print_hex4 addr ++ b':' ∷ b' ' ∷ [], st)
    else (print_hex4 addr ++ b':' ∷ b' ' ∷ r.0, r.1)
