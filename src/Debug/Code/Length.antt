-- ===== src/Debug/Code/Length.antt =====
-- The length of an instruction: `insn_len`, which P uses, and the step of `disasm_one`.
use rmdos.Base.{ℕ, zero, suc, ◌+◌, ◌≡◌, refl, arith, if◌then◌else◌, slt, w16}
use rmdos.Debug.{Arena}
use rmdos.Debug.Code.{disasm_op, disasm_one, disasm_from, cmd_u, insn_len}

-- For every byte, `disasm_one` steps over the bytes that `insn_len` counts.
pub disasm_one-insn_len : (addr : ℕ) (st : Arena) → (disasm_one addr st).step ≡ insn_len addr st
unfolding disasm_one disasm_op insn_len
disasm_one-insn_len addr st = ground arith

-- Where `n` instructions end.
abbrev pub after : ℕ → ℕ → Arena → ℕ
after zero addr st = addr
after (suc n) addr st = after n (w16 (addr + insn_len addr st)) st

disasm_from-after : (n addr : ℕ) (st : Arena) → (disasm_from n addr st).addr ≡ after n addr st
unfolding disasm_from
disasm_from-after zero addr st = refl
disasm_from-after (suc n) addr st =
    rw (disasm_one-insn_len addr st) (disasm_from-after n (w16 (addr + insn_len addr st)) st)

-- U goes on, the next time, behind `count` instructions of the lengths that `insn_len` gives, and
-- behind 8 for a count below 1.
pub cmd_u-after :
    (addr count : ℕ) (st : Arena)
    → (cmd_u addr count st).1.default_addr ≡ after (if slt count 1 then 8 else count) addr st
unfolding cmd_u
cmd_u-after addr count st = disasm_from-after (if slt count 1 then 8 else count) addr st
