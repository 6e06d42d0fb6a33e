-- ===== src/Debug/Assemble/Back.antt =====
-- What U shows of a line that A has assembled.
use Prim.{Unit}
use rmdos.Base.{
  ℕ, ◌+◌, ◌-◌, ◌%◌, ◌≤◌, ◌<◌, true, false, List, ◌∷◌, ◌++◌, some, ◌≡◌, ◌⊎◌, inl, inr, refl, sym, ap,
  arith, leb, ◌==◌, if◌then◌else◌, sub16, w16, Buffer, Bool-cases,
}
use rmdos.Strings.{At}
use rmdos.Debug.{print_hex4, print_hex2, Arena, mem_get, mem_set}
use rmdos.Debug.Code.{Disasm, disasm_one, disasm_op, msg_crlf, space, int_word, short_word, signed}
use rmdos.Debug.Assemble.{put_one, put_two, cmd_a}
use rmdos.Debug.Assemble.Trip.{
  Instr, nop, ret, int3, interrupt, jump_short, typed, stored, IsInstr, cmd_a-stored,
}

-- The target of a short jump is at most 128 bytes back or 127 bytes ahead of its end.
abbrev pub IsNear : Instr → ℕ → Type 0
IsNear nop addr = Unit
IsNear ret addr = Unit
IsNear int3 addr = Unit
IsNear (interrupt v) addr = Unit
IsNear (jump_short v) addr = (sub16 v (w16 (addr + 2)) < 128) ⊎ (65408 ≤ sub16 v (w16 (addr + 2)))

abbrev pub opcode : Instr → ℕ
opcode nop = 0x90
opcode ret = 0xC3
opcode int3 = 0xCC
opcode (interrupt v) = if v == 3 then 0xCC else 0xCD
opcode (jump_short v) = 0xEB

abbrev pub mnemonic : Instr → ℕ → List ℕ
mnemonic nop addr = b'N' ∷ b'O' ∷ b'P' ∷ msg_crlf
mnemonic ret addr = b'R' ∷ b'E' ∷ b'T' ∷ msg_crlf
mnemonic int3 addr = b'I' ∷ b'N' ∷ b'T' ∷ b'3' ∷ msg_crlf
mnemonic (interrupt v) addr =
    if v == 3
    then b'I' ∷ b'N' ∷ b'T' ∷ b'3' ∷ msg_crlf
    else print_hex2 (v % 256) ++ int_word ++ print_hex2 (v % 256) ++ msg_crlf
mnemonic (jump_short v) addr =
    print_hex2 (sub16 v (w16 (addr + 2)) % 256) ++ short_word ++ print_hex4 v ++ msg_crlf

abbrev pub step_of : Instr → ℕ
step_of nop = 1
step_of ret = 1
step_of int3 = 1
step_of (interrupt v) = if v == 3 then 1 else 2
step_of (jump_short v) = 2

-- The address, the opcode and the instruction are shown, and the next address is behind it.
pub record Back (i : Instr) (addr : ℕ) (st : Arena) (d : Disasm) : Type 0 where
  pub text : d.text ≡ print_hex4 addr ++ space ++ print_hex2 (opcode i) ++ space ++ mnemonic i addr
  pub step : d.step ≡ step_of i
  pub next : st.default_addr ≡ w16 (addr + d.step)

one_there : (addr v : ℕ) (st : Arena) → v < 256 → mem_get addr (put_one addr v st) ≡ v
unfolding mem_get put_one mem_set
one_there addr v st h = ground arith

two_there : (addr v v2 : ℕ) (st : Arena) → v < 256 → mem_get addr (put_two addr v v2 st) ≡ v
unfolding mem_get put_two mem_set
two_there addr v v2 st h = ground arith

two_behind :
    (addr v v2 : ℕ) (st : Arena) → v2 < 256 → mem_get (addr + 1) (put_two addr v v2 st) ≡ v2
unfolding mem_get put_two mem_set
two_behind addr v v2 st h = ground arith

one_next : (addr v : ℕ) (st : Arena) → (put_one addr v st).default_addr ≡ w16 (addr + 1)
unfolding put_one
one_next addr v st = refl

two_next : (addr v v2 : ℕ) (st : Arena) → (put_two addr v v2 st).default_addr ≡ w16 (addr + 2)
unfolding put_two
two_next addr v v2 st = refl

jump_back :
    (addr v : ℕ)
    → v < 65536
    → (sub16 v (w16 (addr + 2)) < 128) ⊎ (65408 ≤ sub16 v (w16 (addr + 2)))
    → w16 (addr + 2 + signed (sub16 v (w16 (addr + 2)) % 256)) ≡ v
jump_back addr v h (inl x) =
    let low : sub16 v (w16 (addr + 2)) % 256 ≡ sub16 v (w16 (addr + 2)) = omega arith in
    let plus : leb 128 (sub16 v (w16 (addr + 2))) ≡ false = ground arith in
    rw (low, plus) (omega arith)
jump_back addr v h (inr x) =
    let low : sub16 v (w16 (addr + 2)) % 256 ≡ sub16 v (w16 (addr + 2)) - 65280 = omega arith in
    let minus : leb 128 (sub16 v (w16 (addr + 2)) - 65280) ≡ true = ground arith in
    rw (low, minus) (omega arith)

module _ (addr : ℕ) (st : Arena) (word : addr < 65536) where
  same_addr : w16 addr ≡ addr
  same_addr = omega arith

  one_lem :
      (v : ℕ)
      → v < 256
      → (i : Instr) → opcode i ≡ v
      → step_of i ≡ 1
      → ((s : Arena) → (disasm_op v addr s).text ≡ mnemonic i addr)
      → ((s : Arena) → (disasm_op v addr s).step ≡ 1)
      → Back i addr (put_one addr v st) (disasm_one addr (put_one addr v st))
  unfolding disasm_one
  one_lem v h i o k t s =
      let there = one_there addr v st h in
      record {
        text =
            rw (there, same_addr, o)
              (ap (λ x. print_hex4 addr ++ space ++ print_hex2 v ++ space ++ x)
                (t (put_one addr v st)));
        step = rw (there, k) (s (put_one addr v st));
        next = rw (there, s (put_one addr v st)) (one_next addr v st);
      }

  two_lem :
      (v v2 : ℕ)
      → v < 256
      → (i : Instr) → opcode i ≡ v
      → step_of i ≡ 2
      → (disasm_op v addr (put_two addr v v2 st)).text ≡ mnemonic i addr
      → (disasm_op v addr (put_two addr v v2 st)).step ≡ 2
      → Back i addr (put_two addr v v2 st) (disasm_one addr (put_two addr v v2 st))
  unfolding disasm_one
  two_lem v v2 h i o k t s =
      let there = two_there addr v v2 st h in
      record {
        text =
            rw (there, same_addr, o)
              (ap (λ x. print_hex4 addr ++ space ++ print_hex2 v ++ space ++ x) t);
        step = rw (there, k) s;
        next = rw (there, s) (two_next addr v v2 st);
      }

  stored-Back :
      (i : Instr)
      → IsInstr i
      → IsNear i addr
      → Back i addr (stored i addr st) (disasm_one addr (stored i addr st))
  unfolding disasm_op
  stored-Back nop h n = one_lem 0x90 (omega arith) nop refl refl (λ s. refl) (λ s. refl)
  stored-Back ret h n = one_lem 0xC3 (omega arith) ret refl refl (λ s. refl) (λ s. refl)
  stored-Back int3 h n = one_lem 0xCC (omega arith) int3 refl refl (λ s. refl) (λ s. refl)
  stored-Back (interrupt v) h n = elim (Bool-cases (v == 3)) [
    | inl e ↦ rw e (
        one_lem 0xCC (omega arith) (interrupt v) (rw e refl) (rw e refl) (λ s. rw e refl)
          (λ s. refl))
    | inr e ↦
        let b = two_behind addr 0xCD (v % 256) st (omega arith) in
        rw e (
          two_lem 0xCD (v % 256) (omega arith) (interrupt v) (rw e refl) (rw e refl)
            (rw (e, b) refl) refl)
  ]
  stored-Back (jump_short v) h n =
      let v2 = sub16 v (w16 (addr + 2)) % 256 in
      let b = two_behind addr 0xEB v2 st (omega arith) in
      two_lem 0xEB v2 (omega arith) (jump_short v) refl refl
        (rw b (
          ap (λ x. print_hex2 v2 ++ short_word ++ print_hex4 x ++ msg_crlf) (jump_back addr v h n)))
        refl

  -- A line with NOP, RET, INT3, INT and a number or JMP SHORT and an address, which A assembles at
  -- `addr`, is what U shows there, with the same operand, and A goes on behind it. The line is in
  -- capitals, with one blank between its words, the operand is a word in four digits, of which INT
  -- takes the low byte, and INT 3 is INT3, and the target of JMP SHORT is in its reach. The fuel is
  -- above 16 and the address a word.
  pub disasm_one-cmd_a :
      (i : Instr) (fuel : ℕ) (line : Buffer)
      → 16 < fuel
      → IsInstr i
      → IsNear i addr
      → At (typed i) line 0
      → Back i addr
          (cmd_a fuel addr (some line) st).1
          (disasm_one addr (cmd_a fuel addr (some line) st).1)
  disasm_one-cmd_a i fuel line f h n a =
      coe 0 1
        (j.
          Back i addr (sym (cmd_a-stored fuel addr line st f i h a) j)
            (disasm_one addr (sym (cmd_a-stored fuel addr line st f i h a) j)))
        (stored-Back i h n)
