-- ===== src/Debug/Assemble/Trip.antt =====
-- A line that A assembles, U shows again.
use Prim.{Unit, tt}
use rmdos.Base.{
  ℕ, suc, ◌+◌, ◌/◌, ◌%◌, ◌<◌, false, ◌||◌, List, [], ◌∷◌, ◌++◌, some, ◌≡◌, ◌≢◌, refl, ◌∙◌, arith,
  ◌==◌, if◌then◌else◌, sub16, w16, Buffer, length, zeroed,
}
use rmdos.Strings.{At, lit, Bytes, lit-At, same_name}
use rmdos.Runtime.{toupper_ch}
use rmdos.Debug.{is_space, hexdig, next_tok, streq_tok, parse_hex, Arena}
use rmdos.Debug.Hex.{
  hexdig_plain, Digits16, hex_text, digits4, print_hex4-digits4, parse_hex-print_hex4,
}
use rmdos.Debug.Assemble.{
  nop_name, ret_name, int3_name, db_name, int_name, jmp_name, short_name, put_one, put_two, asm_int,
  asm_short, asm_line, cmd_a,
}
use rmdos.Debug.Assemble.Words.{WordAt, Taken, next_tok-Taken, next_tok_blank, streq_tok-same_name}

-- A word has no blank.
abbrev Plain : List ℕ → Type 0
Plain [] = Unit
Plain (c ∷ cs) = ((c == 0 || is_space c) ≡ false) × Plain cs

last_word : (w : List ℕ) (s : Buffer) (i : ℕ) → Plain w → At w s i → WordAt w s i
last_word [] s i p a = rw a refl
last_word (c ∷ cs) s i (q, p) (e, l, z, a) = (e, l, q, last_word cs s (i + 1) p a)

-- A word, the blank behind it, and what follows.
first_word :
    (w rest : List ℕ) (s : Buffer) (i : ℕ)
    → Plain w
    → At (w ++ b' ' ∷ rest) s i
    → WordAt w s i × (s (i + length w) ≡ b' ') × At rest s (i + length w + 1)
first_word [] rest s i p (e, l, z, a) =
    let here : i + 0 ≡ i = omega arith in rw (here, e) (refl, refl, a)
first_word (c ∷ cs) rest s i (q, p) (e, l, z, a) =
    let there : i + suc (length cs) ≡ i + 1 + length cs = omega arith in
    let r = first_word cs rest s (i + 1) p a in rw there ((e, l, q, r.0), r.1, r.2)

digits-Plain : (ds : List ℕ) → Digits16 ds → Plain (hex_text ds)
digits-Plain [] h = tt
digits-Plain (d ∷ ds) (h, hs) = (hexdig_plain d h, digits-Plain ds hs)

operand-Plain : (v : ℕ) → Plain (hex_text (digits4 v))
operand-Plain v =
    digits-Plain (digits4 v) (omega arith, (omega arith, (omega arith, (omega arith, tt))))

-- The first word of a line decides.
module _ (fuel addr : ℕ) (line : Buffer) (st : Arena) (c : ℕ) (w : List ℕ)
    (t : Taken (c ∷ w) 0 0 (next_tok fuel line 0 zeroed 16)) (enough : length (c ∷ w) < fuel) where
  begun :
      (cmd_a fuel addr (some line) st).1
      ≡ (asm_line fuel addr line (next_tok fuel line 0 zeroed 16) st).1
  unfolding cmd_a
  begun =
      let some_word : ((next_tok fuel line 0 zeroed 16).tok 0 == 0) ≡ false =
        nonzero ((next_tok fuel line 0 zeroed 16).tok 0) c t.text.0 t.text.2 in
      rw some_word refl
    where
      nonzero : (x c : ℕ) → x ≡ c → c ≢ 0 → (x == 0) ≡ false
      nonzero x c e h = ground arith

  is_word :
      (name : List ℕ)
      → Bytes name
      → streq_tok fuel (next_tok fuel line 0 zeroed 16).tok (lit name) ≡ same_name (c ∷ w) name
  is_word name b =
      streq_tok-same_name (c ∷ w) name fuel (next_tok fuel line 0 zeroed 16).tok (lit name) t.text
        (lit-At name b) enough

-- The instructions that A assembles, but for DB.
pub data Instr : Type 0 where
  nop : Instr
  ret : Instr
  int3 : Instr
  interrupt : ℕ → Instr
  jump_short : ℕ → Instr

-- How it is typed.
abbrev pub typed : Instr → List ℕ
typed nop = nop_name
typed ret = ret_name
typed int3 = int3_name
typed (interrupt v) = int_name ++ b' ' ∷ hex_text (digits4 v)
typed (jump_short v) = jmp_name ++ b' ' ∷ (short_name ++ b' ' ∷ hex_text (digits4 v))

-- What A leaves in the arena.
abbrev pub stored : Instr → ℕ → Arena → Arena
stored nop addr st = put_one addr 0x90 st
stored ret addr st = put_one addr 0xC3 st
stored int3 addr st = put_one addr 0xCC st
stored (interrupt v) addr st =
    if v == 3 then put_one addr 0xCC st else put_two addr 0xCD (v % 256) st
stored (jump_short v) addr st = put_two addr 0xEB (sub16 v (w16 (addr + 2)) % 256) st

-- An operand is a word.
abbrev pub IsInstr : Instr → Type 0
IsInstr nop = Unit
IsInstr ret = Unit
IsInstr int3 = Unit
IsInstr (interrupt v) = v < 65536
IsInstr (jump_short v) = v < 65536

nop-Bytes : Bytes nop_name
nop-Bytes = (omega arith, omega arith, (omega arith, omega arith, (omega arith, omega arith, tt)))

ret-Bytes : Bytes ret_name
ret-Bytes = (omega arith, omega arith, (omega arith, omega arith, (omega arith, omega arith, tt)))

int-Bytes : Bytes int_name
int-Bytes = (omega arith, omega arith, (omega arith, omega arith, (omega arith, omega arith, tt)))

jmp-Bytes : Bytes jmp_name
jmp-Bytes = (omega arith, omega arith, (omega arith, omega arith, (omega arith, omega arith, tt)))

db-Bytes : Bytes db_name
db-Bytes = (omega arith, omega arith, (omega arith, omega arith, tt))

int3-Bytes : Bytes int3_name
int3-Bytes = (
  omega arith,
  omega arith,
  (omega arith, omega arith, (omega arith, omega arith, (omega arith, omega arith, tt))),
)

short-Bytes : Bytes short_name
short-Bytes = (
  omega arith,
  omega arith,
  (
    omega arith,
    omega arith,
    (omega arith, omega arith, (omega arith, omega arith, (omega arith, omega arith, tt))),
  ),
)

module _ (fuel addr : ℕ) (line : Buffer) (st : Arena) (enough : 16 < fuel) where
  abbrev result : Arena
  result = (cmd_a fuel addr (some line) st).1

  nop_lem : At nop_name line 0 → result ≡ stored nop addr st
  unfolding asm_line toupper_ch
  nop_lem a =
      let t =
        next_tok-Taken b'N' (b'O' ∷ b'P' ∷ []) fuel line 0 zeroed 16
          (last_word nop_name line 0 (refl, (refl, (refl, tt))) a) (omega arith) (omega arith) in
      begun fuel addr line st b'N' (b'O' ∷ b'P' ∷ []) t (omega arith)
      ∙ rw (is_word fuel addr line st b'N' (b'O' ∷ b'P' ∷ []) t (omega arith) nop_name nop-Bytes)
          refl

  ret_lem : At ret_name line 0 → result ≡ stored ret addr st
  unfolding asm_line toupper_ch
  ret_lem a =
      let t =
        next_tok-Taken b'R' (b'E' ∷ b'T' ∷ []) fuel line 0 zeroed 16
          (last_word ret_name line 0 (refl, (refl, (refl, tt))) a) (omega arith) (omega arith) in
      let word = is_word fuel addr line st b'R' (b'E' ∷ b'T' ∷ []) t (omega arith) in
      begun fuel addr line st b'R' (b'E' ∷ b'T' ∷ []) t (omega arith)
      ∙ rw (word nop_name nop-Bytes, word ret_name ret-Bytes) refl

  int3_lem : At int3_name line 0 → result ≡ stored int3 addr st
  unfolding asm_line toupper_ch
  int3_lem a =
      let t =
        next_tok-Taken b'I' (b'N' ∷ b'T' ∷ b'3' ∷ []) fuel line 0 zeroed 16
          (last_word int3_name line 0 (refl, (refl, (refl, (refl, tt)))) a) (omega arith)
          (omega arith) in
      let word = is_word fuel addr line st b'I' (b'N' ∷ b'T' ∷ b'3' ∷ []) t (omega arith) in
      begun fuel addr line st b'I' (b'N' ∷ b'T' ∷ b'3' ∷ []) t (omega arith)
      ∙ rw (word nop_name nop-Bytes, word ret_name ret-Bytes, word int3_name int3-Bytes) refl

  -- The operand, behind a word that ends at `i`.
  operand :
      (v i : ℕ) (out : Buffer)
      → v < 65536
      → line i ≡ b' '
      → At (hex_text (digits4 v)) line (i + 1)
      → parse_hex fuel (next_tok fuel line i out 16).tok ≡ some v
  operand v i out h b a =
      let t =
        next_tok_blank (hexdig (v / 4096 % 16))
          (hexdig (v / 256 % 16) ∷ hexdig (v / 16 % 16) ∷ hexdig (v % 16) ∷ []) fuel line i out 16 b
          (last_word (hex_text (digits4 v)) line (i + 1) (operand-Plain v) a) (omega arith)
          (omega arith) in
      parse_hex-print_hex4 v fuel (next_tok fuel line i out 16).tok h
        (rw (print_hex4-digits4 v h) t.text) (omega arith)

  interrupt_lem :
      (v : ℕ) → v < 65536 → At (typed (interrupt v)) line 0 → result ≡ stored (interrupt v) addr st
  unfolding asm_line asm_int toupper_ch
  interrupt_lem v h a =
      let parts = first_word int_name (hex_text (digits4 v)) line 0 (refl, (refl, (refl, tt))) a in
      let t =
        next_tok-Taken b'I' (b'N' ∷ b'T' ∷ []) fuel line 0 zeroed 16 parts.0 (omega arith)
          (omega arith) in
      let word = is_word fuel addr line st b'I' (b'N' ∷ b'T' ∷ []) t (omega arith) in
      let v_read : parse_hex fuel
            (next_tok fuel line (next_tok fuel line 0 zeroed 16).next zeroed 16).tok
          ≡ some v =
        rw t.next (operand v 3 zeroed h parts.1 parts.2) in
      begun fuel addr line st b'I' (b'N' ∷ b'T' ∷ []) t (omega arith)
      ∙ rw
          (
            word nop_name nop-Bytes,
            word ret_name ret-Bytes,
            word int3_name int3-Bytes,
            word db_name db-Bytes,
            word int_name int-Bytes,
            v_read,
          )
          refl

  jump_lem :
      (v : ℕ)
      → v < 65536
      → At (typed (jump_short v)) line 0
      → result ≡ stored (jump_short v) addr st
  unfolding asm_line asm_short toupper_ch
  jump_lem v h a =
      let parts =
        first_word jmp_name (short_name ++ b' ' ∷ hex_text (digits4 v)) line 0
          (refl, (refl, (refl, tt))) a in
      let more =
        first_word short_name (hex_text (digits4 v)) line 4
          (refl, (refl, (refl, (refl, (refl, tt))))) parts.2 in
      let t =
        next_tok-Taken b'J' (b'M' ∷ b'P' ∷ []) fuel line 0 zeroed 16 parts.0 (omega arith)
          (omega arith) in
      let first = next_tok fuel line 0 zeroed 16 in
      let word = is_word fuel addr line st b'J' (b'M' ∷ b'P' ∷ []) t (omega arith) in
      let second = next_tok fuel line 3 zeroed 16 in
      let t2 =
        next_tok_blank b'S' (b'H' ∷ b'O' ∷ b'R' ∷ b'T' ∷ []) fuel line 3 zeroed 16 parts.1 more.0
          (omega arith) (omega arith) in
      let word2 : streq_tok fuel second.tok (lit short_name) ≡ same_name short_name short_name =
        streq_tok-same_name short_name short_name fuel second.tok (lit short_name) t2.text
          (lit-At short_name short-Bytes) (omega arith) in
      let v_read : parse_hex fuel (next_tok fuel line second.next second.tok 16).tok ≡ some v =
        rw t2.next (operand v 9 second.tok h more.1 more.2) in
      begun fuel addr line st b'J' (b'M' ∷ b'P' ∷ []) t (omega arith)
      ∙ rw
          (
            word nop_name nop-Bytes,
            word ret_name ret-Bytes,
            word int3_name int3-Bytes,
            word db_name db-Bytes,
            word int_name int-Bytes,
            word jmp_name jmp-Bytes,
            t.next,
            word2,
            v_read,
          )
          refl

  -- A line of A leaves the code of its instruction.
  pub cmd_a-stored : (i : Instr) → IsInstr i → At (typed i) line 0 → result ≡ stored i addr st
  cmd_a-stored nop h a = nop_lem a
  cmd_a-stored ret h a = ret_lem a
  cmd_a-stored int3 h a = int3_lem a
  cmd_a-stored (interrupt v) h a = interrupt_lem v h a
  cmd_a-stored (jump_short v) h a = jump_lem v h a
