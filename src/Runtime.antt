-- ===== src/Runtime.antt =====
-- The C runtime that every tool links, firmware/src/main/dos/inc/dos.c: characters and numbers.
pub mod Numbers
mod Examples
pub mod Args
use rmdos.Base.{
  ℕ, zero, suc, ◌+◌, ◌-◌, ◌*◌, ◌/◌, ◌%◌, Bool, true, false, ◌&&◌, ◌||◌, not, List, [], ◌∷◌, leb,
  ltb, ◌==◌, if◌then◌else◌, slt, sdiv, w16, Buffer, buf_set, zeroed,
}

unfoldable pub toupper_ch : ℕ → ℕ
toupper_ch c = if leb b'a' c && leb c b'z' then c - 32 else c

-- The first loop of `print_num`, which stores the digits from the last on, with `left` = 5 - `i`.
-- `n` is positive where it is divided, so `/` and `%` are those of numbers.
pub record Digits : Type 0 where
  pub count : ℕ
  pub digits : Buffer

pub num_digits : ℕ → ℕ → ℕ → Buffer → Digits
num_digits zero i n digits = record { count = i; digits = digits }
num_digits (suc left) i n digits =
    let rest = num_digits left (i + 1) (n / 10) (buf_set digits i (n % 10 + 48)) in
    if slt 0 n then rest else record { count = i; digits = digits }

-- The second loop, which prints them from the first on.
pub emit_digits : ℕ → Buffer → List ℕ
emit_digits zero digits = []
emit_digits (suc i) digits = digits i ∷ emit_digits i digits

-- What `print_num` prints of a word.
pub print_num : ℕ → List ℕ
unfolding num_digits emit_digits
print_num n =
    if n == 0 then 48 ∷ [] else (let r = num_digits 5 0 n zeroed in emit_digits r.count r.digits)
