-- ===== src/Base/Word.antt =====
-- A C `int` of the tools' compiler (scripts/rmcc.py) is a 16-bit word. Sums, products and left
-- shifts wrap; `/` is exact where both sides stand below 2 ^ 15; `<`, `<=`, `>` and `>=` compile
-- to the signed jumps (jl, jle, jg, jge), whose order on words is `slt`.
use Prim.Native.Nat.{ℕ, ◌+◌, ◌-◌, ◌/◌, ◌%◌}
use mathlib.Core.Bool.{Bool, not}
use rmdos.Base.Tests.{ltb, if◌then◌else◌}

abbrev pub w16 : ℕ → ℕ
w16 n = n % 65536

-- The word of -1.
abbrev pub minus_one : ℕ
minus_one = 65535

abbrev pub sub16 : ℕ → ℕ → ℕ
sub16 a b = w16 (a + 65536 - b)

-- `a < b` and `a >= b` on words.
abbrev pub slt : ℕ → ℕ → Bool
slt a b = ltb (w16 (a + 32768)) (w16 (b + 32768))

abbrev pub sge : ℕ → ℕ → Bool
sge a b = not (slt a b)

-- `a / b` on words, which truncates towards 0.
abbrev magnitude : ℕ → ℕ
magnitude a = if ltb a 32768 then a else 65536 - a

abbrev pub sdiv : ℕ → ℕ → ℕ
sdiv a b =
    let q = magnitude a / magnitude b in
    if ltb a 32768
    then (if ltb b 32768 then q else w16 (65536 - q))
    else (if ltb b 32768 then w16 (65536 - q) else q)
