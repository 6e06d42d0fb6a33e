-- ===== src/Chkdsk/Totals.antt =====
-- The 32-bit totals of bytes in chkdsk.c, each in two words: `add_file_bytes` and `add_dir_bytes`.
use rmdos.Base.{ℕ, ◌+◌, ◌-◌, ◌*◌, ◌%◌, ◌≤◌, ◌<◌, ◌≡◌, arith, if◌then◌else◌, w16, slt}
use rmdos.Chkdsk.{Chk}

pub add_file_bytes : ℕ → ℕ → Chk → Chk
add_file_bytes add_lo add_hi s =
    let nlo = w16 (s.file_bytes_lo + add_lo) in
    let hi = w16 (s.file_bytes_hi + add_hi) in
    record s {
      file_bytes_hi = if slt nlo s.file_bytes_lo then w16 (hi + 1) else hi;
      file_bytes_lo = nlo;
    }

pub add_dir_bytes : ℕ → ℕ → Chk → Chk
add_dir_bytes add_lo add_hi s =
    let nlo = w16 (s.dir_bytes_lo + add_lo) in
    let hi = w16 (s.dir_bytes_hi + add_hi) in
    record s {
      dir_bytes_hi = if slt nlo s.dir_bytes_lo then w16 (hi + 1) else hi;
      dir_bytes_lo = nlo;
    }

abbrev file_bytes : Chk → ℕ
file_bytes s = s.file_bytes_lo + s.file_bytes_hi * 65536

-- `add_file_bytes` looks for the carry by a signed comparison of the low words. Where the old and the
-- new low word have the same top bit, the total is the sum modulo 2 ^ 32; where the top bit gets
-- set, the total is 65536 too much; and where it gets cleared, which takes a carry, the carry is
-- lost and the total is 65536 too little.
pub add_file_bytes_lem :
    (lo hi : ℕ) (s : Chk)
    → lo < 65536
    → hi < 65536
    → s.file_bytes_lo < 65536
    → s.file_bytes_hi < 65536
    → let r = add_file_bytes lo hi s in
      let sum = file_bytes s + lo + hi * 65536 in
      (s.file_bytes_lo < 32768 → r.file_bytes_lo < 32768 → file_bytes r ≡ sum % 4294967296)
      × (32768 ≤ s.file_bytes_lo → 32768 ≤ r.file_bytes_lo → file_bytes r ≡ sum % 4294967296)
      × (s.file_bytes_lo < 32768
          → 32768 ≤ r.file_bytes_lo
          → file_bytes r ≡ (sum + 65536) % 4294967296)
      × (32768 ≤ s.file_bytes_lo
          → r.file_bytes_lo < 32768
          → file_bytes r ≡ (sum + 4294967296 - 65536) % 4294967296)
unfolding add_file_bytes
add_file_bytes_lem lo hi s a b c d =
    (λ x y. ground arith, λ x y. ground arith, λ x y. ground arith, λ x y. ground arith)
