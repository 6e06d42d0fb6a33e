-- ===== src/Chkdsk/Fat/Flush.antt =====
-- What `fat_flush` and `fat_load` of chkdsk.c do on a good drive, and the bytes of the first FAT.
use rmdos.Base.{
  ◌*◌, ℕ, ◌+◌, ◌/◌, ◌%◌, ◌≤◌, ◌<◌, true, false, ◌≡◌, ◌≢◌, inl, inr, arith, leb, ◌==◌, if◌then◌else◌,
  w16, minus_one, slt, Buffer, buf_set, poke_word, Bool-cases,
}
use rmdos.Chkdsk.{FatType, Bpb, Drive, Chk}
use rmdos.Chkdsk.Fat.{entry_off, flush_second, load_sector, fat_load, fat_flush}

-- Byte `k` of the first FAT on the disk.
abbrev pub fat_byte : Bpb → Chk → ℕ → ℕ
fat_byte p s k = s.disk (p.fat1_lba + k / 512) (k % 512)

-- Every sector can be read and written.
abbrev pub IsGood : Drive → Type 0
IsGood d = ((k : ℕ) → d.bad_read k ≡ false) × ((k : ℕ) → d.bad_write k ≡ false)

-- Both copies lie below sector 2 ^ 15, the second right behind the first.
pub record Fits (p : Bpb) : Type 0 where
  pub second : p.fat2_lba ≡ p.fat1_lba + p.spf
  pub low : p.fat2_lba + p.spf ≤ 32768

-- The two bytes of a cluster's entry lie in the sectors of the FAT.
abbrev pub InFat : Bpb → FatType → ℕ → Type 0
InFat p t c = (c < 32768) × (entry_off t c + 1 < p.spf * 512)

-- The sector buffer holds nothing.
pub record IsFresh (s : Chk) : Type 0 where
  pub clean : s.fat_dirty ≡ false
  pub no_sector : s.fat_sec_idx ≡ minus_one
  pub bytes : (k j : ℕ) → s.disk k j < 256

-- The disk once the sector buffer is written to both copies of the FAT.
abbrev pub flushed : Bpb → Chk → ℕ → Buffer
flushed p s =
    let once = λ (k : ℕ). if k == w16 (p.fat1_lba + s.fat_sec_idx) then s.fatsec else s.disk k in
    if leb 2 p.fats
    then (λ k. if k == w16 (p.fat2_lba + s.fat_sec_idx) then s.fatsec else once k)
    else once

module _ (d : Drive) (p : Bpb) (good : IsGood d) (f : Fits p) where
  pub fat_flush-dirty :
      (s : Chk)
      → s.fat_dirty ≡ true
      → s.fat_sec_idx < 256
      → fat_flush d p s ≡ (record s { disk = flushed p s; fat_dirty = false }, true)
  unfolding fat_flush
  fat_flush-dirty s dirty low =
      let e : slt s.fat_sec_idx 0 ≡ false = ground arith in
      rw (dirty, e, good.1 (w16 (p.fat1_lba + s.fat_sec_idx)))
        (elim (Bool-cases (leb 2 p.fats)) [
          | inl two ↦ rw (two, good.1 (w16 (p.fat2_lba + s.fat_sec_idx)), flush_second)
          | inr one ↦ rw one
        ])

  pub fat_flush-clean : (s : Chk) → s.fat_dirty ≡ false → fat_flush d p s ≡ (s, true)
  unfolding fat_flush
  fat_flush-clean s clean = rw clean

  pub fat_load-fresh :
      (sec_i : ℕ) (s : Chk)
      → s.fat_dirty ≡ false
      → s.fat_sec_idx ≡ minus_one
      → sec_i < 256
      → fat_load d p sec_i s
        ≡ (record s { fatsec = s.disk (w16 (p.fat1_lba + sec_i)); fat_sec_idx = sec_i }, true)
  unfolding fat_load
  fat_load-fresh sec_i s clean none_held low =
      let e : (sec_i == s.fat_sec_idx) ≡ false = ground arith in
      rw (e, fat_flush-clean s clean, good.0 (w16 (p.fat1_lba + sec_i)), load_sector)

-- A word put into the buffer of its sector and flushed changes its two bytes of the first FAT.
pub poked_word :
    (p : Bpb)
    → Fits p
    → (off val k : ℕ) (s : Chk) → off % 512 ≢ 511
    → off + 1 < p.spf * 512
    → k < p.spf * 512
    → flushed p
        (record s {
          fatsec = poke_word (s.disk (w16 (p.fat1_lba + off / 512))) (off % 512) val;
          fat_sec_idx = off / 512;
        })
        (p.fat1_lba + k / 512)
        (k % 512)
      ≡ (if k == off then val % 256 else if k == off + 1 then val / 256 % 256 else fat_byte p s k)
poked_word p f off val k s inside low b =
    let w : w16 (p.fat1_lba + off / 512) ≡ p.fat1_lba + off / 512 =
      omega (arith, f.low, f.second) in
    let w' : w16 (p.fat2_lba + off / 512) ≡ p.fat2_lba + off / 512 =
      omega (arith, f.low, f.second) in
    rw (w, w') (ground (arith, f.low, f.second))

-- The same for a word across two sectors, whose bytes are put in and written one after the other.
pub poked_across :
    (p : Bpb)
    → Fits p
    → (off val k : ℕ) (s : Chk) → off + 1 < p.spf * 512
    → off % 512 ≡ 511
    → k < p.spf * 512
    → let a = off / 512 in
      let first = record s {
        fatsec = buf_set (s.disk (w16 (p.fat1_lba + a))) 511 val;
        fat_sec_idx = a;
      } in
      flushed p
        (record first {
          disk = flushed p first;
          fatsec = buf_set (s.disk (w16 (p.fat1_lba + (a + 1)))) 0 (val / 256);
          fat_sec_idx = a + 1;
        })
        (p.fat1_lba + k / 512)
        (k % 512)
      ≡ (if k == off then val % 256 else if k == off + 1 then val / 256 % 256 else fat_byte p s k)
poked_across p f off val k s low at_end b =
    let a = off / 512 in
    let w : w16 (p.fat1_lba + a) ≡ p.fat1_lba + a = omega (arith, f.low, f.second) in
    let w' : w16 (p.fat2_lba + a) ≡ p.fat2_lba + a = omega (arith, f.low, f.second) in
    let x : w16 (p.fat1_lba + (a + 1)) ≡ p.fat1_lba + (a + 1) = omega (arith, f.low, f.second) in
    let x' : w16 (p.fat2_lba + (a + 1)) ≡ p.fat2_lba + (a + 1) = omega (arith, f.low, f.second) in
    rw (w, w', x, x') (ground (arith, f.low, f.second))
