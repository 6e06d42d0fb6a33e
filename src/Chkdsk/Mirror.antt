-- ===== src/Chkdsk/Mirror.antt =====
-- The two copies of the FAT in chkdsk.c: `check_fat_mirror` and `sync_fat_mirror`.
pub mod Loops
pub mod Copies
use rmdos.Base.{
  ℕ, zero, suc, ◌+◌, Bool, true, false, none, some, leb, ◌==◌, if◌then◌else◌, w16, slt, minus_one,
  Buffer,
}
use rmdos.Chkdsk.{Bpb, Drive, Chk, fail, abs_read, abs_write}
use rmdos.Chkdsk.Fat.{Done, if_done, fat_flush}

-- The rounds of `while (i < bpb_spf)`.
abbrev pub rounds : Bpb → ℕ
rounds p = if slt 0 p.spf then p.spf else 0

-- The inner loop of the check at `j`, with `left` bytes to go: is its end reached?
pub same_from : ℕ → ℕ → Buffer → Buffer → Bool
same_from zero j a b = true
same_from (suc left) j a b = if a j == b j then same_from left (j + 1) a b else false

module _ (d : Drive) (p : Bpb) where
  -- The loop of `sync_fat_mirror` at `i`, with `left` sectors to go.
  pub sync_loop : ℕ → ℕ → Chk → Done
  sync_loop zero i s = (s, true)
  sync_loop (suc left) i s = elim (abs_read d s (w16 (p.fat1_lba + i))) [
    | none ↦ (fail s, false)
    | some b ↦ elim (abs_write d (record s { fatsec = b }) (w16 (p.fat2_lba + i)) b) [
      | none ↦ (fail (record s { fatsec = b }), false)
      | some s' ↦ sync_loop left (i + 1) s'
    ]
  ]

  synced : Chk → Chk
  synced s = record s { fat_sec_idx = minus_one; fat_diff = false; fixes_applied = true }

  pub sync_fat_mirror : Chk → Chk
  unfolding sync_loop synced
  sync_fat_mirror s =
      if leb 2 p.fats
      then if_done (fat_flush d p s) (λ s1. if_done (sync_loop (rounds p) 0 s1) synced)
      else s

  -- What the check does at the first sector that differs.
  pub differing : Chk → Chk
  unfolding sync_fat_mirror
  differing s =
      let s' = record s { fat_diff = true; warn_fix = true; fat_sec_idx = minus_one } in
      if s.fixing then sync_fat_mirror s' else s'

  -- The loop of `check_fat_mirror` at `i`, with `left` sectors to go.
  pub check_loop : ℕ → ℕ → Chk → Chk
  unfolding differing same_from
  check_loop zero i s = record s { fat_sec_idx = minus_one }
  check_loop (suc left) i s = elim (abs_read d s (w16 (p.fat1_lba + i))) [
    | none ↦ fail s
    | some a ↦ elim (abs_read d s (w16 (p.fat2_lba + i))) [
      | none ↦ fail (record s { fatsec = a })
      | some b ↦
          let s' = record s { fatsec = a; sec = b } in
          if same_from 512 0 a b then check_loop left (i + 1) s' else differing s'
    ]
  ]

  pub check_fat_mirror : Chk → Chk
  unfolding check_loop
  check_fat_mirror s =
      if leb 2 p.fats then if_done (fat_flush d p s) (check_loop (rounds p) 0) else s
