-- ===== src/Chkdsk/Examples.antt =====
-- A small volume: two FATs of one sector each behind the boot sector.
use rmdos.Base.{ℕ, ◌+◌, ◌%◌, ◌<◌, true, false, ◌≡◌, ◌≢◌, refl, arith, minus_one, zeroed}
use rmdos.Chkdsk.{FatType, fat12, fat16, Bpb, Drive, Chk}
use rmdos.Chkdsk.Fat.{fat_set, fat_get, fat_flush, unpack12, entry_off}
use rmdos.Chkdsk.Fat.Flush.{IsGood, Fits, IsFresh, InFat}
use rmdos.Chkdsk.Fat.Entries.{fat_get-fat_set}
use rmdos.Base.{[], ◌∷◌, if◌then◌else◌, ◌==◌}
use rmdos.Chkdsk.Bits.{bit_get, test_bit}
use rmdos.Chkdsk.Fat.Entries.{entry}
use rmdos.Chkdsk.Walk.{walk_chain}
use rmdos.Chkdsk.Walk.Steps.{IsVolume, AreFree}
use rmdos.Chkdsk.Walk.Chain.{Audited, IsChain, walk_chain-Audited}
use rmdos.Chkdsk.Walk.Fat16.{walk_chain-fat16}
use rmdos.Base.{leb, ltb, ◌&&◌, ◌-◌}
use rmdos.Chkdsk.Mirror.{check_fat_mirror}
use rmdos.Chkdsk.Mirror.Loops.{Differs}
use rmdos.Chkdsk.Mirror.Copies.{check_fat_mirror-AreEqual}
use rmdos.Base.{◌*◌, ◌≤◌}
use rmdos.Chkdsk.Totals.{add_file_bytes, add_file_bytes_lem}
use rmdos.Chkdsk.Fat.Lost.{fat_flush-fat_get-fat_set}

abbrev pub drive : Drive
drive = record { bad_read = λ _. false; bad_write = λ _. false }

drive-IsGood : IsGood drive
drive-IsGood = (λ _. refl, λ _. refl)

abbrev pub volume : FatType → ℕ → Bpb
volume t spf = record {
  spc = 1;
  reserved = 1;
  fats = 2;
  root_ents = 16;
  totsec = 300;
  totsec_hi = 0;
  media = 0xf0;
  spf = spf;
  fat1_lba = 1;
  fat2_lba = 1 + spf;
  root_lba = 1 + spf + spf;
  root_secs = 1;
  data_lba = 2 + spf + spf;
  max_clust = 298;
  fat_type = t;
  fat_eoc = elim t [ fat12 ↦ 0xff8 | fat16 ↦ 0xfff8 ];
  fat_bad = elim t [ fat12 ↦ 0xff7 | fat16 ↦ 0xfff7 ];
}

-- Every sector holds its number in every byte.
abbrev pub state : Chk
state = record {
  disk = λ k j. k % 256;
  sec = zeroed;
  fatsec = zeroed;
  wrk = zeroed;
  bitmap = zeroed;
  hard_err = false;
  warn_fix = false;
  fixing = true;
  fixes_applied = false;
  fat_sec_idx = minus_one;
  fat_dirty = false;
  file_count = 0;
  dir_count = 0;
  file_bytes_lo = 0;
  file_bytes_hi = 0;
  dir_bytes_lo = 0;
  dir_bytes_hi = 0;
  used_clust = 0;
  free_clust = 0;
  lost_clust = 0;
  cross_links = 0;
  bad_chains = 0;
  fat_diff = false;
  media_mismatch = false;
  walk_len = 0;
  walk_ok = true;
}

state-IsFresh : IsFresh state
state-IsFresh = record { clean = refl; no_sector = refl; bytes = λ k j. omega arith }

volume-Fits : (t : FatType) → Fits (volume t 2)
volume-Fits t = record { second = refl; low = omega arith }

-- The entry of cluster 341 has its bytes in two sectors.
in_fat12 : InFat (volume fat12 2) fat12 341
unfolding entry_off
in_fat12 = (omega arith, omega arith)

in_fat16 : InFat (volume fat16 2) fat16 2
unfolding entry_off
in_fat16 = (omega arith, omega arith)

in_fat16_too : InFat (volume fat16 2) fat16 300
unfolding entry_off
in_fat16_too = (omega arith, omega arith)

fat_get-fat_set_example :
    let p = volume fat12 2 in
    let s' = (fat_flush drive p (fat_set drive p 341 0xff8 state)).0 in
    ((fat_get drive p 341 s').1 ≡ 0xff8)
    × ((e : ℕ) → InFat p fat12 e → e ≢ 341 → (fat_get drive p e s').1 ≡ (fat_get drive p e state).1)
fat_get-fat_set_example =
    fat_get-fat_set drive (volume fat12 2) 341 0xff8 state drive-IsGood (volume-Fits fat12)
      state-IsFresh in_fat12 (omega arith)

fat_flush-fat_get-fat_set_example :
    let p = volume fat16 2 in
    let s' = (fat_flush drive p (fat_get drive p 300 (fat_set drive p 2 0xfff8 state)).0).0 in
    s'.disk 1 7 ≡ 2
fat_flush-fat_get-fat_set_example =
    fat_flush-fat_get-fat_set drive (volume fat16 2) 2 0xfff8 300 state drive-IsGood
      (volume-Fits fat16) state-IsFresh refl in_fat16 in_fat16_too 7

-- A FAT12 in which cluster 2 leads to 3, the end, and a FAT16 in which cluster 2 leads to 3.
abbrev linked12 : Chk
linked12 = record state {
  disk = λ k j.
      if k == 1
      then (if j == 3 then 3 else if j == 4 then 0x80 else if j == 5 then 0xff else 0)
      else 0;
}

abbrev linked16 : Chk
linked16 = record state { disk = λ k j. if k == 1 then (if j == 4 then 3 else 0) else 0 }

volume-IsVolume : (t : FatType) → IsVolume (volume t 2)
unfolding entry_off
volume-IsVolume fat12 = record {
  low = omega arith;
  fats = volume-Fits fat12;
  in_fat = λ c h. (omega arith, omega arith);
}
volume-IsVolume fat16 = record {
  low = omega arith;
  fats = volume-Fits fat16;
  in_fat = λ c h. (omega arith, omega arith);
}

linked12-IsChain : IsChain (entry (volume fat12 2) linked12) 2 (3 ∷ [])
unfolding entry_off unpack12
linked12-IsChain = (refl, omega arith, omega arith)

linked12-AreFree : AreFree (volume fat12 2) linked12 (2 ∷ 3 ∷ [])
unfolding bit_get test_bit
linked12-AreFree =
    (omega arith, omega arith, refl, refl, (omega arith, omega arith, refl, refl, record {}))

walk_chain-Audited_example :
    Audited
      (volume fat12 2)
      linked12
      (2 ∷ 3 ∷ [])
      true
      (walk_chain drive (volume fat12 2) 2 2 linked12)
walk_chain-Audited_example =
    walk_chain-Audited drive (volume fat12 2) 2 2 (3 ∷ []) linked12 drive-IsGood
      (volume-IsVolume fat12) refl refl refl (omega arith) (omega arith) linked12-IsChain
      linked12-AreFree (λ j. omega arith) refl

linked16_lt : entry (volume fat16 2) linked16 2 < 32768
unfolding entry_off
linked16_lt = omega arith

unmarked16 : bit_get (volume fat16 2) 2 linked16 ≡ false
unfolding bit_get test_bit
unmarked16 = refl

walk_chain-fat16_example :
    Audited
      (volume fat16 2)
      linked16
      (2 ∷ [])
      true
      (walk_chain drive (volume fat16 2) 2 65535 linked16)
walk_chain-fat16_example =
    walk_chain-fat16 drive (volume fat16 2) 65535 2 linked16 drive-IsGood (volume-IsVolume fat16)
      refl refl linked16_lt (omega arith) (omega arith) (omega arith) unmarked16 (λ j. omega arith)
      refl

state-Differs : Differs (volume fat12 2) state
state-Differs = record {
  k = 0;
  j = 0;
  k_lt = omega arith;
  j_lt = omega arith;
  bytes = λ e. omega (arith, e);
}

check_fat_mirror-AreEqual_example :
    let r = check_fat_mirror drive (volume fat12 2) state in
    (r.fat_diff ≡ false)
    × ((lba j : ℕ)
        → r.disk lba j
          ≡ (if leb 3 lba && ltb lba 5 then state.disk (lba + 1 - 3) j else state.disk lba j))
check_fat_mirror-AreEqual_example =
    (check_fat_mirror-AreEqual drive (volume fat12 2) drive-IsGood (volume-Fits fat12) state
        (omega arith) refl).2
      state-Differs refl

-- 28672 bytes so far, and a file of 8192 bytes more.
abbrev counted : Chk
counted = record state { file_bytes_lo = 28672 }

add_file_bytes_lem_example :
    let r = add_file_bytes 8192 0 counted in
    let total = r.file_bytes_lo + r.file_bytes_hi * 65536 in
    (28672 < 32768 → r.file_bytes_lo < 32768 → total ≡ 36864)
    × (32768 ≤ 28672 → 32768 ≤ r.file_bytes_lo → total ≡ 36864)
    × (28672 < 32768 → 32768 ≤ r.file_bytes_lo → total ≡ 102400)
    × (32768 ≤ 28672 → r.file_bytes_lo < 32768 → total ≡ 4294938624)
add_file_bytes_lem_example =
    add_file_bytes_lem 8192 0 counted (omega arith) (omega arith) (omega arith) (omega arith)
