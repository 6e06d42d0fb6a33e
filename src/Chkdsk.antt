-- ===== src/Chkdsk.antt =====
-- CHKDSK.COM, firmware/src/main/dos/chkdsk.c: the volume's parameters and the auditor's globals.
pub mod Bits
pub mod Walk
pub mod Layout
pub mod Mirror
pub mod Totals
pub mod Recover
pub mod Fat
pub mod Examples
use rmdos.Base.{ℕ, ◌+◌, Bool, true, false, Option, none, some, ◌==◌, if◌then◌else◌, w16, Buffer}

pub data FatType : Type 0 where
  fat12 fat16 : FatType

-- What `parse_bpb` sets and nothing changes later. Every number is a 16-bit word.
pub record Bpb : Type 0 where
  pub spc : ℕ
  pub reserved : ℕ
  pub fats : ℕ
  pub root_ents : ℕ
  pub totsec : ℕ
  pub totsec_hi : ℕ
  pub media : ℕ
  pub spf : ℕ
  pub fat1_lba : ℕ
  pub fat2_lba : ℕ
  pub root_lba : ℕ
  pub root_secs : ℕ
  pub data_lba : ℕ
  pub max_clust : ℕ
  pub fat_type : FatType
  pub fat_eoc : ℕ
  pub fat_bad : ℕ

-- The drive: which sectors INT 25h fails to read and INT 26h fails to write.
pub record Drive : Type 0 where
  pub bad_read : ℕ → Bool
  pub bad_write : ℕ → Bool

-- The disk, the sector buffers and the globals of the check; flags are Booleans.
pub record Chk : Type 0 where
  pub disk : ℕ → Buffer
  pub sec : Buffer
  pub fatsec : Buffer
  pub wrk : Buffer
  pub bitmap : Buffer
  pub hard_err : Bool
  pub warn_fix : Bool
  pub fixing : Bool
  pub fixes_applied : Bool
  pub fat_sec_idx : ℕ
  pub fat_dirty : Bool
  pub file_count : ℕ
  pub dir_count : ℕ
  pub file_bytes_lo : ℕ
  pub file_bytes_hi : ℕ
  pub dir_bytes_lo : ℕ
  pub dir_bytes_hi : ℕ
  pub used_clust : ℕ
  pub free_clust : ℕ
  pub lost_clust : ℕ
  pub cross_links : ℕ
  pub bad_chains : ℕ
  pub fat_diff : Bool
  pub media_mismatch : Bool
  pub walk_len : ℕ
  pub walk_ok : Bool

abbrev pub fail : Chk → Chk
fail s = record s { hard_err = true }

-- `abs_read` and `abs_write` of one sector; `none` is the -1 of a failed interrupt.
abbrev pub abs_read : Drive → Chk → ℕ → Option Buffer
abs_read d s lba = if d.bad_read lba then none else some (s.disk lba)

abbrev pub abs_write : Drive → Chk → ℕ → Buffer → Option Chk
abs_write d s lba b =
    if d.bad_write lba
    then none
    else some (record s { disk = λ k. if k == lba then b else s.disk k })
