-- ===== src/Chkdsk/Fat.antt =====
-- The FAT of chkdsk.c: the one-sector write-back buffer `fatsec`, and the entries in it.
pub mod Flush
pub mod Pack
mod Store
pub mod Entries
pub mod Lost
use rmdos.Base.{
  ℕ, zero, suc, ◌+◌, ◌-◌, ◌*◌, ◌/◌, ◌%◌, ◌≤◌, ◌<◌, Bool, true, false, not, ◌&&◌, ◌||◌, Option, none,
  some, ◌≡◌, ◌≢◌, ◌⊎◌, inl, inr, refl, sym, ap, ◌∙◌, arith, ltb, leb, ◌==◌, if◌then◌else◌, w16,
  minus_one, slt, sge, Buffer, buf_set, peek_word, poke_word,
}
use rmdos.Chkdsk.{FatType, fat12, fat16, Bpb, Drive, Chk, fail, abs_read, abs_write}

-- A change of the state and whether it returned 0; false is -1.
abbrev pub Done : Type 0
Done = Chk × Bool

-- `if (f() != 0) return -1;` and, in a void function, `if (f() != 0) return;`.
abbrev pub and_then : Done → (Chk → Done) → Done
and_then (s, true) f = f s
and_then (s, false) f = (s, false)

abbrev pub if_done : Done → (Chk → Chk) → Chk
if_done (s, true) f = f s
if_done (s, false) f = s

-- The byte offset of an entry in the FAT.
unfoldable pub entry_off : FatType → ℕ → ℕ
entry_off fat16 clust = w16 (clust * 2)
entry_off fat12 clust = w16 (clust + clust / 2)

abbrev pub is_odd : ℕ → Bool
is_odd clust = clust % 2 == 1

-- A FAT12 entry is the low or the high 12 bits of the word at its offset. `|` joins fields with
-- no bit in common, and is a sum; `& 0x0fff` is a remainder.
unfoldable pub unpack12 : Bool → ℕ → ℕ
unpack12 odd val = if odd then val / 16 % 4096 else val % 4096

pub pack12 : Bool → ℕ → ℕ → ℕ
pack12 odd val value =
    if odd then val % 16 + value % 4096 * 16 else val / 4096 % 16 * 4096 + value % 4096

abbrev pub Got : Type 0
Got = Chk × ℕ

module _ (d : Drive) (p : Bpb) where
  -- The write to the second copy, if there is one.
  flush_second : Chk → Done
  flush_second s = elim (abs_write d s (w16 (p.fat2_lba + s.fat_sec_idx)) s.fatsec) [
    | none ↦ (fail s, false)
    | some s' ↦ (record s' { fat_dirty = false }, true)
  ]

  pub fat_flush : Chk → Done
  unfolding flush_second
  fat_flush s =
      if not s.fat_dirty || slt s.fat_sec_idx 0
      then (s, true)
      else elim (abs_write d s (w16 (p.fat1_lba + s.fat_sec_idx)) s.fatsec) [
        | none ↦ (fail s, false)
        | some s' ↦
            if leb 2 p.fats then flush_second s' else (record s' { fat_dirty = false }, true)
      ]

  load_sector : ℕ → Chk → Done
  load_sector sec_i s = elim (abs_read d s (w16 (p.fat1_lba + sec_i))) [
    | none ↦ (fail s, false)
    | some b ↦ (record s { fatsec = b; fat_sec_idx = sec_i }, true)
  ]

  pub fat_load : ℕ → Chk → Done
  unfolding load_sector
  fat_load sec_i s =
      if sec_i == s.fat_sec_idx then (s, true) else and_then (fat_flush s) (load_sector sec_i)

  -- The word that straddles two sectors of the FAT, its low byte `b0` read already.
  get_straddling : Bool → ℕ → ℕ → Chk → Got
  get_straddling odd b0 sec_i s = elim (abs_read d s (w16 (p.fat1_lba + sec_i + 1))) [
    | none ↦ (fail s, 0)
    | some b ↦ (record s { wrk = b }, unpack12 odd (b0 + b 0 * 256))
  ]

  get_in_sector : FatType → ℕ → ℕ → ℕ → Chk → Got
  unfolding get_straddling
  get_in_sector fat16 clust sec_i within s = (s, peek_word s.fatsec within)
  get_in_sector fat12 clust sec_i within s =
      if within == 511
      then get_straddling (is_odd clust) (s.fatsec 511) sec_i s
      else (s, unpack12 (is_odd clust) (peek_word s.fatsec within))

  -- `fat_get` on a FAT of the given type: the entry is read from the disk into `fatsec`, whatever
  -- `fatsec` held.
  get_typed : FatType → ℕ → Chk → Got
  unfolding get_in_sector
  get_typed t clust s =
      let off = entry_off t clust in
      let sec_i = off / 512 in
      elim (abs_read d s (w16 (p.fat1_lba + sec_i))) [
        | none ↦ (fail s, 0)
        | some b ↦ get_in_sector t clust sec_i (off % 512) (record s { fatsec = b })
      ]

  pub fat_get : ℕ → Chk → Got
  unfolding get_typed
  fat_get = get_typed p.fat_type

  applied : Chk → Chk
  applied s = record s { fixes_applied = true }

  -- The last writes of a straddling entry, of its high byte in `wrk`.
  set_straddling_tail : ℕ → Chk → Chk
  unfolding applied
  set_straddling_tail next_sec s = elim (abs_write d s (w16 (p.fat1_lba + next_sec)) s.wrk) [
    | none ↦ fail s
    | some s1 ↦
        if leb 2 p.fats
        then elim (abs_write d s1 (w16 (p.fat2_lba + next_sec)) s1.wrk) [
          | none ↦ fail s1
          | some s2 ↦ applied (record s2 { fat_sec_idx = minus_one })
        ]
        else applied (record s1 { fat_sec_idx = minus_one })
  ]

  -- A straddling entry once `fatsec` holds its first sector and is clean.
  set_straddling_in : ℕ → ℕ → ℕ → Chk → Chk
  unfolding set_straddling_tail
  set_straddling_in clust value sec_i s = elim (abs_read d s (w16 (p.fat1_lba + (sec_i + 1)))) [
    | none ↦ fail s
    | some b ↦
        let val = pack12 (is_odd clust) (s.fatsec 511 + b 0 * 256) value in
        let s1 = record s {
          wrk = b;
          fatsec = buf_set s.fatsec 511 val;
          fat_sec_idx = sec_i;
          fat_dirty = true;
        } in
        if_done (fat_flush s1)
          (λ s2. set_straddling_tail (sec_i + 1) (record s2 { wrk = buf_set s2.wrk 0 (val / 256) }))
  ]

  -- `fat_load` and then `fat_flush`, before the second sector is read.
  set_straddling : ℕ → ℕ → ℕ → Chk → Chk
  unfolding set_straddling_in
  set_straddling clust value sec_i s =
      if_done (fat_load sec_i s)
        (λ s1. if_done (fat_flush s1) (λ s2. set_straddling_in clust value sec_i s2))

  -- The new word at offset `within` of `fatsec`.
  set_word : FatType → ℕ → ℕ → ℕ → Chk → Chk
  unfolding applied
  set_word fat16 clust value within s =
      applied (record s { fatsec = poke_word s.fatsec within value; fat_dirty = true })
  set_word fat12 clust value within s =
      let val = pack12 (is_odd clust) (peek_word s.fatsec within) value in
      applied (record s { fatsec = poke_word s.fatsec within val; fat_dirty = true })

  set_in_sector : FatType → ℕ → ℕ → ℕ → ℕ → Chk → Chk
  unfolding set_word
  set_in_sector t clust value sec_i within s =
      if_done (fat_load sec_i s) (λ s1. set_word t clust value within s1)

  -- `fat_set` on a FAT of the given type.
  pub set_typed : FatType → ℕ → ℕ → Chk → Chk
  unfolding set_in_sector set_straddling
  set_typed fat16 clust value s =
      let off = entry_off fat16 clust in set_in_sector fat16 clust value (off / 512) (off % 512) s
  set_typed fat12 clust value s =
      let off = entry_off fat12 clust in
      if off % 512 == 511
      then set_straddling clust value (off / 512) s
      else set_in_sector fat12 clust value (off / 512) (off % 512) s

  pub fat_set : ℕ → ℕ → Chk → Chk
  unfolding set_typed
  fat_set = set_typed p.fat_type
