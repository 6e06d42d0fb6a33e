-- ===== src/Chkdsk/Layout.antt =====
-- The layout of the volume that chkdsk.c reads off the boot sector: `parse_bpb`.
mod Examples
use native.Mathlib.Nat.{div-le_self}
use rmdos.Base.{
  ◌-◌, ℕ, zero, suc, ◌+◌, ◌*◌, ◌/◌, ◌≤◌, ◌<◌, Bool, true, false, not, ◌&&◌, ◌||◌, Option, none,
  some, ◌≡◌, ◌≢◌, refl, arith, Bool-cases, inl, inr, ap, sym, ◌∙◌, ◌==◌, if◌then◌else◌, ltb, w16,
  sub16, sdiv, slt, sge, minus_one, Buffer, peek_word,
}
use rmdos.Chkdsk.{FatType, fat12, fat16, Bpb, Chk}
use rmdos.Chkdsk.Fat.{entry_off}
use rmdos.Chkdsk.Fat.Flush.{Fits, InFat}
use rmdos.Chkdsk.Walk.Steps.{IsVolume}

-- The loop that finds the root directory behind `fats` copies of the FAT.
root_behind : ℕ → ℕ → ℕ → ℕ
root_behind spf lba zero = lba
root_behind spf lba (suc fats) = root_behind spf (w16 (lba + spf)) fats

abbrev type_of : ℕ → FatType
type_of clusters = if sge clusters 4085 then fat16 else fat12

-- How many entries the FAT can hold.
abbrev capacity : FatType → ℕ → ℕ
capacity fat16 spf = w16 (spf * 256)
capacity fat12 spf = sdiv (w16 (w16 (spf * 512) * 2)) 3

abbrev eoc_of : FatType → ℕ
eoc_of fat12 = 0x0ff8
eoc_of fat16 = 0xfff8

abbrev bad_of : FatType → ℕ
bad_of fat12 = 0x0ff7
bad_of fat16 = 0xfff7

-- `if (max_clust > i) max_clust = i;`
abbrev clamped : ℕ → ℕ → ℕ
clamped n i = if slt i n then i else n

-- The last assignments, from the number of clusters on.
with_clusters : ℕ → Bpb → Bpb
with_clusters clusters p =
    let max_clust = w16 (clusters + 2) in
    let t = type_of (sub16 max_clust 2) in
    record p {
      max_clust = clamped max_clust (capacity t p.spf);
      fat_type = t;
      fat_eoc = eoc_of t;
      fat_bad = bad_of t;
    }

-- The fields of the boot sector and the sectors that follow from them.
with_sectors : Buffer → Bpb
unfolding root_behind
with_sectors boot =
    let big = peek_word boot 19 == 0 in
    let reserved = peek_word boot 14 in
    let spf = peek_word boot 22 in
    let root_lba = root_behind spf reserved (boot 16) in
    let root_secs = peek_word boot 17 / 16 in
    record {
      spc = boot 13;
      reserved = reserved;
      fats = boot 16;
      root_ents = peek_word boot 17;
      totsec = if big then peek_word boot 32 else peek_word boot 19;
      totsec_hi = if big then peek_word boot 34 else 0;
      media = boot 21;
      spf = spf;
      fat1_lba = reserved;
      fat2_lba = w16 (reserved + spf);
      root_lba = root_lba;
      root_secs = root_secs;
      data_lba = w16 (root_lba + root_secs);
      max_clust = 0;
      fat_type = fat12;
      fat_eoc = 0;
      fat_bad = 0;
    }

-- `none` is the -1 of the source, after which the program ends.
pub parse_bpb : Buffer → Chk → Option (Bpb × Chk)
unfolding with_clusters with_sectors
parse_bpb boot s =
    let p = with_sectors boot in
    if not (peek_word boot 11 == 512)
    then none
    else if p.spc == 0 || (p.fats == 0 || p.spf == 0)
    then none
    else if slt p.totsec p.data_lba && p.totsec_hi == 0
    then none
    else some (
      with_clusters (sdiv (sub16 p.totsec p.data_lba) p.spc) p,
      record s { fat_sec_idx = minus_one; fat_dirty = false },
    )

-- How many sectors a FAT may have before its capacity overflows the compiler's signed words.
abbrev pub sectors_limit : FatType → ℕ
sectors_limit fat12 = 32
sectors_limit fat16 = 128

-- Below that limit, and with a number of clusters that is not negative, the clamp leaves only
-- clusters that have an entry in the FAT.
clamped-InFat :
    (t : FatType) (n : ℕ) (p : Bpb)
    → n < 32768
    → p.spf < sectors_limit t
    → (clamped n (capacity t p.spf) < 32768)
      × ((c : ℕ) → c < clamped n (capacity t p.spf) → InFat p t c)
unfolding entry_off
clamped-InFat fat16 n p low small = (ground arith, λ c h. (ground arith, ground arith))
clamped-InFat fat12 n p low small =
    let e : capacity fat12 p.spf ≡ p.spf * 1024 / 3 = ground arith in
    rw e (ground arith, λ c h. (ground arith, ground arith))

-- What a success of `parse_bpb` says of the boot sector.
parse_bpb-some :
    (boot : Buffer) (s s' : Chk) (p : Bpb)
    → parse_bpb boot s ≡ some (p, s')
    → let q = with_sectors boot in
      (p ≡ with_clusters (sdiv (sub16 q.totsec q.data_lba) q.spc) q)
      × (s' ≡ record s { fat_sec_idx = minus_one; fat_dirty = false })
      × (q.spc ≢ 0)
      × (slt q.totsec q.data_lba && q.totsec_hi == 0) ≡ false
unfolding parse_bpb
parse_bpb-some boot s s' p e = (ground arith, ground arith, ground arith, ground arith)

sectors_limit_le : (t : FatType) → sectors_limit t ≤ 128
sectors_limit_le fat12 = omega arith
sectors_limit_le fat16 = omega arith

with_clusters-IsVolume :
    (n : ℕ) (q : Bpb)
    → n < 32766
    → let p = with_clusters n q in
      p.spf < sectors_limit p.fat_type
      → p.fat1_lba < 32768
      → q.fat2_lba ≡ w16 (q.fat1_lba + q.spf)
      → p.fat2_lba + p.spf ≤ 32768
      → IsVolume p
unfolding with_clusters
with_clusters-IsVolume n q few small low second room =
    let t = type_of (sub16 (w16 (n + 2)) 2) in
    let limit = sectors_limit_le t in
    let (max_low, in_fat) = clamped-InFat t (w16 (n + 2)) q (omega arith) small in
    record { low = max_low; fats = record { second = omega arith; low = room }; in_fat = in_fat }

-- The number of clusters is not negative.
clusters_lt :
    (totsec data_lba hi spc : ℕ)
    → spc < 256
    → totsec < 32766
    → data_lba < 32768
    → hi ≡ 0
    → (slt totsec data_lba && hi == 0) ≡ false
    → sdiv (sub16 totsec data_lba) spc < 32766
clusters_lt totsec data_lba hi spc byte few low no_hi guard =
    let behind : data_lba ≤ totsec = ground arith in
    let e : sub16 totsec data_lba ≡ totsec - data_lba = ground arith in
    let le = div-le_self (totsec - data_lba) spc in
    let whole : sdiv (totsec - data_lba) spc ≡ (totsec - data_lba) / spc = ground arith in
    rw (e, whole) (omega (arith, le))

-- Where `parse_bpb` accepts a boot sector of a volume of fewer than 32766 sectors whose data begin
-- below sector 32768, with FATs that lie below it and are smaller than 32 sectors for FAT12 and 128
-- for FAT16, every cluster below the limit that it computes has its entry in the FAT, the second
-- FAT is right behind the first, and the sector buffer holds nothing.
pub parse_bpb-IsVolume :
    (boot : Buffer) (s s' : Chk) (p : Bpb)
    → ((j : ℕ) → boot j < 256)
    → parse_bpb boot s ≡ some (p, s')
    → p.totsec < 32766
    → p.totsec_hi ≡ 0
    → p.data_lba < 32768
    → p.fat1_lba < 32768
    → p.fat2_lba + p.spf ≤ 32768
    → p.spf < sectors_limit p.fat_type
    → IsVolume p × (s'.fat_dirty ≡ false) × (s'.fat_sec_idx ≡ minus_one)
unfolding with_clusters with_sectors
parse_bpb-IsVolume boot s s' p bytes e few no_hi behind low room small =
    let q = with_sectors boot in
    let (is_p, is_s, spc, guard) = parse_bpb-some boot s s' p e in
    let n = sdiv (sub16 q.totsec q.data_lba) q.spc in
    let totsec : p.totsec ≡ q.totsec = ap (λ (u : Bpb). u.totsec) is_p in
    let hi : p.totsec_hi ≡ q.totsec_hi = ap (λ (u : Bpb). u.totsec_hi) is_p in
    let data_lba : p.data_lba ≡ q.data_lba = ap (λ (u : Bpb). u.data_lba) is_p in
    let bound : n < 32766 =
      clusters_lt q.totsec q.data_lba q.totsec_hi q.spc (bytes 13) (rw totsec at few)
        (rw data_lba at behind) (rw hi at no_hi) guard in
    (
      rw is_p (
          with_clusters-IsVolume n q bound (rw is_p at small) (rw is_p at low) refl
            (rw is_p at room)),
      ap (λ (u : Chk). u.fat_dirty) is_s,
      ap (λ (u : Chk). u.fat_sec_idx) is_s,
    )
