-- ===== src/Chkdsk/Fat/Entries.antt =====
-- `fat_set`, `fat_flush` and `fat_get` of chkdsk.c against the FAT as an array of entries.
use mathlib.Core.Path.{ap₂}
use rmdos.Base.{
  if◌then◌else◌, Buffer, ap, ◌==◌, ℕ, ◌+◌, ◌*◌, ◌/◌, ◌%◌, ◌<◌, ◌≡◌, ◌≢◌, sym, ◌∙◌, arith, w16,
}
use rmdos.Chkdsk.{FatType, fat12, fat16, Bpb, Drive, Chk}
use rmdos.Chkdsk.Fat.{
  get_in_sector, get_straddling, set_typed, get_typed, fat_get, fat_set, fat_flush, entry_off,
  is_odd, unpack12, pack12,
}
use rmdos.Chkdsk.Fat.Flush.{InFat, fat_byte, IsGood, Fits, IsFresh}
use rmdos.Chkdsk.Fat.Store.{new_word, after, HasWord, word, after-HasWord}
use rmdos.Chkdsk.Fat.Pack.{unpack12_beside}

-- The entry that the bytes of a FAT of the given type hold for a cluster.
abbrev pub entry_of : FatType → Bpb → Chk → ℕ → ℕ
entry_of fat16 p s c =
    let off = entry_off fat16 c in fat_byte p s off + fat_byte p s (off + 1) * 256
entry_of fat12 p s c =
    let off = entry_off fat12 c in
    unpack12 (is_odd c) (fat_byte p s off + fat_byte p s (off + 1) * 256)

abbrev pub entry : Bpb → Chk → ℕ → ℕ
entry p = entry_of p.fat_type p

-- On a good drive `fat_get` gives the entry of the FAT on the disk, and leaves the disk alone.
get_typed-entry_of :
    (d : Drive) (p : Bpb) (t : FatType) (c : ℕ) (s : Chk)
    → IsGood d
    → Fits p
    → InFat p t c
    → (get_typed d p t c s).1 ≡ entry_of t p s c
unfolding get_typed entry_off
get_typed-entry_of d p fat16 c s good f inf =
    ground (arith, good.0 (w16 (p.fat1_lba + w16 (c * 2) / 512)), f.low, f.second)
get_typed-entry_of d p fat12 c s good f inf = ground (
  arith,
  good.0 (w16 (p.fat1_lba + w16 (c + c / 2) / 512)),
  good.0 (w16 (p.fat1_lba + w16 (c + c / 2) / 512 + 1)),
  f.low,
  f.second,
)

-- On a good drive `fat_get` changes the two sector buffers at most.
get_typed-state :
    (d : Drive) (p : Bpb) (t : FatType) (c : ℕ) (s : Chk)
    → IsGood d
    → (a : Buffer) × (b : Buffer) × ((get_typed d p t c s).0 ≡ record s { fatsec = a; wrk = b })
unfolding get_typed get_in_sector get_straddling
get_typed-state d p fat16 c s good =
    let lba = w16 (p.fat1_lba + entry_off fat16 c / 512) in
    (s.disk lba, s.wrk, ground (arith, good.0 lba))
get_typed-state d p fat12 c s good =
    let sec_i = entry_off fat12 c / 512 in
    let lba = w16 (p.fat1_lba + sec_i) in
    let lba' = w16 (p.fat1_lba + sec_i + 1) in
    (
      s.disk lba,
      if entry_off fat12 c % 512 == 511 then s.disk lba' else s.wrk,
      ground (arith, good.0 lba, good.0 lba'),
    )

-- So `fat_get` is the entry on the disk and a state that differs in the sector buffers at most.
pub fat_get-entry :
    (d : Drive) (p : Bpb) (c : ℕ) (s : Chk)
    → IsGood d
    → Fits p
    → InFat p p.fat_type c
    → (a : Buffer) × (b : Buffer) × (fat_get d p c s
        ≡ (record s { fatsec = a; wrk = b }, entry p s c))
unfolding fat_get
fat_get-entry d p c s good f inf =
    let (a, b, e) = get_typed-state d p p.fat_type c s good in
    (a, b, ap₂ (λ (x : Chk) (y : ℕ). (x, y)) e (get_typed-entry_of d p p.fat_type c s good f inf))

-- The entries are those of the disk, whatever else changes.
entry_of_same :
    (t : FatType) (p : Bpb) (s s' : Chk) (c : ℕ)
    → s'.disk ≡ s.disk
    → entry_of t p s' c ≡ entry_of t p s c
entry_of_same fat16 p s s' c e =
    ap (λ (disk : ℕ → Buffer). entry_of fat16 p (record s { disk = disk }) c) e
entry_of_same fat12 p s s' c e =
    ap (λ (disk : ℕ → Buffer). entry_of fat12 p (record s { disk = disk }) c) e

pub entry_same : (p : Bpb) (s s' : Chk) (c : ℕ) → s'.disk ≡ s.disk → entry p s' c ≡ entry p s c
entry_same p = entry_of_same p.fat_type p

module _ (d : Drive) (p : Bpb) (good : IsGood d) (f : Fits p) (c v : ℕ) (s : Chk)
    (fresh : IsFresh s) (small : c < 32768) where
  -- What the new bytes make of the entry that is set and of any other.
  entry_of-after :
      (t : FatType)
      → InFat p t c
      → v < (elim t [ fat16 ↦ 65536 | fat12 ↦ 4096 ])
      → (entry_of t p (after d p t c v s) c ≡ v)
        × ((e : ℕ) → InFat p t e → e ≢ c → entry_of t p (after d p t c v s) e ≡ entry_of t p s e)
  unfolding entry_off unpack12 pack12
  entry_of-after fat16 inf h =
      let b = after-HasWord d p good f c v s fresh small fat16 inf.1 in
      (
        ground (arith, b (c * 2), b (c * 2 + 1)),
        λ e low ne. ground (arith, b (e * 2), b (e * 2 + 1)),
      )
  entry_of-after fat12 inf h =
      let b = after-HasWord d p good f c v s fresh small fat12 inf.1 in
      let off = c + c / 2 in
      let x = fresh.bytes (p.fat1_lba + off / 512) (off % 512) in
      let y = fresh.bytes (p.fat1_lba + (off + 1) / 512) ((off + 1) % 512) in
      let o : w16 (c + c / 2) ≡ off = omega arith in
      (
        rw (o, b off (omega arith), b (off + 1) (omega arith)) (ground arith),
        λ e low ne. other e low ne b,
      )
    where
      other :
          (e : ℕ)
          → InFat p fat12 e
          → e ≢ c
          → HasWord d p fat12 c v s (new_word fat12 c (word p fat12 c s) v)
          → entry_of fat12 p (after d p fat12 c v s) e ≡ entry_of fat12 p s e
      other e low ne b =
          let off = c + c / 2 in
          let oe : w16 (e + e / 2) ≡ e + e / 2 = omega arith in
          let oc : w16 (c + c / 2) ≡ off = omega arith in
          let x = fresh.bytes (p.fat1_lba + off / 512) (off % 512) in
          let y = fresh.bytes (p.fat1_lba + (off + 1) / 512) ((off + 1) % 512) in
          rw (oe, b (e + e / 2) (omega arith), b (e + e / 2 + 1) (omega arith), oc)
            (unpack12_beside (fat_byte p s) c e v ne x y)

-- How many values an entry can take.
abbrev pub entry_limit : FatType → ℕ
entry_limit fat16 = 65536
entry_limit fat12 = 4096

-- On a good drive, with the second FAT right behind the first, and from a state whose sector buffer
-- holds nothing, `fat_set` of a cluster in the FAT and a flush make `fat_get` return the value that
-- was set, if an entry can hold it, and leave what `fat_get` returns for every other cluster in the
-- FAT, also for the neighbour with which a FAT12 entry shares a byte.
pub fat_get-fat_set :
    (d : Drive) (p : Bpb) (c v : ℕ) (s : Chk)
    → IsGood d
    → Fits p
    → IsFresh s
    → InFat p p.fat_type c
    → v < entry_limit p.fat_type
    → let s' = (fat_flush d p (fat_set d p c v s)).0 in
      ((fat_get d p c s').1 ≡ v)
      × ((e : ℕ) → InFat p p.fat_type e → e ≢ c → (fat_get d p e s').1 ≡ (fat_get d p e s).1)
unfolding fat_set fat_get
fat_get-fat_set d p c v s good f fresh inf h =
    let t = p.fat_type in
    let (here, others) = entry_of-after d p good f c v s fresh inf.0 t inf h in
    let s' = (fat_flush d p (set_typed d p t c v s)).0 in
    (
      get_typed-entry_of d p t c s' good f inf ∙ here,
      λ e low ne.
          get_typed-entry_of d p t e s' good f low
          ∙ others e low ne
          ∙ sym (get_typed-entry_of d p t e s good f low),
    )
