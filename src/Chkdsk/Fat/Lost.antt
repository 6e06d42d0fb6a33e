-- ===== src/Chkdsk/Fat/Lost.antt =====
-- The sector buffer of chkdsk.c when a `fat_get` comes between `fat_set` and `fat_flush`.
use rmdos.Base.{ℕ, ◌+◌, ◌*◌, ◌/◌, Bool, ◌≡◌, inl, refl, ap, ◌∙◌, arith, w16}
use rmdos.Chkdsk.{FatType, fat12, fat16, Bpb, Drive, Chk}
use rmdos.Chkdsk.Fat.{set_typed, get_typed, fat_get, fat_set, fat_flush, entry_off}
use rmdos.Chkdsk.Fat.Flush.{InFat, IsGood, Fits, IsFresh, flushed, fat_flush-dirty}
use rmdos.Chkdsk.Fat.Store.{set_inside, set_typed-inside}

-- What `fat_get` does to the state on FAT16: the sector of the entry takes the buffer's place,
-- and the buffer's index and dirty flag stay.
get_typed-fat16 :
    (d : Drive) (p : Bpb) (c : ℕ) (s : Chk)
    → IsGood d
    → (get_typed d p fat16 c s).0
      ≡ record s { fatsec = s.disk (w16 (p.fat1_lba + entry_off fat16 c / 512)) }
unfolding get_typed
get_typed-fat16 d p c s good = rw (good.0 (w16 (p.fat1_lba + entry_off fat16 c / 512)), get_typed)

-- The flush then writes the sector of `e` where that of `c` lies.
flushed_elsewhere :
    (d : Drive) (p : Bpb) (c e : ℕ) (s : Chk)
    → Fits p
    → InFat p fat16 c
    → InFat p fat16 e
    → (k : ℕ)
    → flushed p
        (record s {
          fatsec = s.disk (w16 (p.fat1_lba + entry_off fat16 e / 512));
          fat_sec_idx = entry_off fat16 c / 512;
        })
        (p.fat1_lba + c / 256)
        k
      ≡ s.disk (p.fat1_lba + e / 256) k
unfolding entry_off
flushed_elsewhere d p c e s f small small' k =
    let i : w16 (c * 2) / 512 ≡ c / 256 = omega arith in
    let j : w16 (e * 2) / 512 ≡ e / 256 = omega arith in
    let x : w16 (p.fat1_lba + c / 256) ≡ p.fat1_lba + c / 256 = omega (arith, f.low, f.second) in
    let y : w16 (p.fat2_lba + c / 256) ≡ p.fat2_lba + c / 256 = omega (arith, f.low, f.second) in
    let z : w16 (p.fat1_lba + e / 256) ≡ p.fat1_lba + e / 256 = omega (arith, f.low, f.second) in
    rw (i, j, x, y, z) (ground (arith, f.low, f.second))

-- The loss on FAT16, by the type that is passed.
lost_typed :
    (d : Drive) (p : Bpb) (c v e : ℕ) (s : Chk)
    → IsGood d
    → Fits p
    → IsFresh s
    → InFat p fat16 c
    → InFat p fat16 e
    → (t : FatType) → t ≡ fat16
    → (k : ℕ)
    → (fat_flush d p (get_typed d p t e (set_typed d p t c v s)).0).0.disk (p.fat1_lba + c / 256) k
      ≡ s.disk (p.fat1_lba + e / 256) k
lost_typed d p c v e s good f fresh small small' fat12 is16 k = cc
lost_typed d p c v e s good f fresh small small' fat16 is16 k =
    let st = set_inside p fat16 c v s in
    let held = record st { fatsec = s.disk (w16 (p.fat1_lba + entry_off fat16 e / 512)) } in
    ap (λ (u : Chk). (fat_flush d p (get_typed d p fat16 e u).0).0.disk (p.fat1_lba + c / 256) k)
      (set_typed-inside d p good f c v s fresh small.0 fat16 (inl refl))
    ∙ ap (λ (u : Chk). (fat_flush d p u).0.disk (p.fat1_lba + c / 256) k)
        (get_typed-fat16 d p e st good)
    ∙ ap (λ (u : Chk × Bool). u.0.disk (p.fat1_lba + c / 256) k)
        (fat_flush-dirty d p good f held refl (unfold entry_off in omega arith))
    ∙ flushed_elsewhere d p c e s f small small' k

-- On FAT16, with a good drive, the second FAT right behind the first and an empty sector buffer, a
-- `fat_get` of any cluster `e` between a `fat_set` of cluster `c` and the flush loses the update: the flush writes the FAT sector of `e`,
-- as it stood on the disk before, over the FAT sector of `c`.
pub fat_flush-fat_get-fat_set :
    (d : Drive) (p : Bpb) (c v e : ℕ) (s : Chk)
    → IsGood d
    → Fits p
    → IsFresh s
    → p.fat_type ≡ fat16
    → InFat p fat16 c
    → InFat p fat16 e
    → let s' = (fat_flush d p (fat_get d p e (fat_set d p c v s)).0).0 in
      (k : ℕ) → s'.disk (p.fat1_lba + c / 256) k ≡ s.disk (p.fat1_lba + e / 256) k
unfolding fat_set fat_get
fat_flush-fat_get-fat_set d p c v e s good f fresh is16 small small' =
    lost_typed d p c v e s good f fresh small small' p.fat_type is16
