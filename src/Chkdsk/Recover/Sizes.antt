-- ===== src/Chkdsk/Recover/Sizes.antt =====
-- `size_to_clusters` of chkdsk.c rounds up.
use rmdos.Base.{
  ℕ, ◌+◌, ◌-◌, ◌*◌, ◌/◌, ◌≤◌, ◌<◌, false, ◌&&◌, ◌≡◌, refl, arith, some, leb, ◌==◌, w16, Bool-cases,
  inl, inr,
}
use native.Mathlib.Nat.{div-mul-le_self, lt-div-mul-add, le-div_iff_mul-le}
use rmdos.Chkdsk.Recover.{size_to_clusters}

-- What the assembly computes is the sum of the size and `bpc` - 1.
sum_words :
    (lo hi bpc : ℕ)
    → lo < 65536
    → hi < 65536
    → 0 < bpc
    → bpc < 65536
    → lo + hi * 65536 + bpc < bpc * 65536
    → let sum = lo + w16 (bpc + 65535) in
      let hi' = w16 (hi + sum / 65536) in
      (w16 sum + hi' * 65536 ≡ lo + hi * 65536 + (bpc - 1)) × (hi' < bpc)
sum_words lo hi bpc a b p q fits =
    let less : w16 (bpc + 65535) ≡ bpc - 1 = omega arith in rw less (omega arith, omega arith)

rounded :
    (size bpc : ℕ)
    → 0 < bpc
    → 0 < size
    → let n = (size + (bpc - 1)) / bpc in (0 < n) × (size ≤ n * bpc) × (n * bpc < size + bpc)
rounded size bpc p some_bytes =
    let n = (size + (bpc - 1)) / bpc in
    let below = div-mul-le_self (size + (bpc - 1)) bpc in
    let above = lt-div-mul-add {a = size + (bpc - 1)} {b = bpc} p in
    let (_, big) = le-div_iff_mul-le {k = bpc} {x = 1} {y = size + (bpc - 1)} p in
    (omega (arith, big (omega arith)), omega (arith, above), omega (arith, below))

not_above : (a b : ℕ) → b < a → leb a b ≡ false
not_above a b h = ground arith

positive : (n : ℕ) → 0 < n → (n == 0) ≡ false
positive n h = ground arith

-- For the two words of a size and a cluster of `bpc` bytes, where the size and a cluster take less
-- than 65536 clusters: `size_to_clusters` does not divide out of range, and gives the least number
-- of clusters that hold the size.
pub size_to_clusters_lem :
    (lo hi bpc : ℕ)
    → lo < 65536
    → hi < 65536
    → 0 < bpc
    → bpc < 65536
    → lo + hi * 65536 + bpc < bpc * 65536
    → (n : ℕ) × (size_to_clusters lo hi bpc ≡ some n)
      × (lo + hi * 65536 ≤ n * bpc)
      × (n * bpc < lo + hi * 65536 + bpc)
unfolding size_to_clusters
size_to_clusters_lem lo hi bpc a b p q fits = elim (Bool-cases (lo == 0 && hi == 0)) [
  | inl e ↦ (0, rw e refl, ground arith, ground arith)
  | inr e ↦
      let (sum, low) = sum_words lo hi bpc a b p q fits in
      let (pos, up, down) = rounded (lo + hi * 65536) bpc p (ground arith) in
      let fine : leb bpc (w16 (hi + (lo + w16 (bpc + 65535)) / 65536)) ≡ false =
        not_above _ _ low in
      let some_clusters : ((lo + hi * 65536 + (bpc - 1)) / bpc == 0) ≡ false = positive _ pos in
      ((lo + hi * 65536 + (bpc - 1)) / bpc, rw (e, fine, sum, some_clusters) refl, up, down)
]
