-- ===== src/Chkdsk/Fat/Pack.antt =====
-- The FAT12 entries of chkdsk.c as bits of words: `unpack12` and `pack12`.
use rmdos.Base.{
  ℕ, ◌+◌, ◌*◌, ◌/◌, ◌%◌, ◌<◌, Bool, true, false, ◌&&◌, ◌≡◌, ◌≢◌, inl, inr, arith, ◌==◌,
  if◌then◌else◌, Bool-cases,
}
use mathlib.Core.Path.{ap₂}
use rmdos.Chkdsk.Fat.{is_odd, unpack12, pack12}

-- Packing a FAT12 entry and unpacking it gives the entry, and packing one of the two entries that
-- share a word's middle byte leaves the other's bits.
pub unpack12-pack12 :
    (odd : Bool) (val value : ℕ)
    → val < 65536
    → value < 4096
    → (unpack12 odd (pack12 odd val value) ≡ value)
      × (pack12 odd val value < 65536)
      × (if odd
          then pack12 odd val value % 16 ≡ val % 16
          else pack12 odd val value / 4096 ≡ val / 4096)
unfolding unpack12 pack12
unpack12-pack12 true val value h k = omega arith
unpack12-pack12 false val value h k = omega arith

module _ (f : ℕ → ℕ) (c e v : ℕ) where
  -- The bytes of a FAT12 with the entry of cluster `c` set to `v`.
  abbrev packed : ℕ
  packed = pack12 (is_odd c) (f (c + c / 2) + f (c + c / 2 + 1) * 256) v

  abbrev with_entry : ℕ → ℕ
  with_entry k =
      if k == c + c / 2
      then packed % 256
      else if k == c + c / 2 + 1
      then packed / 256 % 256
      else f k

  -- The entry of any other cluster is as before: it shares a byte with the one that is set only
  -- if the two are neighbours, and then other bits of it.
  pub unpack12_beside :
      e ≢ c
      → f (c + c / 2) < 256
      → f (c + c / 2 + 1) < 256
      → unpack12 (is_odd e) (with_entry (e + e / 2) + with_entry (e + e / 2 + 1) * 256)
        ≡ unpack12 (is_odd e) (f (e + e / 2) + f (e + e / 2 + 1) * 256)
  unpack12_beside ne x y = elim (Bool-cases (e == c + 1 && is_odd e)) [
    | inl up ↦
        let q : e + e / 2 ≡ c + c / 2 + 1 = ground arith in
        let oe : is_odd e ≡ true = ground arith in
        let oc : is_odd c ≡ false = ground arith in
        let z1 : (c + c / 2 + 1 == c + c / 2) ≡ false = ground arith in
        let z2 : (c + c / 2 + 1 == c + c / 2 + 1) ≡ true = ground arith in
        let z3 : (c + c / 2 + 1 + 1 == c + c / 2) ≡ false = ground arith in
        let z4 : (c + c / 2 + 1 + 1 == c + c / 2 + 1) ≡ false = ground arith in
        rw (q, oe, oc, z1, z2, z3, z4) (unfold unpack12 pack12 in omega arith)
    | inr not_up ↦ elim (Bool-cases (c == e + 1 && is_odd c)) [
      | inl down ↦
          let q : e + e / 2 + 1 ≡ c + c / 2 = ground arith in
          let oe : is_odd e ≡ false = ground arith in
          let oc : is_odd c ≡ true = ground arith in
          let z1 : (e + e / 2 == c + c / 2) ≡ false = ground arith in
          let z2 : (e + e / 2 == c + c / 2 + 1) ≡ false = ground arith in
          let z3 : (c + c / 2 == c + c / 2) ≡ true = ground arith in
          rw (q, oe, oc, z1, z2, z3) (unfold unpack12 pack12 in omega arith)
      | inr not_down ↦
          let near : with_entry (e + e / 2) ≡ f (e + e / 2) = ground arith in
          let far : with_entry (e + e / 2 + 1) ≡ f (e + e / 2 + 1) = ground arith in
          ap₂ (λ (m n : ℕ). unpack12 (is_odd e) (m + n * 256)) near far
    ]
  ]
