-- ===== src/Chkdsk/Bits.antt =====
-- The cluster bitmap of chkdsk.c: `bit_set` and `bit_get`.
use Prim.Native.Nat.{◌^◌}
use rmdos.Base.{
  ℕ, zero, suc, ◌+◌, ◌/◌, ◌%◌, ◌≤◌, ◌<◌, Bool, true, false, not, ◌&&◌, ◌||◌, ◌≡◌, ◌≢◌, ◌⊎◌, inl,
  inr, refl, ap, arith, ltb, leb, ◌==◌, if◌then◌else◌, slt, sge, Buffer, buf_set, Bool-cases, ==→≡,
}
use rmdos.Chkdsk.{Bpb, Chk}

-- `(v >> bo) & 1` and `v | (1 << bo)`.
unfoldable pub test_bit : ℕ → ℕ → Bool
test_bit v bo = v / 2 ^ bo % 2 == 1

unfoldable pub or_bit : ℕ → ℕ → ℕ
unfolding test_bit
or_bit v bo = if test_bit v bo then v else v + 2 ^ bo

-- `c < 2 || c >= max_clust`.
abbrev pub outside : Bpb → ℕ → Bool
outside p c = slt c 2 || sge c p.max_clust

pub bit_set : Bpb → ℕ → Chk → Chk
unfolding or_bit
bit_set p c s =
    let bi = c / 8 in
    if outside p c || leb 4096 bi
    then s
    else record s { bitmap = buf_set s.bitmap bi (or_bit (s.bitmap bi) (c % 8)) }

unfoldable pub bit_get : Bpb → ℕ → Chk → Bool
unfolding test_bit
bit_get p c s =
    let bi = c / 8 in if outside p c || leb 4096 bi then false else test_bit (s.bitmap bi) (c % 8)

all_below : ℕ → (ℕ → Bool) → Bool
all_below zero f = true
all_below (suc n) f = f n && all_below n f

all_below-at : (n : ℕ) (f : ℕ → Bool) (k : ℕ) → all_below n f ≡ true → k < n → f k ≡ true
unfolding all_below
all_below-at zero f k h p = elim p [ ]
all_below-at (suc n) f k h p = elim (Bool-cases (k == n)) [
  | inl e ↦ rw (==→≡ k n e) (ground arith)
  | inr e ↦ all_below-at n f k (ground arith) (ground arith)
]

same : Bool → Bool → Bool
same true b = b
same false b = not b

same-≡ : (a b : Bool) → same a b ≡ true → a ≡ b
unfolding same
same-≡ true true h = refl
same-≡ true false h = cc
same-≡ false true h = cc
same-≡ false false h = refl

abbrev bit_ok : ℕ → ℕ → ℕ → Bool
bit_ok v i j = same (test_bit (or_bit v i) j) (if i == j then true else test_bit v j)

table :
    all_below 256 (λ v. all_below 8 (λ i. ltb (or_bit v i) 256 && all_below 8 (bit_ok v i))) ≡ true
unfolding all_below same or_bit test_bit
table = refl

and-left : (a b : Bool) → (a && b) ≡ true → a ≡ true
and-left true b h = refl
and-left false b h = h

and-right : (a b : Bool) → (a && b) ≡ true → b ≡ true
and-right true b h = h
and-right false b h = cc

or_bit_lem :
    (v i j : ℕ)
    → v < 256
    → i < 8
    → j < 8
    → (or_bit v i < 256) × (test_bit (or_bit v i) j ≡ (if i == j then true else test_bit v j))
or_bit_lem v i j p q r =
    let rows =
      all_below-at 256 (λ v. all_below 8 (λ i. ltb (or_bit v i) 256 && all_below 8 (bit_ok v i))) v
        table p in
    let row = all_below-at 8 (λ i. ltb (or_bit v i) 256 && all_below 8 (bit_ok v i)) i rows q in
    let small = and-left (ltb (or_bit v i) 256) (all_below 8 (bit_ok v i)) row in
    let cell = all_below-at 8 (bit_ok v i) j (and-right (ltb (or_bit v i) 256) _ row) r in
    (ground arith, same-≡ _ _ cell)

-- Every entry of the bitmap is a byte.
abbrev pub Bytes : Chk → Type 0
Bytes s = (j : ℕ) → s.bitmap j < 256

pub bit_set_inside :
    (p : Bpb) (c : ℕ) (s : Chk)
    → c < 65536
    → p.max_clust < 32768
    → 2 ≤ c
    → c < p.max_clust
    → bit_set p c s
      ≡ record s { bitmap = buf_set s.bitmap (c / 8) (or_bit (s.bitmap (c / 8)) (c % 8)) }
unfolding bit_set
bit_set_inside p c s word low a b = ground arith

-- `bit_set` of a cluster of the volume marks this cluster and no other, and keeps every entry of
-- the bitmap a byte; for a number outside the volume it changes nothing, and `bit_get` gives 0.
pub bit_get-bit_set :
    (p : Bpb) (c : ℕ) (s : Chk)
    → Bytes s
    → c < 65536
    → p.max_clust < 32768
    → (2 ≤ c
        → c < p.max_clust
        → (bit_get p c (bit_set p c s) ≡ true)
          × ((e : ℕ) → e ≢ c → bit_get p e (bit_set p c s) ≡ bit_get p e s)
          × Bytes (bit_set p c s))
      × ((c < 2) ⊎ (p.max_clust ≤ c) → (bit_set p c s ≡ s) × (bit_get p c s ≡ false))
bit_get-bit_set p c s bytes word low =
    (inside, λ out. (unfold bit_set in ground arith, unfold bit_get in ground arith))
  where
    at :
        (e : ℕ)
        → (or_bit (s.bitmap (c / 8)) (c % 8) < 256)
          × (test_bit (or_bit (s.bitmap (c / 8)) (c % 8)) (e % 8)
              ≡ (if c % 8 == e % 8 then true else test_bit (s.bitmap (c / 8)) (e % 8)))
    at e = or_bit_lem (s.bitmap (c / 8)) (c % 8) (e % 8) (bytes (c / 8)) (omega arith) (omega arith)

    inside :
        2 ≤ c
        → c < p.max_clust
        → (bit_get p c (bit_set p c s) ≡ true)
          × ((e : ℕ) → e ≢ c → bit_get p e (bit_set p c s) ≡ bit_get p e s)
          × Bytes (bit_set p c s)
    inside a b = rw (bit_set_inside p c s word low a b) (
      unfold bit_get in ground (arith, at c),
      λ e ne. unfold bit_get in ground (arith, at e),
      λ j. ground (arith, at c, bytes j),
    )

-- The marks are those of the bitmap, whatever else changes.
pub bit_get_same :
    (p : Bpb) (e : ℕ) (s s' : Chk) → s'.bitmap ≡ s.bitmap → bit_get p e s' ≡ bit_get p e s
unfolding bit_get
bit_get_same p e s s' h = ap (λ (b : Buffer). bit_get p e (record s { bitmap = b })) h
