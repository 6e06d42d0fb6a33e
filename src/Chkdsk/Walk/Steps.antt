-- ===== src/Chkdsk/Walk/Steps.antt =====
-- The rounds of `walk_chain` of chkdsk.c on a chain of unmarked clusters.
use Prim.{Unit}
use rmdos.Base.{
  ℕ, zero, suc, ◌+◌, ◌/◌, ◌%◌, ◌≤◌, ◌<◌, Bool, true, false, ◌||◌, List, [], ◌∷◌, ◌≡◌, ◌≢◌, inl, inr,
  refl, sym, ap, ◌∙◌, arith, ◌==◌, sge, w16, buf_set, ==→≡, ==→≢, Bool-cases, length,
}
use rmdos.Chkdsk.{Bpb, Drive, Chk}
use rmdos.Chkdsk.Bits.{
  outside, bit_set, bit_get, Bytes, bit_get-bit_set, bit_set_inside, bit_get_same, or_bit,
}
use rmdos.Chkdsk.Fat.Flush.{IsGood, Fits, InFat}
use rmdos.Chkdsk.Fat.Entries.{entry, fat_get-entry, entry_same}
use rmdos.Chkdsk.Walk.{stopped, onward, chain_end, claimed, after_get, walk_round, walk_loop}

-- A volume whose clusters all have an entry in the FAT.
pub record IsVolume (p : Bpb) : Type 0 where
  pub low : p.max_clust < 32768
  pub fats : Fits p
  pub in_fat : (c : ℕ) → c < p.max_clust → InFat p p.fat_type c

-- A link at which the walk goes on.
abbrev pub GoesOn : Bpb → ℕ → Type 0
GoesOn p n = (n ≢ p.fat_bad) × (sge n p.fat_eoc ≡ false) × (n ≢ 0)

-- The links lead from `c` through the clusters of the list, and at the last link the walk ends.
abbrev pub IsWalk : Bpb → (ℕ → ℕ) → ℕ → List ℕ → Type 0
IsWalk p link c [] = (link c ≢ p.fat_bad) × (sge (link c) p.fat_eoc ≡ true)
IsWalk p link c (n ∷ ns) = (link c ≡ n) × GoesOn p n × IsWalk p link n ns

abbrev pub has : ℕ → List ℕ → Bool
has e [] = false
has e (c ∷ cs) = e == c || has e cs

-- The clusters lie in the volume, none is marked, and none comes twice.
abbrev pub AreFree : Bpb → Chk → List ℕ → Type 0
AreFree p s [] = Unit
AreFree p s (c ∷ cs) =
    (2 ≤ c) × (c < p.max_clust) × (bit_get p c s ≡ false) × (has c cs ≡ false) × AreFree p s cs

-- The clusters `cs` are walked between `s` and `r`: marked, counted, and nothing reported.
pub record Walked (p : Bpb) (s : Chk) (cs : List ℕ) (r : Chk) : Type 0 where
  pub disk : r.disk ≡ s.disk
  pub marks : (e : ℕ) → bit_get p e r ≡ (has e cs || bit_get p e s)
  pub bytes : Bytes r
  pub walk_len : r.walk_len ≡ w16 (s.walk_len + length cs)
  pub used : r.used_clust ≡ w16 (s.used_clust + length cs)
  pub bad : r.bad_chains ≡ s.bad_chains
  pub crossings : r.cross_links ≡ s.cross_links
  pub ok : r.walk_ok ≡ s.walk_ok
  pub warn : r.warn_fix ≡ s.warn_fix
  pub hard : r.hard_err ≡ s.hard_err

module _ (d : Drive) (p : Bpb) (good : IsGood d) (v : IsVolume p) where
  -- One cluster: it is marked and counted, and the link is the entry on the disk.
  claim :
      (c : ℕ) (s : Chk)
      → 2 ≤ c
      → c < p.max_clust
      → bit_get p c s ≡ false
      → Bytes s
      → (is_dir : Bool) (need prev : ℕ)
      → (r : Chk) × (walk_round d p is_dir need prev c s
          ≡ after_get d p is_dir need c (r, entry p s c))
        × Walked p s (c ∷ []) r
  unfolding claimed walk_round
  claim c s a b free bytes is_dir need prev =
      let m = bit_set_inside p c s (omega (arith, v.low)) v.low a b in
      let held = record s {
        bitmap = buf_set s.bitmap (c / 8) (or_bit (s.bitmap (c / 8)) (c % 8));
        used_clust = w16 (s.used_clust + 1);
        walk_len = w16 (s.walk_len + 1);
      } in
      let (here, others, still) =
        (bit_get-bit_set p c s bytes (omega (arith, v.low)) v.low).0 a b in
      let (x, y, e) = fat_get-entry d p c held good v.fats (v.in_fat c b) in
      let inside : outside p c ≡ false = ground (arith, v.low) in
      let marked : (k : ℕ) → bit_get p k held ≡ (has k (c ∷ []) || bit_get p k s) = λ k.
        bit_get_same p k (bit_set p c s) held (ap (λ (u : Chk). u.bitmap) (sym m))
        ∙ elim (Bool-cases (k == c)) [
          | inl e ↦ rw (==→≡ k c e) (here ∙ ground arith)
          | inr e ↦ others k (==→≢ k c e) ∙ ground arith
        ] in
      let claims : claimed d p is_dir need c s ≡ held = rw (m, claimed) in
      (
        record held { fatsec = x; wrk = y },
        rw (inside, free, walk_round, claims, e, entry_same p s held c refl),
        record {
          disk = refl;
          marks = λ k. bit_get_same p k held _ refl ∙ marked k;
          bytes = λ j. (rw m at still) j;
          walk_len = refl;
          used = refl;
          bad = refl;
          crossings = refl;
          ok = refl;
          warn = refl;
          hard = refl;
        },
      )

-- A walk goes on after its first cluster.
Walked-cons :
    (p : Bpb) (s s1 r : Chk) (c : ℕ) (cs : List ℕ)
    → Walked p s (c ∷ []) s1
    → Walked p s1 cs r
    → Walked p s (c ∷ cs) r
Walked-cons p s s1 r c cs a b = record {
  disk = b.disk ∙ a.disk;
  marks = λ e. ground (arith, a.marks e, b.marks e);
  bytes = b.bytes;
  walk_len = omega (arith, a.walk_len, b.walk_len);
  used = omega (arith, a.used, b.used);
  bad = b.bad ∙ a.bad;
  crossings = b.crossings ∙ a.crossings;
  ok = b.ok ∙ a.ok;
  warn = b.warn ∙ a.warn;
  hard = b.hard ∙ a.hard;
}

-- Marking a cluster leaves free the others that were free.
AreFree-Walked :
    (p : Bpb) (s r : Chk) (c : ℕ) (cs : List ℕ)
    → Walked p s (c ∷ []) r
    → has c cs ≡ false
    → AreFree p s cs
    → AreFree p r cs
AreFree-Walked p s r c [] w away free = free
AreFree-Walked p s r c (k ∷ ks) w away (low, high, unmarked, once, rest) =
    (low, high, ground (arith, w.marks k), once, AreFree-Walked p s r c ks w (ground arith) rest)

module _ (d : Drive) (p : Bpb) (is_dir : Bool) (need : ℕ) where
  after_get-end :
      (c x : ℕ) (s : Chk)
      → s.hard_err ≡ false
      → x ≢ p.fat_bad
      → sge x p.fat_eoc ≡ true
      → after_get d p is_dir need c (s, x) ≡ stopped (chain_end d p is_dir need s)
  unfolding after_get
  after_get-end c x s hard good last =
      let e : (x == p.fat_bad) ≡ false = ground arith in rw (hard, e, last)

  after_get-onward :
      (c x : ℕ) (s : Chk)
      → s.hard_err ≡ false
      → GoesOn p x
      → after_get d p is_dir need c (s, x) ≡ onward x s
  unfolding after_get
  after_get-onward c x s hard (good, more, some_link) =
      let e : (x == p.fat_bad) ≡ false = ground arith in
      let e' : (x == 0) ≡ false = ground arith in rw (hard, e, more, e')

  -- With more rounds left than links to follow, the loop walks the whole chain.
  pub walk_loop-chain :
      (link : ℕ → ℕ) (ns : List ℕ) (left prev c : ℕ) (s : Chk)
      → IsGood d
      → IsVolume p
      → length ns < left
      → IsWalk p link c ns
      → AreFree p s (c ∷ ns)
      → ((k : ℕ) → entry p s k ≡ link k)
      → Bytes s
      → s.hard_err ≡ false
      → (r : Chk) × (walk_loop d p is_dir need left prev c s ≡ chain_end d p is_dir need r)
        × Walked p s (c ∷ ns) r
  unfolding walk_loop
  walk_loop-chain link ns zero prev c s good v room ch free links bytes hard = elim room [ ]
  walk_loop-chain link [] (suc left) prev c s good v room (fine, last) free links bytes hard =
      let (r, round, w) = claim d p good v c s free.0 free.1 free.2 bytes is_dir need prev in
      (
        r,
        rw (round, walk_loop, links c, after_get-end c (link c) r (w.hard ∙ hard) fine last) refl,
        w,
      )
  walk_loop-chain link (n ∷ ns) (suc left) prev c s good v room (at, on, ch) free links bytes hard =
      let (s1, round, w) = claim d p good v c s free.0 free.1 free.2 bytes is_dir need prev in
      let (low, high, unmarked, once, rest) = free in
      let (r, rest_eq, w') =
        walk_loop-chain link ns left c n s1 good v (omega arith) ch
          (AreFree-Walked p s s1 c (n ∷ ns) w once rest) (λ k. entry_same p s s1 k w.disk ∙ links k)
          w.bytes (w.hard ∙ hard) in
      (
        r,
        rw (round, walk_loop, links c, at, after_get-onward c n s1 (w.hard ∙ hard) on) rest_eq,
        Walked-cons p s s1 r c (n ∷ ns) w w',
      )
