-- ===== src/Chkdsk/Walk/Chain.antt =====
-- `walk_chain` of chkdsk.c on a chain of unmarked clusters.
use rmdos.Base.{
  ℕ, ◌+◌, ◌≤◌, ◌<◌, Bool, true, false, ◌||◌, List, [], ◌∷◌, ◌≡◌, refl, ap, ◌∙◌, arith, leb, ◌==◌,
  if◌then◌else◌, slt, w16, length,
}
use rmdos.Chkdsk.{fat12, Bpb, Drive, Chk}
use rmdos.Chkdsk.Fat.{unpack12}
use rmdos.Chkdsk.Bits.{bit_get, Bytes, bit_get_same}
use rmdos.Chkdsk.Fat.Flush.{IsGood}
use rmdos.Chkdsk.Fat.Entries.{entry, entry_of, entry_same}
use rmdos.Chkdsk.Walk.{chain_end, walk_chain}
use rmdos.Chkdsk.Walk.Steps.{IsVolume, IsWalk, AreFree, has, Walked, walk_loop-chain}

-- What the walk of a chain of `n` clusters leaves; `right` is whether the chain is as long as the
-- directory entry says.
pub record Audited (p : Bpb) (s : Chk) (cs : List ℕ) (right : Bool) (r : Chk) : Type 0 where
  pub disk : r.disk ≡ s.disk
  pub marks : (e : ℕ) → bit_get p e r ≡ (has e cs || bit_get p e s)
  pub walk_len : r.walk_len ≡ length cs
  pub used : r.used_clust ≡ w16 (s.used_clust + length cs)
  pub ok : r.walk_ok ≡ right
  pub bad : r.bad_chains ≡ (if right then s.bad_chains else w16 (s.bad_chains + 1))
  pub crossings : r.cross_links ≡ s.cross_links

-- The last test of the walk: `need_clust` is -1 for a directory, of any length, and otherwise the
-- number of clusters that a file of the size takes.
abbrev pub is_right : ℕ → ℕ → Bool
is_right need_clust n = leb 32768 need_clust || need_clust == n

chain_end-Audited :
    (d : Drive) (p : Bpb) (need_clust : ℕ) (s r : Chk) (c : ℕ) (cs : List ℕ)
    → need_clust < 65536
    → length (c ∷ cs) < 32768
    → Walked p (record s { walk_ok = true; walk_len = 0 }) (c ∷ cs) r
    → let is_dir = slt need_clust 0 in
      Audited p s
        (c ∷ cs)
        (is_right need_clust (length (c ∷ cs)))
        (chain_end d p is_dir (if is_dir then 1 else need_clust) r)
unfolding chain_end
chain_end-Audited d p need_clust s r c cs word short w =
    let e = w.walk_len in
    record {
      disk = ground (arith, w.disk);
      marks = λ k.
          bit_get_same p k r _ (ground arith)
          ∙ w.marks k
          ∙ ap (λ (b : Bool). has k (c ∷ cs) || b)
              (bit_get_same p k s (record s { walk_ok = true; walk_len = 0 }) refl);
      walk_len = ground (arith, e);
      used = ground (arith, w.used);
      ok = ground (arith, w.ok, e);
      bad = ground (arith, w.bad, e);
      crossings = ground (arith, w.crossings);
    }

AreFree-same :
    (p : Bpb) (s s' : Chk) (cs : List ℕ) → s'.bitmap ≡ s.bitmap → AreFree p s cs → AreFree p s' cs
AreFree-same p s s' [] e free = free
AreFree-same p s s' (c ∷ cs) e (low, high, unmarked, once, rest) =
    (low, high, bit_get_same p c s s' e ∙ unmarked, once, AreFree-same p s s' cs e rest)

-- The walk, where it goes from link to link by the tests of the code.
pub walk_chain-IsWalk :
    (d : Drive) (p : Bpb) (need_clust c : ℕ) (cs : List ℕ) (s : Chk)
    → IsGood d
    → IsVolume p
    → need_clust < 65536
    → length (c ∷ cs) < p.max_clust
    → IsWalk p (entry p s) c cs
    → AreFree p s (c ∷ cs)
    → Bytes s
    → s.hard_err ≡ false
    → Audited p s (c ∷ cs) (is_right need_clust (length (c ∷ cs))) (walk_chain d p c need_clust s)
unfolding walk_chain
walk_chain-IsWalk d p need_clust c cs s good v word room ch free bytes hard =
    let is_dir = slt need_clust 0 in
    let need = if is_dir then 1 else need_clust in
    let s0 = record s { walk_ok = true; walk_len = 0 } in
    let (r, e, w) =
      walk_loop-chain d p is_dir need (entry p s) cs p.max_clust 0 c s0 good v (omega arith) ch
        (AreFree-same p s s0 (c ∷ cs) refl free) (λ k. entry_same p s s0 k refl) bytes hard in
    let positive : slt 0 p.max_clust ≡ true = ground (arith, v.low) in
    let some_start : (c == 0) ≡ false = ground (arith, free.0) in
    rw (positive, some_start, e)
      (chain_end-Audited d p need_clust s r c cs word (omega (arith, v.low)) w)

-- A chain of a FAT12: each link but the last is the number of the next cluster, and the last is one
-- of the end marks, 0xff8 to 0xfff. The marks are not numbers of clusters, nor is 0xff7, a bad one.
abbrev pub IsChain : (ℕ → ℕ) → ℕ → List ℕ → Type 0
IsChain link c [] = 0xff8 ≤ link c
IsChain link c (n ∷ ns) = (link c ≡ n) × (n < 0xff7) × IsChain link n ns

entry_of_lt : (p : Bpb) (s : Chk) (c : ℕ) → entry_of fat12 p s c < 4096
unfolding unpack12
entry_of_lt p s c = ground arith

IsChain-IsWalk :
    (p : Bpb) (s : Chk) (link : ℕ → ℕ) (c : ℕ) (cs : List ℕ)
    → p.fat_eoc ≡ 0xff8
    → p.fat_bad ≡ 0xff7
    → ((k : ℕ) → link k < 4096)
    → AreFree p s (c ∷ cs)
    → IsChain link c cs
    → IsWalk p link c cs
IsChain-IsWalk p s link c [] eoc bad low free ch = (ground (arith, low c), ground (arith, low c))
IsChain-IsWalk p s link c (n ∷ ns) eoc bad low (h2, hmax, unmarked, once, rest) (to, small, ch) = (
  to,
  (ground arith, ground arith, ground (arith, rest.0)),
  IsChain-IsWalk p s link n ns eoc bad low rest ch,
)

-- On FAT12, with its end mark 0xff8 and bad mark 0xff7, on a good drive and a volume whose clusters
-- all have entries in the FAT, with a bitmap of bytes and no disk error so far, let `c` and `cs` be
-- a chain of the FAT on the disk: each entry but the last is the number of the next cluster, below
-- 0xff7, and the last is 0xff8 to 0xfff. If the clusters lie in the volume, are unmarked, all
-- different and fewer than the volume's limit, `walk_chain`, with a word for `need_clust`, marks
-- these clusters and no others and counts each once; it reports a bad chain exactly if the chain is
-- a file's and not as long as the file's size says, reports no crossing, and writes nothing to the
-- disk.
pub walk_chain-Audited :
    (d : Drive) (p : Bpb) (need_clust c : ℕ) (cs : List ℕ) (s : Chk)
    → IsGood d
    → IsVolume p
    → p.fat_type ≡ fat12
    → p.fat_eoc ≡ 0xff8
    → p.fat_bad ≡ 0xff7
    → need_clust < 65536
    → length (c ∷ cs) < p.max_clust
    → IsChain (entry p s) c cs
    → AreFree p s (c ∷ cs)
    → Bytes s
    → s.hard_err ≡ false
    → Audited p s (c ∷ cs) (is_right need_clust (length (c ∷ cs))) (walk_chain d p c need_clust s)
walk_chain-Audited d p need_clust c cs s good v t eoc bad word room ch free bytes hard =
    walk_chain-IsWalk d p need_clust c cs s good v word room
      (IsChain-IsWalk p s (entry p s) c cs eoc bad (λ k. rw t (entry_of_lt p s k)) free ch) free
      bytes hard
