-- ===== src/Chkdsk/Walk.antt =====
-- The walk of one cluster chain in chkdsk.c: `walk_chain`.
pub mod Steps
pub mod Chain
pub mod Fat16
use rmdos.Base.{
  ℕ, zero, suc, ◌+◌, ◌-◌, ◌<◌, Bool, true, false, not, ◌&&◌, ◌||◌, ◌==◌, if◌then◌else◌, w16, slt,
  sge,
}
use rmdos.Chkdsk.{Bpb, Drive, Chk}
use rmdos.Chkdsk.Fat.{fat_get, fat_set}
use rmdos.Chkdsk.Bits.{outside, bit_set, bit_get}

-- `walk_ok = 0; bad_chains = bad_chains + 1; warn_fix = 1;`
abbrev pub bad_chain : Chk → Chk
bad_chain s = record s { walk_ok = false; bad_chains = w16 (s.bad_chains + 1); warn_fix = true }

-- What a round of the loop does: it returns, or it goes on at the next cluster.
pub data Round : Type 0 where
  stopped : Chk → Round
  onward : ℕ → Chk → Round

-- `is_dir` and `need` are what `need_clust` says of the chain.
module _ (d : Drive) (p : Bpb) (is_dir : Bool) (need : ℕ) where
  -- The chain ends at the mark of its end.
  pub chain_end : Chk → Chk
  chain_end s =
      if slt s.walk_len need
      then bad_chain s
      else if not is_dir && slt need s.walk_len
      then bad_chain s
      else s

  -- The cluster belongs to a chain that was walked before.
  crossed : ℕ → Chk → Chk
  crossed prev s =
      let s' = record s { cross_links = w16 (s.cross_links + 1); warn_fix = true } in
      if s.fixing && sge prev 2 then fat_set d p prev p.fat_eoc s' else s'

  -- The cluster is marked and counted.
  claimed : ℕ → Chk → Chk
  claimed c s =
      let s' = bit_set p c s in
      record s' { used_clust = w16 (s'.used_clust + 1); walk_len = w16 (s'.walk_len + 1) }

  -- The tests of the link that `fat_get` gave.
  after_get : ℕ → Chk × ℕ → Round
  unfolding chain_end
  after_get c (s, next) =
      if s.hard_err
      then stopped s
      else if next == p.fat_bad
      then stopped (bad_chain s)
      else if sge next p.fat_eoc
      then stopped (chain_end s)
      else if next == 0
      then stopped (let b = bad_chain s in if s.fixing then fat_set d p c p.fat_eoc b else b)
      else onward next s

  walk_round : ℕ → ℕ → Chk → Round
  unfolding crossed claimed after_get
  walk_round prev c s =
      if outside p c
      then stopped (bad_chain s)
      else if bit_get p c s
      then stopped (crossed prev s)
      else after_get c (fat_get d p c (claimed c s))

  -- The loop, with the rounds left until `steps` reaches `max_clust`.
  pub walk_loop : ℕ → ℕ → ℕ → Chk → Chk
  unfolding walk_round
  walk_loop zero prev c s = bad_chain s
  walk_loop (suc left) prev c s = elim (walk_round prev c s) [
    | stopped s' ↦ s'
    | onward next s' ↦ walk_loop left c next s'
  ]

-- A `need_clust` below 0 is a directory's.
pub walk_chain : Drive → Bpb → ℕ → ℕ → Chk → Chk
unfolding walk_loop
walk_chain d p start need_clust s =
    let is_dir = slt need_clust 0 in
    let need = if is_dir then 1 else need_clust in
    let s' = record s { walk_ok = true; walk_len = 0 } in
    let rounds = if slt 0 p.max_clust then p.max_clust else 0 in
    if start == 0
    then (if slt 0 need then bad_chain s' else s')
    else walk_loop d p is_dir need rounds 0 start s'
