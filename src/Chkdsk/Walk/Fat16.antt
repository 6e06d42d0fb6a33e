-- ===== src/Chkdsk/Walk/Fat16.antt =====
-- `walk_chain` of chkdsk.c on FAT16.
use rmdos.Base.{ℕ, ◌≤◌, ◌<◌, false, [], ◌∷◌, ◌≡◌, refl, arith}
use rmdos.Chkdsk.{Bpb, Drive, Chk}
use rmdos.Chkdsk.Bits.{bit_get, Bytes}
use rmdos.Chkdsk.Fat.Flush.{IsGood}
use rmdos.Chkdsk.Fat.Entries.{entry}
use rmdos.Chkdsk.Walk.{walk_chain}
use rmdos.Chkdsk.Walk.Steps.{IsVolume}
use rmdos.Chkdsk.Walk.Chain.{Audited, is_right, walk_chain-IsWalk}

-- With the end mark of FAT16, the word 0xfff8 that is -8 to a signed comparison, the walk stops at
-- its first cluster whatever that cluster's link is, as long as it is below 32768: a longer chain
-- counts as one cluster, and the rest of it stays unmarked.
pub walk_chain-fat16 :
    (d : Drive) (p : Bpb) (need_clust c : ℕ) (s : Chk)
    → IsGood d
    → IsVolume p
    → p.fat_eoc ≡ 0xfff8
    → p.fat_bad ≡ 0xfff7
    → entry p s c < 32768
    → need_clust < 65536
    → 2 ≤ c
    → c < p.max_clust
    → bit_get p c s ≡ false
    → Bytes s
    → s.hard_err ≡ false
    → Audited p s (c ∷ []) (is_right need_clust 1) (walk_chain d p c need_clust s)
walk_chain-fat16 d p need_clust c s good v eoc bad link word low high free bytes hard =
    walk_chain-IsWalk d p need_clust c [] s good v word (omega arith) (ground arith, ground arith)
      (low, high, free, refl, record {}) bytes hard
