-- ===== src/Chkdsk/Recover/Examples.antt =====
-- A lost cluster becomes a file on the small volume.
use rmdos.Base.{ℕ, ◌*◌, ◌<◌, ◌≤◌, [], ◌∷◌, ◌≡◌, arith, zeroed, slice, some}
use rmdos.Chkdsk.{fat12}
use rmdos.Chkdsk.Examples.{drive, volume, state}
use rmdos.Chkdsk.Recover.{Recovery, make_chk_name, root_add_file, size_to_clusters}
use rmdos.Chkdsk.Recover.Added.{Result}
use rmdos.Chkdsk.Recover.Root.{root_add_file-Result}
use rmdos.Chkdsk.Recover.Sizes.{size_to_clusters_lem}

abbrev recovery : Recovery
recovery = record { chk = state; chkname = zeroed; chk_num = 12; recovered = 0 }

abbrev named : Recovery
named = record recovery { chkname = make_chk_name 12 zeroed }

root_add_file-Result_example :
    let p = volume fat12 2 in
    (slice named.chkname 0 11 ≡ 70 ∷ 73 ∷ 76 ∷ 69 ∷ 48 ∷ 48 ∷ 49 ∷ 50 ∷ 46 ∷ 67 ∷ 72 ∷ [])
    × Result p.root_secs p.root_lba 9 512 0 named (root_add_file p drive 9 1 recovery)
root_add_file-Result_example =
    root_add_file-Result (volume fat12 2) drive 9 1 recovery (omega arith) (λ k. omega arith)

size_to_clusters_lem_example :
    (n : ℕ) × (size_to_clusters 1 0 512 ≡ some n) × (1 ≤ n * 512) × (n * 512 < 513)
size_to_clusters_lem_example =
    size_to_clusters_lem 1 0 512 (omega arith) (omega arith) (omega arith) (omega arith)
      (omega arith)
