-- ===== src/Chkdsk/Layout/Examples.antt =====
-- The boot sector of a 1.44 MB diskette.
use rmdos.Base.{false, some, ◌≡◌, refl, arith, minus_one, ◌==◌, if◌then◌else◌, Buffer}
use rmdos.Chkdsk.{fat12, Bpb}
use rmdos.Chkdsk.Examples.{state}
use rmdos.Chkdsk.Walk.Steps.{IsVolume}
use rmdos.Chkdsk.Layout.{parse_bpb, with_clusters, with_sectors, root_behind, parse_bpb-IsVolume}

abbrev boot : Buffer
boot = λ j.
    if j == 12
    then 2
    else if j == 13
    then 1
    else if j == 14
    then 1
    else if j == 16
    then 2
    else if j == 17
    then 224
    else if j == 19
    then 0x40
    else if j == 20
    then 0x0b
    else if j == 21
    then 0xf0
    else if j == 22
    then 9
    else 0

abbrev diskette : Bpb
diskette = record {
  spc = 1;
  reserved = 1;
  fats = 2;
  root_ents = 224;
  totsec = 2880;
  totsec_hi = 0;
  media = 0xf0;
  spf = 9;
  fat1_lba = 1;
  fat2_lba = 10;
  root_lba = 19;
  root_secs = 14;
  data_lba = 33;
  max_clust = 2849;
  fat_type = fat12;
  fat_eoc = 0xff8;
  fat_bad = 0xff7;
}

parses : parse_bpb boot state ≡ some (diskette, state)
unfolding parse_bpb with_clusters with_sectors root_behind
parses = refl

parse_bpb-IsVolume_example : IsVolume diskette × (false ≡ false) × (minus_one ≡ minus_one)
parse_bpb-IsVolume_example =
    parse_bpb-IsVolume boot state state diskette (λ j. ground arith) parses (omega arith) refl
      (omega arith) (omega arith) (omega arith) (omega arith)
