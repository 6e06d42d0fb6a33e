-- ===== src/Chkdsk/Recover/Root.antt =====
-- `root_add_file` of chkdsk.c: the name of a recovered file, and its entry in the root directory.
use rmdos.Base.{
  ℕ, zero, suc, ◌+◌, ◌*◌, ◌/◌, ◌%◌, ◌<◌, [], ◌∷◌, ◌≡◌, refl, arith, w16, Buffer, buf_set, slice,
}
use rmdos.Chkdsk.{Bpb, Drive}
use rmdos.Chkdsk.Recover.{Recovery, name_digits, make_chk_name, root_add_file}
use rmdos.Chkdsk.Recover.Added.{Result, add_loop-Result}

set-bytes : (b : Buffer) (i v : ℕ) → ((k : ℕ) → b k < 256) → (k : ℕ) → buf_set b i v k < 256
set-bytes b i v p k = ground (arith, p k)

name_digits-bytes :
    (left i v : ℕ) (b : Buffer) → ((k : ℕ) → b k < 256) → (k : ℕ) → name_digits left i v b k < 256
unfolding name_digits
name_digits-bytes zero i v b p = p
name_digits-bytes (suc left) i v b p = name_digits-bytes left _ _ _ (set-bytes b i _ p)

make_chk_name-bytes :
    (n : ℕ) (b : Buffer) → ((k : ℕ) → b k < 256) → (k : ℕ) → make_chk_name n b k < 256
make_chk_name-bytes n b p =
    unfold make_chk_name in
    set-bytes _ 12 0 (
      set-bytes _ 11 75 (
        set-bytes _ 10 72 (
          set-bytes _ 9 67 (
            set-bytes _ 8 46 (
              name_digits-bytes 4 7 n _
                (set-bytes _ 3 69 (set-bytes _ 2 76 (set-bytes _ 1 73 (set-bytes _ 0 70 p)))))))))

-- The last decimal digit of a number, as a character.
abbrev pub digit : ℕ → ℕ
digit x = x % 10 + 48

digit_byte : (x : ℕ) → digit x % 256 ≡ digit x
digit_byte x = omega arith

slice-make_chk_name :
    (n : ℕ) (b : Buffer)
    → slice (make_chk_name n b) 0 11
      ≡ 70
        ∷ 73
        ∷ 76
        ∷ 69
        ∷ digit (n / 10 / 10 / 10)
        ∷ digit (n / 10 / 10)
        ∷ digit (n / 10)
        ∷ digit n
        ∷ 46
        ∷ 67
        ∷ 72
        ∷ []
unfolding make_chk_name
slice-make_chk_name n b =
    rw (digit_byte n, digit_byte (n / 10), digit_byte (n / 10 / 10), digit_byte (n / 10 / 10 / 10))
      refl

-- `root_add_file` returns 0 or -1. When it returns 0, a free entry of a sector of the root
-- directory, `root_lba` + s in a word, has become one with the attribute 0x20, zeros, the first cluster, the two words of the
-- size `nclust` * bytes of a cluster, and the first 11 bytes of the name: "FILE", four digits of the
-- file's number, and ".CH", the dot among them; no other byte of the disk changed, and the counters
-- moved on by one. When it returns -1, the disk is as it was.
pub root_add_file-Result :
    (p : Bpb) (d : Drive) (start nclust : ℕ) (r : Recovery)
    → start < 65536
    → ((k : ℕ) → r.chkname k < 256)
    → let n = r.chk_num in
      let size = nclust * w16 (p.spc * 512) in
      let named = record r { chkname = make_chk_name n r.chkname } in
      (slice named.chkname 0 11
        ≡ 70
          ∷ 73
          ∷ 76
          ∷ 69
          ∷ digit (n / 10 / 10 / 10)
          ∷ digit (n / 10 / 10)
          ∷ digit (n / 10)
          ∷ digit n
          ∷ 46
          ∷ 67
          ∷ 72
          ∷ [])
      × Result p.root_secs p.root_lba start
          (w16 size)
          (w16 (size / 65536))
          named
          (root_add_file p d start nclust r)
root_add_file-Result p d start nclust r s name =
    let n = r.chk_num in
    let size = nclust * w16 (p.spc * 512) in
    (
      slice-make_chk_name n r.chkname,
      unfold root_add_file in
          add_loop-Result d start (w16 size) (w16 (size / 65536)) s (omega arith) (omega arith)
            p.root_secs p.root_lba (record r { chkname = make_chk_name n r.chkname })
            (make_chk_name-bytes n r.chkname name),
    )
