-- ===== src/Chkdsk/Recover.antt =====
-- The recovery of lost clusters as files in chkdsk.c, `make_chk_name` and `root_add_file`, and
-- `size_to_clusters`.
pub mod Entries
pub mod Added
pub mod Root
pub mod Sizes
mod Examples
use rmdos.Base.{
  ℕ, zero, suc, ◌+◌, ◌-◌, ◌*◌, ◌/◌, ◌%◌, Bool, true, false, ◌&&◌, ◌||◌, Option, none, some, leb,
  ltb, ◌==◌, if◌then◌else◌, w16, Buffer, buf_set, poke_word,
}
use rmdos.Chkdsk.{Bpb, Drive, Chk, fail, abs_read, abs_write}

-- The sum and the division are in assembly: `none` is the processor's divide error, where the
-- quotient does not fit a word or `bpc` is 0.
pub size_to_clusters : ℕ → ℕ → ℕ → Option ℕ
size_to_clusters sz_lo sz_hi bpc =
    if sz_lo == 0 && sz_hi == 0
    then some 0
    else (let sum = sz_lo + w16 (bpc + 65535) in
        let hi = w16 (sz_hi + sum / 65536) in
        let quot = (w16 sum + hi * 65536) / bpc in
        if leb bpc hi then none else some (if quot == 0 then 1 else quot))

-- The globals of the recovery beside those of the audit.
pub record Recovery : Type 0 where
  pub chk : Chk
  pub chkname : Buffer
  pub chk_num : ℕ
  pub recovered : ℕ

-- The number counts the files recovered in a run and stays far below 2 ^ 15, where `/` and `%` are
-- those of numbers. The loop of `make_chk_name` at `i`, with `left` digits to go.
pub name_digits : ℕ → ℕ → ℕ → Buffer → Buffer
name_digits zero i v b = b
name_digits (suc left) i v b = name_digits left (i - 1) (v / 10) (buf_set b i (v % 10 + 48))

-- "FILE", four digits and ".CHK".
pub make_chk_name : ℕ → Buffer → Buffer
unfolding name_digits
make_chk_name n b =
    let file = buf_set (buf_set (buf_set (buf_set b 0 70) 1 73) 2 76) 3 69 in
    let numbered = name_digits 4 7 n file in
    buf_set (buf_set (buf_set (buf_set (buf_set numbered 8 46) 9 67) 10 72) 11 75) 12 0

-- The loops of `root_add_file` that copy the name and that clear, at `i` with `left` bytes to go.
pub copy_name : ℕ → ℕ → ℕ → Buffer → Buffer → Buffer
copy_name zero i ent name sec = sec
copy_name (suc left) i ent name sec =
    copy_name left (i + 1) ent name (buf_set sec (ent + i) (name i))

pub clear_from : ℕ → ℕ → ℕ → Buffer → Buffer
clear_from zero i ent sec = sec
clear_from (suc left) i ent sec = clear_from left (i + 1) ent (buf_set sec (ent + i) 0)

-- The entry that is written at `ent`.
pub fill_entry : ℕ → Buffer → ℕ → ℕ → ℕ → Buffer → Buffer
unfolding copy_name clear_from
fill_entry ent name start sz_lo sz_hi sec =
    let named = copy_name 11 0 ent name sec in
    let cleared = clear_from 14 12 ent (buf_set named (ent + 11) 32) in
    poke_word (poke_word (poke_word cleared (ent + 26) start) (ent + 28) sz_lo) (ent + 30) sz_hi

-- 229 is 0xE5.
abbrev pub is_free : ℕ → Bool
is_free c0 = c0 == 0 || c0 == 229

-- The loop over the entries of a sector, at `ent` with `left` entries to go: the first that is free.
pub free_entry : ℕ → ℕ → Buffer → Option ℕ
free_entry zero ent sec = none
free_entry (suc left) ent sec =
    let rest = free_entry left (ent + 32) sec in if is_free (sec ent) then some ent else rest

-- What follows when an entry is free: it is written with its sector.
abbrev pub written : Recovery → Buffer → Option Chk → Bool × Recovery
written r sec none = (false, record r { chk = record (fail r.chk) { sec = sec } })
written r sec (some c) = (
  true,
  record r {
    chk = record c { sec = sec; fixes_applied = true };
    chk_num = w16 (r.chk_num + 1);
    recovered = w16 (r.recovered + 1);
  },
)

pub add_in_sector :
    Drive
    → ℕ
    → ℕ
    → ℕ
    → ℕ
    → Recovery
    → Buffer
    → Option ℕ
    → (Recovery → Bool × Recovery)
    → Bool × Recovery
add_in_sector d lba start sz_lo sz_hi r sec none go_on =
    go_on (record r { chk = record r.chk { sec = sec } })
add_in_sector d lba start sz_lo sz_hi r sec (some ent) go_on =
    let sec' = fill_entry ent r.chkname start sz_lo sz_hi sec in
    written r sec' (abs_write d r.chk lba sec')

-- The body of the loop over the sectors of the root, on what `abs_read` gives.
pub after_read :
    Drive
    → ℕ
    → ℕ
    → ℕ
    → ℕ
    → Recovery
    → Option Buffer
    → (Recovery → Bool × Recovery)
    → Bool × Recovery
after_read d lba start sz_lo sz_hi r none go_on = (false, record r { chk = fail r.chk })
after_read d lba start sz_lo sz_hi r (some sec) go_on =
    add_in_sector d lba start sz_lo sz_hi r sec (free_entry 16 0 sec) go_on

-- The loop over the sectors, with `left` sectors to go. `lba` is root_lba + s before the word that
-- the source computes it in.
pub add_loop : Drive → ℕ → ℕ → ℕ → ℕ → ℕ → Recovery → Bool × Recovery
add_loop d zero lba start sz_lo sz_hi r = (false, r)
add_loop d (suc left) lba start sz_lo sz_hi r =
    after_read d (w16 lba) start sz_lo sz_hi r (abs_read d r.chk (w16 lba))
      (add_loop d left (lba + 1) start sz_lo sz_hi)

-- `true` is the 0 and `false` the -1 of the source. The size is the product of the number of
-- clusters and the bytes of a cluster, in two words.
pub root_add_file : Bpb → Drive → ℕ → ℕ → Recovery → Bool × Recovery
root_add_file p d start nclust r =
    let size = nclust * w16 (p.spc * 512) in
    add_loop d p.root_secs p.root_lba start (w16 size) (w16 (size / 65536))
      (record r { chkname = make_chk_name r.chk_num r.chkname })
