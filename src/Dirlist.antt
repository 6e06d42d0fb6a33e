-- ===== src/Dirlist.antt =====
-- The table of directory entries that DIR sorts, firmware/src/main/dos/inc/dirlist.c.
pub mod Entry
pub mod Keys
pub mod Sorted
pub mod Fields
pub mod Stored
pub mod Loaded
mod Examples
use rmdos.Base.{
  ℕ, zero, suc, ◌+◌, ◌-◌, ◌*◌, ◌/◌, ◌%◌, Bool, not, ◌&&◌, leb, ◌==◌, if◌then◌else◌, slt, Buffer,
  buf_set, peek_word, poke_word,
}
use rmdos.Compare.{Sign, less, same, more, is_more, flip, or_next, compare_from}
use rmdos.Exchange.{swap_bytes, exchange_sort}

abbrev pub dir_ent_size : ℕ
dir_ent_size = 24

abbrev pub dir_max_ents : ℕ
dir_max_ents = 256

-- The globals: the disk transfer area that a directory search fills, the entries, and the keys to
-- sort by.
pub record Dir : Type 0 where
  pub dta : Buffer
  pub pool : Buffer
  pub keys : Buffer
  pub revs : Buffer
  pub nent : ℕ
  pub nkeys : ℕ

abbrev pub dir_ent_off : ℕ → ℕ
dir_ent_off idx = idx * 24

-- `a & 0x8000`, as 0 or 1.
abbrev pub top_bit : ℕ → ℕ
top_bit a = a / 32768 % 2

pub dir_u16_cmp : ℕ → ℕ → Sign
dir_u16_cmp a b =
    if a == b
    then same
    else if top_bit a == top_bit b
    then (if slt a b then less else more)
    else if not (top_bit a == 0)
    then more
    else less

pub dir_name_cmp : Buffer → ℕ → ℕ → Sign
dir_name_cmp pool a b =
    compare_from 13 0 (λ i. pool (dir_ent_off a + i)) (λ i. pool (dir_ent_off b + i))

-- The loop of `dir_ext_at` at `i`, with `left` bytes to go. 46 is the dot.
pub ext_at_from : ℕ → ℕ → Buffer → ℕ → ℕ
ext_at_from zero i pool off = off + i
ext_at_from (suc left) i pool off =
    let rest = ext_at_from left (i + 1) pool off in
    let c = pool (off + i) in if c == 0 then off + i else if c == 46 then off + i + 1 else rest

pub dir_ext_at : Buffer → ℕ → ℕ
unfolding ext_at_from
dir_ext_at pool off = ext_at_from 13 0 pool off

pub dir_ext_cmp : Buffer → ℕ → ℕ → Sign
unfolding dir_ext_at
dir_ext_cmp pool a b =
    compare_from 13 0 (λ i. pool (dir_ext_at pool (dir_ent_off a) + i))
      (λ i. pool (dir_ext_at pool (dir_ent_off b) + i))

-- `buf_get(dir_pool, off + 13) & FA_DIRENT`, as 0 or 1.
abbrev pub dirent_bit : ℕ → ℕ
dirent_bit attr = attr / 16 % 2

-- The keys are the letters N, E, D, S and G.
pub dir_key_cmp : Buffer → ℕ → ℕ → ℕ → Sign
unfolding dir_name_cmp dir_ext_cmp dir_u16_cmp
dir_key_cmp pool a b key =
    let oa = dir_ent_off a in
    let ob = dir_ent_off b in
    if key == 78
    then dir_name_cmp pool a b
    else if key == 69
    then or_next (dir_ext_cmp pool a b) (dir_name_cmp pool a b)
    else if key == 68
    then or_next (dir_u16_cmp (peek_word pool (oa + 16)) (peek_word pool (ob + 16)))
        (dir_u16_cmp (peek_word pool (oa + 14)) (peek_word pool (ob + 14)))
    else if key == 83
    then or_next (dir_u16_cmp (peek_word pool (oa + 20)) (peek_word pool (ob + 20)))
        (dir_u16_cmp (peek_word pool (oa + 18)) (peek_word pool (ob + 18)))
    else if key == 71
    then (let da = dirent_bit (pool (oa + 13)) in
        let db = dirent_bit (pool (ob + 13)) in
        if not (da == 0) && db == 0 then less else if da == 0 && not (db == 0) then more else same)
    else same

-- The loop of `dir_ent_cmp` at key `i`, with `left` keys to go.
pub ent_cmp_from : ℕ → ℕ → Dir → Buffer → ℕ → ℕ → Sign
unfolding dir_key_cmp
ent_cmp_from zero i d pool a b = dir_name_cmp pool a b
ent_cmp_from (suc left) i d pool a b =
    let r = dir_key_cmp pool a b (d.keys i) in
    or_next (if d.revs i == 0 then r else flip r) (ent_cmp_from left (i + 1) d pool a b)

pub dir_ent_cmp : Dir → Buffer → ℕ → ℕ → Sign
unfolding ent_cmp_from
dir_ent_cmp d pool a b = ent_cmp_from d.nkeys 0 d pool a b

pub dir_ent_swap : ℕ → ℕ → Buffer → Buffer
dir_ent_swap a b pool = swap_bytes dir_ent_size 0 (dir_ent_off a) (dir_ent_off b) pool

pub dir_sort_pool : Dir → Dir
unfolding dir_ent_cmp dir_ent_swap
dir_sort_pool d = record d {
  pool = exchange_sort (λ pool i j. is_more (dir_ent_cmp d pool i j)) dir_ent_swap d.nent d.pool;
}

-- The second loop of `dir_store_dta` at `i`, with `left` bytes to go.
pub clear_name : ℕ → ℕ → ℕ → Buffer → Buffer
clear_name zero i off pool = pool
clear_name (suc left) i off pool = clear_name left (i + 1) off (buf_set pool (off + i) 0)

-- Its first loop, and the second behind it.
pub store_name : ℕ → ℕ → ℕ → Buffer → Buffer → Buffer
unfolding clear_name
store_name zero i off dta pool = pool
store_name (suc left) i off dta pool =
    let c = dta (30 + i) in
    let pool' = buf_set pool (off + i) c in
    let rest = store_name left (i + 1) off dta pool' in
    let cleared = clear_name (suc left) i off pool' in if c == 0 then cleared else rest

pub dir_store_dta : Dir → Dir
unfolding store_name
dir_store_dta d =
    if leb dir_max_ents d.nent
    then d
    else let off = dir_ent_off d.nent in
      let named = store_name 13 0 off d.dta d.pool in
      let flagged = buf_set named (off + 13) (d.dta 21) in
      let timed = poke_word flagged (off + 14) (peek_word d.dta 22) in
      let dated = poke_word timed (off + 16) (peek_word d.dta 24) in
      let low = poke_word dated (off + 18) (peek_word d.dta 26) in
      record d { pool = poke_word low (off + 20) (peek_word d.dta 28); nent = d.nent + 1 }

-- The loop of `dir_load_dta` at `i`, with `left` bytes to go.
pub load_name : ℕ → ℕ → ℕ → Buffer → Buffer → Buffer
load_name zero i off pool dta = dta
load_name (suc left) i off pool dta =
    load_name left (i + 1) off pool (buf_set dta (30 + i) (pool (off + i)))

pub dir_load_dta : ℕ → Dir → Dir
unfolding load_name
dir_load_dta idx d =
    let off = dir_ent_off idx in
    let named = load_name 13 0 off d.pool d.dta in
    let flagged = buf_set named 21 (d.pool (off + 13)) in
    let timed = poke_word flagged 22 (peek_word d.pool (off + 14)) in
    let dated = poke_word timed 24 (peek_word d.pool (off + 16)) in
    let low = poke_word dated 26 (peek_word d.pool (off + 18)) in
    record d { dta = poke_word low 28 (peek_word d.pool (off + 20)) }
