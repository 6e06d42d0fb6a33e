-- ===== src/Dirlist/Examples.antt =====
-- The entries B.C and A.D, by extension, and an entry X that a search has found.
use rmdos.Base.{ℕ, zero, suc, ◌<◌, false, ◌≡◌, arith, length, Buffer, if◌then◌else◌, ◌==◌, zeroed}
use rmdos.Compare.{is_more}
use rmdos.Exchange.Order.{Rearranges}
use rmdos.Dirlist.{Dir, dir_ent_cmp, dir_sort_pool, dir_store_dta, dir_load_dta}
use rmdos.Dirlist.Entry.{entry, keys_order}
use rmdos.Dirlist.Keys.{dir_ent_cmp-keys_order}
use rmdos.Dirlist.Sorted.{IsTable, dir_sort_pool-IsSorted}
use rmdos.Dirlist.Loaded.{dir_load_dta-dir_store_dta}
use rmdos.Dirlist.Fields.{found_entry}

abbrev pool : Buffer
pool = λ j.
    if j == 0
    then 66
    else if j == 1
    then 46
    else if j == 2
    then 67
    else if j == 24
    then 65
    else if j == 25
    then 46
    else if j == 26
    then 68
    else 0

abbrev letter_x : Buffer
letter_x = λ j. if j == 30 then 88 else 0

abbrev by_ext : Buffer
by_ext = λ j. if j == 0 then 69 else 0

abbrev two_entries : Dir
two_entries = record {
  dta = letter_x;
  pool = pool;
  keys = by_ext;
  revs = zeroed;
  nent = 2;
  nkeys = 1;
}

two_entries-IsTable : IsTable 2 pool
two_entries-IsTable = record { bytes = λ j. ground arith; named = named }
  where
    named : (k : ℕ) → k < 2 → length (entry pool k).name < 13
    named zero h = omega arith
    named (suc zero) h = omega arith
    named (suc (suc k)) h = absurd (omega arith)

dir_sort_pool-IsSorted_example :
    let r = dir_sort_pool two_entries in
    (r ≡ record two_entries { pool = r.pool })
    × IsTable 2 r.pool
    × Rearranges 2 (entry pool) (entry r.pool)
    × ((a b : ℕ)
        → a < b
        → b < 2
        → is_more (keys_order 1 0 two_entries (entry r.pool a) (entry r.pool b)) ≡ false)
dir_sort_pool-IsSorted_example = dir_sort_pool-IsSorted two_entries two_entries-IsTable

dir_ent_cmp-keys_order_example :
    dir_ent_cmp two_entries pool 0 1 ≡ keys_order 1 0 two_entries (entry pool 0) (entry pool 1)
dir_ent_cmp-keys_order_example =
    dir_ent_cmp-keys_order two_entries pool 0 1 (λ j. ground arith) (omega arith) (omega arith)

dir_load_dta-dir_store_dta_example :
    found_entry (dir_load_dta 2 (record (dir_store_dta two_entries) { dta = zeroed })).dta
    ≡ found_entry letter_x
dir_load_dta-dir_store_dta_example =
    dir_load_dta-dir_store_dta two_entries zeroed (λ j. ground arith) (λ j. ground arith)
      (omega arith)
