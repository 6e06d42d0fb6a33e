-- ===== src/Dirlist/Sorted.antt =====
-- `dir_sort_pool` of dirlist.c orders the entries by the keys.
use rmdos.Base.{
  ℕ, ◌+◌, ◌*◌, ◌≤◌, ◌<◌, false, ◌≡◌, ◌≢◌, ◌⊎◌, inl, inr, refl, ap, ◌∙◌, arith, ltb, ◌==◌,
  if◌then◌else◌, Buffer, Bool-cases, length,
}
use mathlib.Core.Path.{ap₂}
use rmdos.Compare.{is_more}
use rmdos.Compare.Texts.{text_at_same}
use rmdos.Exchange.{Table}
use rmdos.Exchange.Bytes.{swap_bytes_lt}
use rmdos.Exchange.Rows.{swap_bytes-view, after_exchange}
use rmdos.Exchange.Order.{Rearranges, exchange_sort-IsSorted}
use rmdos.Dirlist.{Dir, dir_ent_off, dir_ent_size, dir_ent_cmp, dir_ent_swap, dir_sort_pool}
use rmdos.Dirlist.Entry.{Entry, entry_eq, entry, IsBytes, IsNamed, keys_order, keys_order-IsOrder}
use rmdos.Dirlist.Keys.{dir_ent_cmp-keys_order}

pub entry_same :
    (x y : Buffer) (k m : ℕ)
    → ((q : ℕ) → q < dir_ent_size → x (dir_ent_off k + q) ≡ y (dir_ent_off m + q))
    → entry x k ≡ entry y m
entry_same x y k m h =
    let name = text_at_same 13 (dir_ent_off k) (dir_ent_off m) x y (λ q p. h q (omega arith)) in
    entry_eq (entry x k) (entry y m) name (h 13 (omega arith)) (word 14 (omega arith))
      (word 16 (omega arith)) (word 18 (omega arith)) (word 20 (omega arith))
  where
    word :
        (q : ℕ)
        → q + 1 < 24
        → x (dir_ent_off k + q) + x (dir_ent_off k + q + 1) * 256
          ≡ y (dir_ent_off m + q) + y (dir_ent_off m + q + 1) * 256
    word q p =
        ap₂ (λ (a b : ℕ). a + b * 256) (h q (omega arith))
          (ap x (omega arith) ∙ h (q + 1) p ∙ ap y (omega arith))

dir_ent_swap-entry :
    (i j k : ℕ) (pool : Buffer)
    → IsBytes pool
    → i < j
    → entry (dir_ent_swap i j pool) k
      ≡ (if k == i then entry pool j else if k == j then entry pool i else entry pool k)
unfolding dir_ent_swap
dir_ent_swap-entry i j k pool bytes h =
    swap_bytes-view dir_ent_size dir_ent_off entry apart (λ i j p. omega arith)
      (λ x y k m e. entry_same x y k m e) i j k pool bytes h
  where
    apart : (k i q : ℕ) → q < 24 → k ≢ i → (k * 24 + q < i * 24) ⊎ (i * 24 + 24 ≤ k * 24 + q)
    apart k i q p ne = elim (Bool-cases (ltb k i)) [
      | inl e ↦ inl (ground arith)
      | inr e ↦ inr (ground arith)
    ]

-- A table of bytes with `n` entries whose names are ended by a NUL.
pub record IsTable (n : ℕ) (pool : Buffer) : Type 0 where
  pub bytes : IsBytes pool
  pub named : (k : ℕ) → k < n → IsNamed pool k

dir_ent_swap-IsTable :
    (n i j : ℕ) (pool : Buffer) → IsTable n pool → i < j → j < n → IsTable n (dir_ent_swap i j pool)
dir_ent_swap-IsTable n i j pool t h p = record {
  bytes = λ k.
      unfold dir_ent_swap in
      swap_bytes_lt dir_ent_size (dir_ent_off i) (dir_ent_off j) pool (omega arith) t.bytes k;
  named = λ k q.
      after_exchange (λ (e : Entry). length e.name < 13) _ _ _ _ (k == i) (k == j)
        (dir_ent_swap-entry i j k pool t.bytes h) (t.named i (omega arith)) (t.named j p)
        (t.named k q);
}

-- The table of `n` entries, ordered by the keys of `d`.
dir_table : ℕ → Dir → Table Buffer Entry
dir_table n d = record {
  limit = n;
  IsFine = IsTable n;
  view = entry;
  above = λ x y. is_more (keys_order d.nkeys 0 d x y);
  exceeds = λ pool i j. is_more (dir_ent_cmp d pool i j);
  exchange = dir_ent_swap;
  exceeds_view = λ pool i j t x y.
      ap is_more (dir_ent_cmp-keys_order d pool i j t.bytes (t.named i x) (t.named j y));
  exchange-IsFine = λ i j pool t x y. dir_ent_swap-IsTable n i j pool t x y;
  exchange_view = λ i j k pool t x y z. dir_ent_swap-entry i j k pool t.bytes x;
  above_asym = λ x y h. ground (arith, (keys_order-IsOrder d.nkeys 0 d).flips x y);
  above_trans = (keys_order-IsOrder d.nkeys 0 d).trans;
}

-- On a table of bytes whose names are ended by a NUL within their 13 bytes, `dir_sort_pool` keeps
-- the entries, each of them once, and puts them in the order of the keys: by each key in turn,
-- reversed where the command line says so, and by the names at last. The table stays one whose
-- names are ended, and nothing but the pool changes.
pub dir_sort_pool-IsSorted :
    (d : Dir)
    → IsTable d.nent d.pool
    → let r = dir_sort_pool d in
      (r ≡ record d { pool = r.pool })
      × IsTable d.nent r.pool
      × Rearranges d.nent (entry d.pool) (entry r.pool)
      × ((a b : ℕ)
          → a < b
          → b < d.nent
          → is_more (keys_order d.nkeys 0 d (entry r.pool a) (entry r.pool b)) ≡ false)
unfolding dir_sort_pool dir_table
dir_sort_pool-IsSorted d t =
    let (fine, rows, sorted) =
      exchange_sort-IsSorted (dir_table d.nent d) d.nent d.pool (omega arith) t in
    (refl, fine, rows, sorted)
