-- ===== src/Exchange.antt =====
-- The exchange sort that the tools write out as two nested loops, over any table of rows:
-- `dir_sort_pool` of firmware/src/main/dos/inc/dirlist.c and `main` of firmware/src/main/dos/sort.c.
pub mod Order
pub mod Bytes
pub mod Rows
use rmdos.Base.{
  ℕ, zero, suc, ◌+◌, ◌<◌, Bool, true, false, ◌≡◌, if◌then◌else◌, ◌==◌, Buffer, buf_set,
}

-- A table of rows in a state, and what a program does to it: it compares two rows, and it exchanges
-- them. `view` is the row as a value, `above` the order of these values, and `IsFine` what the
-- state has to satisfy; the laws are about rows below `limit`.
pub record Table (S A : Type 0) : Type 1 where
  pub limit : ℕ
  pub IsFine : S → Type 0
  pub view : S → ℕ → A
  pub above : A → A → Bool
  pub exceeds : S → ℕ → ℕ → Bool
  pub exchange : ℕ → ℕ → S → S
  pub exceeds_view :
      (s : S) (i j : ℕ)
      → IsFine s
      → i < limit
      → j < limit
      → exceeds s i j ≡ above (view s i) (view s j)
  pub exchange-IsFine : (i j : ℕ) (s : S) → IsFine s → i < j → j < limit → IsFine (exchange i j s)
  pub exchange_view :
      (i j k : ℕ) (s : S)
      → IsFine s
      → i < j
      → j < limit
      → k < limit
      → view (exchange i j s) k
        ≡ (if k == i then view s j else if k == j then view s i else view s k)
  -- The order is that of a comparison.
  pub above_asym : (x y : A) → above x y ≡ true → above y x ≡ false
  pub above_trans : (x y z : A) → above x y ≡ false → above y z ≡ false → above x z ≡ false

module _ {S : Type 0} (exceeds : S → ℕ → ℕ → Bool) (exchange : ℕ → ℕ → S → S) where
  -- The inner loop at `j`, with `left` rows to go.
  sort_inner : ℕ → ℕ → ℕ → S → S
  sort_inner zero i j s = s
  sort_inner (suc left) i j s =
      sort_inner left i (j + 1) (if exceeds s i j then exchange i j s else s)

  -- The outer loop at `i`, with `left` rows to go.
  sort_outer : ℕ → ℕ → S → S
  unfolding sort_inner
  sort_outer zero i s = s
  sort_outer (suc left) i s = sort_outer left (i + 1) (sort_inner left i (i + 1) s)

  pub exchange_sort : ℕ → S → S
  unfolding sort_outer
  exchange_sort n s = sort_outer n 0 s

-- The loop that exchanges two rows of bytes, at byte `i` with `left` to go.
pub swap_bytes : ℕ → ℕ → ℕ → ℕ → Buffer → Buffer
swap_bytes zero i oa ob b = b
swap_bytes (suc left) i oa ob b =
    swap_bytes left (i + 1) oa ob (buf_set (buf_set b (oa + i) (b (ob + i))) (ob + i) (b (oa + i)))
