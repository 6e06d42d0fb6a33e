-- ===== src/Exchange/Rows.antt =====
-- The exchange of two rows of bytes, as any reading of a row sees it.
use rmdos.Base.{
  ℕ, ◌+◌, ◌≤◌, ◌<◌, Bool, true, false, ◌≡◌, ◌≢◌, ◌⊎◌, inl, inr, ◌==◌, if◌then◌else◌, Buffer,
  Bool-cases, ==→≡, ==→≢,
}
use rmdos.Exchange.{swap_bytes}
use rmdos.Exchange.Bytes.{swap_bytes-first, swap_bytes-second, swap_bytes-other}

-- Rows of `w` bytes, row `k` at `off k`, and a reading of a row that depends on its bytes alone.
module _ {A : Type 0} (w : ℕ) (off : ℕ → ℕ) (view : Buffer → ℕ → A)
    (apart : (k i q : ℕ) → q < w → k ≢ i → (off k + q < off i) ⊎ (off i + w ≤ off k + q))
    (ordered : (i j : ℕ) → i < j → off i + w ≤ off j)
    (depends : (x y : Buffer) (k m : ℕ)
      → ((q : ℕ) → q < w → x (off k + q) ≡ y (off m + q))
      → view x k ≡ view y m) where
  pub swap_bytes-view :
      (i j k : ℕ) (pool : Buffer)
      → ((q : ℕ) → pool q < 256)
      → i < j
      → view (swap_bytes w 0 (off i) (off j) pool) k
        ≡ (if k == i then view pool j else if k == j then view pool i else view pool k)
  swap_bytes-view i j k pool bytes h =
      let swapped = swap_bytes w 0 (off i) (off j) pool in
      let behind = ordered i j h in
      elim (Bool-cases (k == i)) [
        | inl e ↦
            let here = ==→≡ k i e in
            rw e (
              depends swapped pool k j
                (λ q p. rw here (swap_bytes-first w (off i) (off j) pool behind bytes q p)))
        | inr e ↦ elim (Bool-cases (k == j)) [
          | inl e' ↦
              let here = ==→≡ k j e' in
              rw (e, e')
                (depends swapped pool k i
                  (λ q p. rw here (swap_bytes-second w (off i) (off j) pool behind bytes q p)))
          | inr e' ↦
              rw (e, e')
                (depends swapped pool k k (λ q p.
                  swap_bytes-other w (off i) (off j) pool behind bytes (off k + q)
                    (apart k i q p (==→≢ k i e)) (apart k j q p (==→≢ k j e'))))
        ]
      ]

-- What holds of the rows that changed places holds of the row that is there now.
pub after_exchange :
    {A : Type 0} (P : A → Type 0) (now first second kept : A) (b c : Bool)
    → now ≡ (if b then second else if c then first else kept)
    → P first
    → P second
    → P kept
    → P now
after_exchange P now first second kept true c e x y z = rw e y
after_exchange P now first second kept false true e x y z = rw e x
after_exchange P now first second kept false false e x y z = rw e z
