-- ===== src/Exchange/Bytes.antt =====
-- The exchange of two rows of bytes.
use rmdos.Base.{
  refl, true, false, ◌⊎◌, ℕ, zero, suc, ◌+◌, ◌-◌, ◌≤◌, ◌<◌, ◌&&◌, ◌≡◌, ◌∙◌, inl, inr, Bool-cases,
  ==→≡, arith, ltb, leb, ◌==◌, if◌then◌else◌, Buffer, buf_set,
}
use rmdos.Exchange.{swap_bytes}

-- The bytes of the two rows, the second behind the first, change places, and no other byte changes.
pub swap_bytes_lem :
    (left i oa ob j : ℕ) (b : Buffer)
    → oa + i + left ≤ ob + i
    → ((k : ℕ) → b k < 256)
    → swap_bytes left i oa ob b j ≡ (
        if leb (oa + i) j && ltb j (oa + i + left)
        then b (j - oa + ob)
        else if leb (ob + i) j && ltb j (ob + i + left)
        then b (j - ob + oa)
        else b j)
unfolding swap_bytes
swap_bytes_lem zero i oa ob j b apart bytes = ground arith
swap_bytes_lem (suc left) i oa ob j b apart bytes =
    let b' = buf_set (buf_set b (oa + i) (b (ob + i))) (ob + i) (b (oa + i)) in
    let x = bytes (oa + i) in
    let y = bytes (ob + i) in
    let rest =
      swap_bytes_lem left (i + 1) oa ob j b' (omega arith) (λ k. ground (arith, bytes k)) in
    elim (Bool-cases (j == oa + i)) [
      | inl e ↦
          let j_is = ==→≡ j (oa + i) e in
          let at : j - oa + ob ≡ ob + i = omega arith in rest ∙ rw (at) (ground arith)
      | inr e ↦ elim (Bool-cases (j == ob + i)) [
        | inl e' ↦
            let j_is = ==→≡ j (ob + i) e' in
            let at : j - ob + oa ≡ oa + i = omega arith in rest ∙ rw (at) (ground arith)
        | inr e' ↦ rest ∙ ground arith
      ]
    ]

module _ (w oa ob : ℕ) (b : Buffer) (apart : oa + w ≤ ob) (bytes : (k : ℕ) → b k < 256) where
  swap_at :
      (j : ℕ)
      → swap_bytes w 0 oa ob b j ≡ (
          if leb oa j && ltb j (oa + w)
          then b (j - oa + ob)
          else if leb ob j && ltb j (ob + w)
          then b (j - ob + oa)
          else b j)
  swap_at j =
      let x : oa + 0 ≡ oa = omega arith in
      let y : ob + 0 ≡ ob = omega arith in
      rw (x, y) at (swap_bytes_lem w 0 oa ob j b (omega arith) bytes)

  pub swap_bytes-first : (q : ℕ) → q < w → swap_bytes w 0 oa ob b (oa + q) ≡ b (ob + q)
  swap_bytes-first q h =
      let e : oa + q - oa + ob ≡ ob + q = omega arith in
      let inside : (leb oa (oa + q) && ltb (oa + q) (oa + w)) ≡ true = ground arith in
      swap_at (oa + q) ∙ rw (inside, e) refl

  pub swap_bytes-second : (q : ℕ) → q < w → swap_bytes w 0 oa ob b (ob + q) ≡ b (oa + q)
  swap_bytes-second q h =
      let e : ob + q - ob + oa ≡ oa + q = omega arith in
      let outside : (leb oa (ob + q) && ltb (ob + q) (oa + w)) ≡ false = ground arith in
      let inside : (leb ob (ob + q) && ltb (ob + q) (ob + w)) ≡ true = ground arith in
      swap_at (ob + q) ∙ rw (outside, inside, e) refl

  pub swap_bytes-other :
      (j : ℕ) → (j < oa) ⊎ (oa + w ≤ j) → (j < ob) ⊎ (ob + w ≤ j) → swap_bytes w 0 oa ob b j ≡ b j
  swap_bytes-other j h k =
      let x : (leb oa j && ltb j (oa + w)) ≡ false = ground arith in
      let y : (leb ob j && ltb j (ob + w)) ≡ false = ground arith in swap_at j ∙ rw (x, y) refl

  pub swap_bytes_lt : (j : ℕ) → swap_bytes w 0 oa ob b j < 256
  swap_bytes_lt j = ground (arith, swap_at j, bytes (j - oa + ob), bytes (j - ob + oa), bytes j)
