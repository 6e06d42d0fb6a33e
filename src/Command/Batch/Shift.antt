-- ===== src/Command/Batch/Shift.antt =====
-- SHIFT moves the arguments one place to the front.
use rmdos.Base.{
  ℕ, zero, suc, ◌+◌, ◌-◌, ◌*◌, ◌≤◌, ◌<◌, ◌&&◌, ◌≡◌, ◌∙◌, arith, leb, ltb, if◌then◌else◌, Buffer,
  buf_set,
}
use rmdos.Command.Batch.{Batch, zero_from, shift_bytes, shift_rows, do_shift}

abbrev IsBytes : Buffer → Type 0
IsBytes b = (j : ℕ) → b j < 256

zero_from-zero :
    (n i : ℕ) (b : Buffer) (j : ℕ)
    → zero_from n i b j ≡ (if leb i j && ltb j (i + n) then 0 else b j)
unfolding zero_from
zero_from-zero zero i b j = ground arith
zero_from-zero (suc n) i b j = ground (arith, zero_from-zero n (i + 1) (buf_set b i 0) j)

set-IsBytes : (b : Buffer) (p v : ℕ) → IsBytes b → IsBytes (buf_set b p v)
set-IsBytes b p v h j = ground (arith, h j)

one_more :
    (p n : ℕ) (b : Buffer) (j : ℕ)
    → IsBytes b
    → n < 16
    → (if leb (p + 1) j && ltb j (p + 1 + n)
        then buf_set b p (b (p + 16)) (j + 16)
        else buf_set b p (b (p + 16)) j)
      ≡ (if leb p j && ltb j (p + suc n) then b (j + 16) else b j)
one_more p n b j h x = ground (arith, h (p + 16))

-- The bytes from `d` on come from 16 places behind.
shift_bytes-shifted :
    (n i k : ℕ) (b : Buffer) (j : ℕ)
    → IsBytes b
    → k + n ≤ 16
    → shift_bytes n i k b j
      ≡ (if leb (i * 16 + k) j && ltb j (i * 16 + k + n) then b (j + 16) else b j)
unfolding shift_bytes
shift_bytes-shifted zero i k b j h x = ground arith
shift_bytes-shifted (suc n) i k b j h x =
    let p = i * 16 + k in
    let next : i * 16 + (k + 1) ≡ p + 1 = omega arith in
    let behind : (i + 1) * 16 + k ≡ p + 16 = omega arith in
    let b' = buf_set b p (b (p + 16)) in
    let rest =
      shift_bytes-shifted n i (k + 1) b' j (set-IsBytes b p (b (p + 16)) h) (omega arith) in
    rw behind (rest ∙ rw next (one_more p n b j h (omega arith)))

shift_bytes-IsBytes : (n i k : ℕ) (b : Buffer) → IsBytes b → IsBytes (shift_bytes n i k b)
unfolding shift_bytes
shift_bytes-IsBytes zero i k b h = h
shift_bytes-IsBytes (suc n) i k b h =
    shift_bytes-IsBytes n i (k + 1) (buf_set b (i * 16 + k) (b ((i + 1) * 16 + k)))
      (set-IsBytes b (i * 16 + k) (b ((i + 1) * 16 + k)) h)

row_step :
    (p q : ℕ) (b : Buffer) (j : ℕ)
    → (if leb (p + 16) j && ltb j (p + 16 + q)
        then (if leb p (j + 16) && ltb (j + 16) (p + 16) then b (j + 16 + 16) else b (j + 16))
        else (if leb p j && ltb j (p + 16) then b (j + 16) else b j))
      ≡ (if leb p j && ltb j (p + (q + 16)) then b (j + 16) else b j)
row_step p q b j = ground arith

shift_row :
    (i : ℕ) (b : Buffer) (j : ℕ)
    → IsBytes b
    → shift_bytes 16 i 0 b j ≡ (if leb (i * 16) j && ltb j (i * 16 + 16) then b (j + 16) else b j)
shift_row i b j h =
    let start : i * 16 + 0 ≡ i * 16 = omega arith in
    rw start at (shift_bytes-shifted 16 i 0 b j h (omega arith))

shift_rows-shifted :
    (n i : ℕ) (b : Buffer) (j : ℕ)
    → IsBytes b
    → shift_rows n i b j ≡ (if leb (i * 16) j && ltb j (i * 16 + n * 16) then b (j + 16) else b j)
unfolding shift_rows
shift_rows-shifted zero i b j h = ground arith
shift_rows-shifted (suc n) i b j h =
    let b' = shift_bytes 16 i 0 b in
    let rest = shift_rows-shifted n (i + 1) b' j (shift_bytes-IsBytes 16 i 0 b h) in
    let next : (i + 1) * 16 ≡ i * 16 + 16 = omega arith in
    let all : i * 16 + suc n * 16 ≡ i * 16 + (n * 16 + 16) = omega arith in
    rw all (
      rest
      ∙ rw (next, shift_row i b j h, shift_row i b (j + 16) h) (row_step (i * 16) (n * 16) b j))

-- SHIFT puts argument 2 to 9 in the place of the one in front of it, empties the ninth, takes one
-- from the count unless it is 0, and changes nothing behind the arguments. The arguments are bytes
-- and there are at most nine.
pub do_shift-shifted :
    (st : Batch)
    → ((j : ℕ) → st.batch_args j < 256)
    → st.batch_argc ≤ 9
    → ((j : ℕ)
        → (do_shift st).batch_args j ≡ (
            if ltb j 128 then st.batch_args (j + 16) else if ltb j 144 then 0 else st.batch_args j))
      × ((do_shift st).batch_argc ≡ st.batch_argc - 1)
unfolding do_shift
do_shift-shifted st h k = (
  (λ j.
      zero_from-zero 16 128 (shift_rows 8 0 st.batch_args) j
      ∙ rw (shift_rows-shifted 8 0 st.batch_args j h) (places st.batch_args j)),
  ground arith,
)
  where
    places :
        (b : Buffer) (j : ℕ)
        → (if leb 128 j && ltb j (128 + 16)
            then 0
            else (if leb 0 j && ltb j 128 then b (j + 16) else b j))
          ≡ (if ltb j 128 then b (j + 16) else if ltb j 144 then 0 else b j)
    places b j = ground arith
