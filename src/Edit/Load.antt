-- ===== src/Edit/Load.antt =====
-- `load_file` of edit.c. INT 21h answers the open and each read; the answers are parameters.
use rmdos.Base.{
  ℕ, zero, suc, ◌+◌, ◌-◌, ◌≤◌, ◌<◌, Bool, true, false, List, [], ◌∷◌, Option, none, some, ◌≡◌, refl,
  ◌∙◌, arith, ltb, ◌==◌, if◌then◌else◌, Buffer, buf_set, slice, slice_eq, length, inl, inr,
  Bool-cases, length-slice,
}
use rmdos.Edit.{Editor, xfer_max}

-- The copy out of `xfer`, to offset `i` on.
store : Buffer → ℕ → List ℕ → Buffer
store t i [] = t
store t i (x ∷ xs) = store (buf_set t i x) (i + 1) xs

abbrev request : ℕ → ℕ → ℕ
request cap off = let n = cap - 1 - off in if ltb xfer_max n then xfer_max else n

abbrev received : Option (List ℕ) → List ℕ
received none = []
received (some xs) = xs

-- `dos_read` of `n` bytes at file offset `off` gives `read off n`, the bytes or -1.
module _ (read : ℕ → ℕ → Option (List ℕ)) where
  -- The loop at `off`, which ends with the text and its length. A round that goes on has read
  -- at least one byte, so `buf_cap` rounds are enough.
  load_loop : ℕ → ℕ → Buffer → ℕ → Buffer × ℕ
  unfolding store
  load_loop zero cap t off = (t, off)
  load_loop (suc fuel) cap t off =
      let xs = received (read off (request cap off)) in
      let rest = load_loop fuel cap (store t off xs) (off + length xs) in
      if ltb off (cap - 1) then (if length xs == 0 then (t, off) else rest) else (t, off)

  -- The flag is whether `dos_open` gave a handle.
  pub load_file : Bool → Editor → Editor
  unfolding load_loop
  load_file opened s =
      let empty = record s { text_len = 0; cursor = 0; dirty = false } in
      let loaded = load_loop s.buf_cap s.buf_cap s.text 0 in
      if s.have_path
      then (if opened
          then record s {
            text = buf_set loaded.0 loaded.1 0;
            text_len = loaded.1;
            cursor = 0;
            dirty = false;
          }
          else empty)
      else empty

store_below : (xs : List ℕ) (t : Buffer) (i j : ℕ) → j < i → store t i xs j ≡ t j
unfolding store
store_below [] t i j h = refl
store_below (x ∷ xs) t i j h = store_below xs (buf_set t i x) (i + 1) j (omega arith) ∙ ground arith

-- The copy of a slice is that slice, byte by byte.
store-slice :
    (f t : Buffer) (k i n j : ℕ)
    → ((m : ℕ) → f m < 256)
    → j < n
    → store t i (slice f k n) (i + j) ≡ f (k + j)
unfolding store
store-slice f t k i zero j b h = elim h [ ]
store-slice f t k i (suc n) zero b h =
    store_below (slice f (k + 1) n) (buf_set t i (f k)) (i + 1) (i + 0) (omega arith)
    ∙ ground (arith, b k)
store-slice f t k i (suc n) (suc j) b h =
    let ih = store-slice f (buf_set t i (f k)) (k + 1) (i + 1) n j b (omega arith) in
    let e : i + suc j ≡ i + 1 + j = omega arith in
    let e' : k + suc j ≡ k + 1 + j = omega arith in rw (e, e') ih

-- A file of `size` bytes `f`: a read gives what is asked for, or less at the end of the file.
abbrev pub Reads : Buffer → ℕ → (ℕ → ℕ → Option (List ℕ)) → Type 0
Reads f size read =
    (off n : ℕ) → read off n ≡ some (slice f off (if ltb n (size - off) then n else size - off))

abbrev fitting : ℕ → ℕ → ℕ
fitting cap size = if ltb (cap - 1) size then cap - 1 else size

module _ (f : Buffer) (size : ℕ) (read : ℕ → ℕ → Option (List ℕ)) (bytes : (m : ℕ) → f m < 256)
    (reads : Reads f size read) where
  load_loop-slice :
      (fuel cap : ℕ) (t : Buffer) (off : ℕ)
      → off ≤ fitting cap size
      → cap - off ≤ fuel
      → ((j : ℕ) → j < off → t j ≡ f j)
      → ((load_loop read fuel cap t off).1 ≡ fitting cap size)
        × ((j : ℕ) → j < fitting cap size → (load_loop read fuel cap t off).0 j ≡ f j)
  unfolding load_loop
  load_loop-slice zero cap t off h k same =
      let e : off ≡ fitting cap size = ground arith in (e, λ j p. same j (rw e p))
  load_loop-slice (suc fuel) cap t off h k same =
      let n = request cap off in
      let got = (if ltb n (size - off) then n else size - off) in
      elim (Bool-cases (ltb off (cap - 1))) [
        | inl more ↦
            rw (more, reads off n, length-slice)
              (elim (Bool-cases (got == 0)) [
                | inl end ↦
                    let e : off ≡ fitting cap size = ground arith in
                    rw end (e, λ j p. same j (rw e p))
                | inr going ↦ rw going (
                    load_loop-slice fuel cap (store t off (slice f off got)) (off + got)
                      (ground arith) (ground arith) (stored t off got same))
              ])
        | inr full ↦
            let e : off ≡ fitting cap size = ground arith in rw full (e, λ j p. same j (rw e p))
      ]
    where
      stored :
          (t : Buffer) (off got : ℕ)
          → ((j : ℕ) → j < off → t j ≡ f j)
          → (j : ℕ) → j < off + got
          → store t off (slice f off got) j ≡ f j
      stored t off got same j p = elim (Bool-cases (ltb j off)) [
        | inl old ↦ store_below (slice f off got) t off j (ground arith) ∙ same j (ground arith)
        | inr new ↦
            let e : j ≡ off + (j - off) = ground arith in
            rw e (store-slice f t off off got (j - off) bytes (ground arith))
      ]

  -- Loading a file that could be opened gives the file's bytes, all of them if they are fewer than
  -- the buffer holds and otherwise as many as it holds less one, with the cursor at the start of
  -- an unchanged text.
  pub load_file-slice :
      (s : Editor)
      → s.have_path ≡ true
      → 0 < s.buf_cap
      → let l = load_file read true s in
        (l.text_len ≡ fitting s.buf_cap size)
        × (slice l.text 0 l.text_len ≡ slice f 0 (fitting s.buf_cap size))
        × (l.cursor ≡ 0)
        × (l.dirty ≡ false)
        × (l.text_len < s.buf_cap)
  unfolding load_file
  load_file-slice s path pos =
      let (len, same) =
        load_loop-slice s.buf_cap s.buf_cap s.text 0 (omega arith) (omega arith)
          (λ j p. absurd (omega arith)) in
      rw path (
        len,
        slice_eq _ f 0 0 _ _ len (λ j p. ground (arith, same (0 + j))),
        refl,
        refl,
        rw len (ground arith),
      )

pub have_path-load_file :
    (read : ℕ → ℕ → Option (List ℕ)) (opened : Bool) (s : Editor)
    → (load_file read opened s).have_path ≡ s.have_path
unfolding load_file
have_path-load_file read opened s = ground arith
