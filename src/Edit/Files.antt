-- ===== src/Edit/Files.antt =====
-- The transfer between the text and a file: `save_file` and `load_file` of edit.c. INT 21h answers
-- each call; the answers are parameters.
use rmdos.Base.{
  ℕ, zero, suc, ◌+◌, ◌-◌, ◌≤◌, Bool, true, false, List, [], ◌++◌, Option, none, some, ◌≡◌, refl, ap,
  ◌∙◌, ◌⊎◌, arith, ltb, leb, ◌==◌, if◌then◌else◌, Buffer, slice, slice-append, inl, inr, Bool-cases,
}
use rmdos.Edit.{Editor, xfer_max}

abbrev chunk_of : ℕ → ℕ
chunk_of n = if ltb xfer_max n then xfer_max else n

-- What is left of a save: was it complete, and the bytes handed to `dos_write` that it took.
pub record Saved : Type 0 where
  pub complete : Bool
  pub file : List ℕ

-- `dos_write` of `n` bytes at file offset `off` returns `write off n`, a count of bytes written
-- or -1.
module _ (write : ℕ → ℕ → ℕ) where
  -- The loop of `save_file` at `off`. A round writes at least one byte, so `text_len` rounds are
  -- enough.
  save_loop : ℕ → Buffer → ℕ → ℕ → List ℕ → Saved
  save_loop zero t len off out = record { complete = leb len off; file = out }
  save_loop (suc fuel) t len off out =
      let chunk = chunk_of (len - off) in
      let w = write off chunk in
      let rest = save_loop fuel t len (off + chunk) (out ++ slice t off chunk) in
      if ltb off len
      then (if w == chunk then rest else record {
        complete = false;
        file = out ++ slice t off (if ltb w chunk then w else 0);
      })
      else record { complete = true; file = out }

  -- The flag is whether `dos_create` gave a handle; `none` is a file that was not created.
  pub save_file : Bool → Editor → Editor × Option Saved
  save_file created s =
      let saved = save_loop s.text_len s.text s.text_len 0 [] in
      if s.have_path
      then (if created
          then (if saved.complete then record s { dirty = false } else s, some saved)
          else (s, none))
      else (s, none)

  save_loop-slice :
      (fuel : ℕ) (t : Buffer) (len off : ℕ)
      → off ≤ len
      → len - off ≤ fuel
      → ((save_loop fuel t len off (slice t 0 off)).complete ≡ true
          → (save_loop fuel t len off (slice t 0 off)).file ≡ slice t 0 len)
        × (((n m : ℕ) → write n m ≡ m) → (save_loop fuel t len off (slice t 0 off)).complete ≡ true)
  unfolding save_loop
  save_loop-slice zero t len off h k =
      let e : off ≡ len = omega arith in (λ c. ap (slice t 0) e, λ w. ground arith)
  save_loop-slice (suc fuel) t len off h k =
      let chunk = chunk_of (len - off) in
      elim (Bool-cases (ltb off len)) [
        | inl more ↦ rw more (elim (Bool-cases (write off chunk == chunk)) [
          | inl full ↦
              rw (full, ← grown off chunk)
                (save_loop-slice fuel t len (off + chunk) (ground arith) (ground arith))
          | inr short ↦ rw short (λ c. cc, λ w. ground (arith, w off chunk))
        ])
        | inr done ↦ let e : off ≡ len = ground arith in rw done (λ c. ap (slice t 0) e, λ w. refl)
      ]
    where
      grown : (off chunk : ℕ) → slice t 0 (off + chunk) ≡ slice t 0 off ++ slice t off chunk
      grown off chunk =
          slice-append t 0 off chunk ∙ ap (λ k. slice t 0 off ++ slice t k chunk) (omega arith)

  -- With a path and a file that could be created, a save ends with one of two results: a complete
  -- one leaves the whole text in the file and the editor clean; one that is not complete leaves the
  -- editor as it was. The save is complete if every write takes all that it is given.
  pub save_file_lem :
      (s : Editor)
      → s.have_path ≡ true
      → (r : Saved) × ((save_file true s).1 ≡ some r)
        × (r.complete ≡ true
            → (r.file ≡ slice s.text 0 s.text_len)
              × ((save_file true s).0 ≡ record s { dirty = false }))
        × (r.complete ≡ false → (save_file true s).0 ≡ s)
        × (((n m : ℕ) → write n m ≡ m) → r.complete ≡ true)
  unfolding save_file
  save_file_lem s path =
      let (whole, all) =
        save_loop-slice s.text_len s.text s.text_len 0 (omega arith) (omega arith) in
      (
        save_loop s.text_len s.text s.text_len 0 [],
        ground arith,
        λ c. (ground (arith, whole), ground arith),
        λ c. ground arith,
        λ w. ground (arith, all w),
      )

  -- A save changes the dirty flag and nothing else.
  pub save_file_only :
      (created : Bool) (s : Editor)
      → (d : Bool) × ((save_file created s).0 ≡ record s { dirty = d })
  unfolding save_file
  save_file_only created s = ((save_file created s).0.dirty, ground arith)

  -- A save is complete and writes the whole text, or it leaves the editor as it was.
  pub save_file_ends :
      (created : Bool) (s : Editor)
      → ((r : Saved) × ((save_file created s).1 ≡ some r)
          × (r.complete ≡ true)
          × (r.file ≡ slice s.text 0 s.text_len)
          × ((save_file created s).0 ≡ record s { dirty = false }))
        ⊎ (((save_file created s).0 ≡ s)
            × (((save_file created s).1 ≡ none)
                ⊎ ((r : Saved) × ((save_file created s).1 ≡ some r) × (r.complete ≡ false))))
  unfolding save_file save_loop
  save_file_ends created s =
      let r = save_loop s.text_len s.text s.text_len 0 [] in
      let (whole, all) =
        save_loop-slice s.text_len s.text s.text_len 0 (omega arith) (omega arith) in
      elim (Bool-cases s.have_path) [
        | inr p ↦ rw p (inr (refl, inl refl))
        | inl p ↦ elim (Bool-cases created) [
          | inr c ↦ rw (p, c) (inr (refl, inl refl))
          | inl c ↦ elim (Bool-cases r.complete) [
            | inl e ↦ rw (p, c, e) (inl (r, refl, e, whole e, refl))
            | inr e ↦ rw (p, c, e) (inr (refl, inr (r, refl, e)))
          ]
        ]
      ]
