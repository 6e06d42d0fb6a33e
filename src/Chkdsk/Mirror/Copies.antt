-- ===== src/Chkdsk/Mirror/Copies.antt =====
-- What `check_fat_mirror` and `sync_fat_mirror` of chkdsk.c make of the two copies of the FAT.
use rmdos.Base.{
  ℕ, ◌+◌, ◌-◌, ◌≤◌, Bool, true, false, ◌&&◌, ◌≡◌, ◌⊎◌, inl, inr, refl, ap, ◌∙◌, arith, ltb, leb,
  if◌then◌else◌, minus_one,
}
use rmdos.Chkdsk.{Bpb, Drive, Chk}
use rmdos.Chkdsk.Fat.Flush.{IsGood, Fits, fat_flush-clean}
use rmdos.Chkdsk.Mirror.{
  rounds, sync_loop, synced, sync_fat_mirror, differing, check_loop, check_fat_mirror,
}
use rmdos.Chkdsk.Mirror.Loops.{
  copied, sync_loop-copied, if_done-true, AreEqual, Differs, Ends, check_loop-Ends,
}

module _ (d : Drive) (p : Bpb) (good : IsGood d) (f : Fits p) where
  rounds-spf : rounds p ≡ p.spf
  rounds-spf = ground (arith, f.low)

  sync_fat_mirror_lem :
      (s : Chk)
      → 2 ≤ p.fats
      → s.fat_dirty ≡ false
      → sync_fat_mirror d p s ≡ synced d p (sync_loop d p p.spf 0 s).0
  unfolding sync_fat_mirror
  sync_fat_mirror_lem s two clean =
      let e : leb 2 p.fats ≡ true = ground arith in
      let (done, disk) = sync_loop-copied d p good f p.spf 0 s (omega arith) in
      rw (e, fat_flush-clean d p good f s clean, rounds-spf)
        (if_done-true (sync_loop d p p.spf 0 s) (synced d p) done)

  -- The repair, in a state in which nothing is to be flushed.
  differing-fixed :
      (s : Chk)
      → 2 ≤ p.fats
      → s.fat_dirty ≡ false
      → s.fixing ≡ true
      → ((differing d p s).fat_diff ≡ false)
        × ((lba j : ℕ) → (differing d p s).disk lba j ≡ copied p s 0 p.spf lba j)
  unfolding differing synced
  differing-fixed s two clean fixing =
      let s' = record s { fat_diff = true; warn_fix = true; fat_sec_idx = minus_one } in
      let (done, disk) = sync_loop-copied d p good f p.spf 0 s' (omega arith) in
      let e : differing d p s ≡ synced d p (sync_loop d p p.spf 0 s').0 =
        ap (λ (b : Bool). if b then sync_fat_mirror d p s' else s') fixing
        ∙ sync_fat_mirror_lem s' two clean in
      (ap (λ (u : Chk). u.fat_diff) e, λ lba j. ap (λ (u : Chk). u.disk lba j) e ∙ disk lba j)

  differing-reported :
      (s : Chk)
      → s.fixing ≡ false
      → differing d p s ≡ record s { fat_diff = true; warn_fix = true; fat_sec_idx = minus_one }
  unfolding differing
  differing-reported s fixing =
      let s' = record s { fat_diff = true; warn_fix = true; fat_sec_idx = minus_one } in
      ap (λ (b : Bool). if b then sync_fat_mirror d p s' else s') fixing

  checked :
      (s : Chk)
      → 2 ≤ p.fats
      → s.fat_dirty ≡ false
      → check_fat_mirror d p s ≡ check_loop d p p.spf 0 s
  unfolding check_fat_mirror
  checked s two clean =
      let e : leb 2 p.fats ≡ true = ground arith in
      rw (e, fat_flush-clean d p good f s clean, rounds-spf) refl

  contradicts : (s : Chk) → AreEqual p s 0 p.spf → ¬ Differs p s
  contradicts s e x = x.bytes (e x.k x.j (omega arith) (omega (arith, x.k_lt)) x.j_lt)

  -- On a good drive, with two copies of the FAT, the second right behind the first, and nothing to
  -- be flushed: where the copies are equal `check_fat_mirror` reports nothing and writes nothing;
  -- where a byte differs it reports the difference and, if it may not fix, writes nothing; and if
  -- it may fix, it copies every sector of the first FAT over the second, changes no other sector
  -- and takes the report of a difference back.
  pub check_fat_mirror-AreEqual :
      (s : Chk)
      → 2 ≤ p.fats
      → s.fat_dirty ≡ false
      → let r = check_fat_mirror d p s in
        (AreEqual p s 0 p.spf → (r.fat_diff ≡ s.fat_diff) × (r.disk ≡ s.disk))
        × (Differs p s
            → s.fixing ≡ false
            → (r.fat_diff ≡ true) × (r.warn_fix ≡ true) × (r.disk ≡ s.disk))
        × (Differs p s
            → s.fixing ≡ true
            → (r.fat_diff ≡ false)
              × ((lba j : ℕ)
                  → r.disk lba j ≡ (
                      if leb p.fat2_lba lba && ltb lba (p.fat2_lba + p.spf)
                      then s.disk (lba + p.fat1_lba - p.fat2_lba) j
                      else s.disk lba j)))
  check_fat_mirror-AreEqual s two clean =
      let e = check_loop-Ends d p good f p.spf 0 s (omega arith) in
      rw (checked s two clean) (by_end s (check_loop d p p.spf 0 s) two clean e e.either)
    where
      by_end :
          (s r : Chk)
          → 2 ≤ p.fats
          → s.fat_dirty ≡ false
          → (e : Ends d p s r 0 p.spf)
          → (AreEqual p s 0 p.spf
              × (r ≡ record s { fatsec = e.a; sec = e.b; fat_sec_idx = minus_one }))
            ⊎ (Differs p s × (r ≡ differing d p (record s { fatsec = e.a; sec = e.b })))
          → (AreEqual p s 0 p.spf → (r.fat_diff ≡ s.fat_diff) × (r.disk ≡ s.disk))
            × (Differs p s
                → s.fixing ≡ false
                → (r.fat_diff ≡ true) × (r.warn_fix ≡ true) × (r.disk ≡ s.disk))
            × (Differs p s
                → s.fixing ≡ true
                → (r.fat_diff ≡ false)
                  × ((lba j : ℕ)
                      → r.disk lba j ≡ (
                          if leb p.fat2_lba lba && ltb lba (p.fat2_lba + p.spf)
                          then s.disk (lba + p.fat1_lba - p.fat2_lba) j
                          else s.disk lba j)))
      by_end s r two clean e (inl (equal, is_r)) = (
        λ _. (ap (λ (u : Chk). u.fat_diff) is_r, ap (λ (u : Chk). u.disk) is_r),
        λ x _. absurd (contradicts s equal x),
        λ x _. absurd (contradicts s equal x),
      )
      by_end s r two clean e (inr (differ, is_r)) = (
        λ equal. absurd (contradicts s equal differ),
        λ x fixing.
            let q = is_r ∙ differing-reported (record s { fatsec = e.a; sec = e.b }) fixing in
            (
              ap (λ (u : Chk). u.fat_diff) q,
              ap (λ (u : Chk). u.warn_fix) q,
              ap (λ (u : Chk). u.disk) q,
            ),
        λ x fixing.
            let (diff, disk) =
              differing-fixed (record s { fatsec = e.a; sec = e.b }) two clean fixing in
            (
              ap (λ (u : Chk). u.fat_diff) is_r ∙ diff,
              λ lba j. ap (λ (u : Chk). u.disk lba j) is_r ∙ disk lba j ∙ ground arith,
            ),
      )
