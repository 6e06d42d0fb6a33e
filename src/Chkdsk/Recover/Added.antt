-- ===== src/Chkdsk/Recover/Added.antt =====
-- What `root_add_file` of chkdsk.c writes to the disk.
use rmdos.Base.{
  ℕ, zero, suc, ◌+◌, ◌*◌, ◌<◌, Bool, true, false, ◌≡◌, ◌≢◌, ◌⊎◌, inl, inr, refl, sym, ap, ◌∙◌,
  arith, Option, none, some, ◌==◌, w16, Buffer, Bool-cases,
}
use rmdos.Chkdsk.{Drive, abs_write}
use rmdos.Chkdsk.Recover.{
  Recovery, fill_entry, is_free, free_entry, written, add_in_sector, after_read, add_loop,
}
use rmdos.Chkdsk.Recover.Entries.{HasEntry, fill_entry-HasEntry}

-- A free entry of a sector.
pub record IsFree (ent left : ℕ) (sec : Buffer) (k : ℕ) : Type 0 where
  place : ℕ
  at_place : k ≡ ent + 32 * place
  inside : place < left
  free : is_free (sec k) ≡ true

free_entry-IsFree :
    (left ent : ℕ) (sec : Buffer) (k : ℕ) → free_entry left ent sec ≡ some k → IsFree ent left sec k
unfolding free_entry
free_entry-IsFree zero ent sec k h = cc
free_entry-IsFree (suc left) ent sec k h = elim (Bool-cases (is_free (sec ent))) [
  | inl e ↦
      let here : ent ≡ k = some_eq (rw e at h) in
      record {
        place = 0;
        at_place = sym here ∙ omega arith;
        inside = omega arith;
        free = ap (λ (i : ℕ). is_free (sec i)) (sym here) ∙ e;
      }
  | inr e ↦
      let r = free_entry-IsFree left (ent + 32) sec k (rw e at h) in
      record {
        place = r.place + 1;
        at_place = omega (arith, r.at_place);
        inside = omega (arith, r.inside);
        free = r.free;
      }
]
  where
    get : ℕ → Option ℕ → ℕ
    get d none = d
    get d (some x) = x

    some_eq : {x y : ℕ} → some x ≡ some y → x ≡ y
    some_eq {x} {y} e = ap (get 0) e

-- A file's entry on the disk, where there are `left` sectors from `lba` on, each the word of its
-- sum: a free entry of a
-- sector is now one with the name, the cluster and the size, the other sectors are as they were, and
-- the counters moved on.
pub record Added (left lba start lo hi : ℕ) (r r' : Recovery) : Type 0 where
  pub sector : ℕ
  pub in_root : sector < left
  pub ent : ℕ
  pub was_free : IsFree 0 16 (r.chk.disk (w16 (lba + sector))) ent
  pub entry :
      HasEntry ent r.chkname start lo hi
        (r.chk.disk (w16 (lba + sector)))
        (r'.chk.disk (w16 (lba + sector)))
  pub others : (q : ℕ) → q ≢ w16 (lba + sector) → r'.chk.disk q ≡ r.chk.disk q
  pub counted : r'.recovered ≡ w16 (r.recovered + 1)
  pub numbered : r'.chk_num ≡ w16 (r.chk_num + 1)

-- What the loop over the sectors comes to: the entry is on the disk, or the disk is as it was.
abbrev pub Result : ℕ → ℕ → ℕ → ℕ → ℕ → Recovery → Bool × Recovery → Type 0
Result left lba start lo hi r (ok, r') =
    ((ok ≡ true) × Added left lba start lo hi r r') ⊎ ((ok ≡ false) × (r'.chk.disk ≡ r.chk.disk))

module _ (d : Drive) (start lo hi : ℕ) (s : start < 65536) (l : lo < 65536) (h : hi < 65536) where
  write_result :
      (left lba : ℕ) (r : Recovery) (ent : ℕ)
      → ((k : ℕ) → r.chkname k < 256)
      → IsFree 0 16 (r.chk.disk (w16 lba)) ent
      → let sec = fill_entry ent r.chkname start lo hi (r.chk.disk (w16 lba)) in
        Result (suc left) lba start lo hi r (written r sec (abs_write d r.chk (w16 lba) sec))
  write_result left lba r ent name free = elim (Bool-cases (d.bad_write (w16 lba))) [
    | inl bad ↦ rw bad (inr (refl, refl))
    | inr good ↦
        let at : lba + 0 ≡ lba = omega arith in
        let same_lba : (w16 lba == w16 lba) ≡ true = ground arith in
        rw good (
          inl (
            refl,
            record {
              sector = 0;
              in_root = omega arith;
              ent = ent;
              was_free = rw at free;
              entry =
                  rw (at, same_lba)
                    (fill_entry-HasEntry ent r.chkname start lo hi (r.chk.disk (w16 lba)) name s l
                      h);
              others = λ q ne. let apart : (q == w16 lba) ≡ false = ground arith in rw apart refl;
              counted = refl;
              numbered = refl;
            },
          ))
  ]

  -- The next sector.
  later :
      (left lba : ℕ) (r : Recovery) (sec : Buffer) (res : Bool × Recovery)
      → Result left (lba + 1) start lo hi (record r { chk = record r.chk { sec = sec } }) res
      → Result (suc left) lba start lo hi r res
  later left lba r sec (ok, r') (inr (e, q)) = inr (e, q)
  later left lba r sec (ok, r') (inl (e, a)) =
      let at : lba + (a.sector + 1) ≡ lba + 1 + a.sector = omega arith in
      inl (
        e,
        record {
          sector = a.sector + 1;
          in_root = omega (arith, a.in_root);
          ent = a.ent;
          was_free = rw at a.was_free;
          entry = rw at a.entry;
          others = λ q ne. a.others q (rw at at ne);
          counted = a.counted;
          numbered = a.numbered;
        },
      )

  pub add_loop-Result :
      (left lba : ℕ) (r : Recovery)
      → ((k : ℕ) → r.chkname k < 256)
      → Result left lba start lo hi r (add_loop d left lba start lo hi r)
  unfolding add_loop after_read
  add_loop-Result zero lba r name = inr (refl, refl)
  add_loop-Result (suc left) lba r name = elim (Bool-cases (d.bad_read (w16 lba))) [
    | inl bad ↦ rw bad (inr (refl, refl))
    | inr good ↦ rw good (
        go (free_entry 16 0 (r.chk.disk (w16 lba))) refl (
          later left lba r (r.chk.disk (w16 lba)) _ (
            add_loop-Result left (lba + 1)
              (record r { chk = record r.chk { sec = r.chk.disk (w16 lba) } }) name)))
  ]
    where
      go :
          (o : Option ℕ)
          → free_entry 16 0 (r.chk.disk (w16 lba)) ≡ o
          → Result (suc left) lba start lo hi r (
              add_loop d left
                (lba + 1)
                start
                lo
                hi
                (record r { chk = record r.chk { sec = r.chk.disk (w16 lba) } }))
          → Result (suc left) lba start lo hi r (
              add_in_sector d
                (w16 lba)
                start
                lo
                hi
                r
                (r.chk.disk (w16 lba))
                o
                (add_loop d left (lba + 1) start lo hi))
      go none e rest = unfold add_in_sector in rest
      go (some ent) e rest =
          unfold add_in_sector in
          write_result left lba r ent name (free_entry-IsFree 16 0 (r.chk.disk (w16 lba)) ent e)
