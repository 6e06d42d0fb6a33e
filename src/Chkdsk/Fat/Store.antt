-- ===== src/Chkdsk/Fat/Store.antt =====
-- The states that `fat_set` of chkdsk.c goes through, and the bytes it leaves on the disk.
use rmdos.Base.{
  ℕ, ◌+◌, ◌*◌, ◌/◌, ◌%◌, ◌<◌, true, false, ◌≡◌, ◌≢◌, ◌⊎◌, inl, inr, refl, ap, ◌∙◌, arith, leb, ◌==◌,
  if◌then◌else◌, w16, minus_one, buf_set, peek_word, poke_word, Bool-cases,
}
use rmdos.Chkdsk.{FatType, fat12, fat16, Bpb, Drive, Chk}
use rmdos.Chkdsk.Fat.{
  set_in_sector, set_typed, set_straddling, set_straddling_in, set_straddling_tail, fat_load,
  fat_flush, entry_off, is_odd, pack12,
}
use rmdos.Chkdsk.Fat.Flush.{
  fat_byte, IsGood, Fits, IsFresh, flushed, fat_flush-dirty, fat_flush-clean, fat_load-fresh,
  poked_word, poked_across,
}

-- The word that `fat_set` stores in place of `old`.
abbrev pub new_word : FatType → ℕ → ℕ → ℕ → ℕ
new_word fat16 c old v = v
new_word fat12 c old v = pack12 (is_odd c) old v

-- The states that `fat_set` leaves of a fresh one: where the entry lies within one sector, and
-- where it lies across two and both have been written.
abbrev pub set_inside : Bpb → FatType → ℕ → ℕ → Chk → Chk
set_inside p t c v s =
    let off = entry_off t c in
    let b = s.disk (w16 (p.fat1_lba + off / 512)) in
    let val = new_word t c (peek_word b (off % 512)) v in
    record s {
      fatsec = poke_word b (off % 512) val;
      fat_sec_idx = off / 512;
      fat_dirty = true;
      fixes_applied = true;
    }

-- The state that `fat_set` and a flush leave.
abbrev pub after : Drive → Bpb → FatType → ℕ → ℕ → Chk → Chk
after d p t c v s = (fat_flush d p (set_typed d p t c v s)).0

-- The word that an entry lies in.
abbrev pub word : Bpb → FatType → ℕ → Chk → ℕ
word p t c s = fat_byte p s (entry_off t c) + fat_byte p s (entry_off t c + 1) * 256

-- The first FAT that `after` leaves has `w` at the entry of `c`, and the bytes of `s` elsewhere.
abbrev pub HasWord : Drive → Bpb → FatType → ℕ → ℕ → Chk → ℕ → Type 0
HasWord d p t c v s w =
    (k : ℕ)
    → k < p.spf * 512
    → fat_byte p (after d p t c v s) k ≡ (
        if k == entry_off t c
        then w % 256
        else if k == entry_off t c + 1
        then w / 256 % 256
        else fat_byte p s k)

module _ (d : Drive) (p : Bpb) (good : IsGood d) (f : Fits p) (c v : ℕ) (s : Chk)
    (fresh : IsFresh s) (small : c < 32768) where
  pub sector_lt : (t : FatType) → entry_off t c / 512 < 128
  sector_lt fat16 = unfold entry_off in omega arith
  sector_lt fat12 = unfold entry_off in omega arith

  loaded :
      (t : FatType)
      → fat_load d p (entry_off t c / 512) s ≡ (
        record s {
          fatsec = s.disk (w16 (p.fat1_lba + entry_off t c / 512));
          fat_sec_idx = entry_off t c / 512;
        },
        true,
      )
  loaded t =
      fat_load-fresh d p good f (entry_off t c / 512) s fresh.clean fresh.no_sector
        (omega (arith, sector_lt t))

  pub set_typed-inside :
      (t : FatType)
      → (t ≡ fat16) ⊎ (entry_off t c % 512 ≢ 511)
      → set_typed d p t c v s ≡ set_inside p t c v s
  unfolding set_typed
  set_typed-inside fat16 h = rw (set_in_sector, loaded fat16)
  set_typed-inside fat12 (inl h) = cc
  set_typed-inside fat12 (inr h) =
      let k : (entry_off fat12 c % 512 == 511) ≡ false = ground arith in
      rw (k, set_in_sector, loaded fat12)

  -- The bytes of the first FAT after a flush of `set_inside`.
  inside_bytes :
      (t : FatType)
      → (t ≡ fat16) ⊎ (entry_off t c % 512 ≢ 511)
      → entry_off t c + 1 < p.spf * 512
      → (k : ℕ) → k < p.spf * 512
      → fat_byte p (fat_flush d p (set_inside p t c v s)).0 k ≡ (
          let off = entry_off t c in
          let val =
            new_word t c (peek_word (s.disk (w16 (p.fat1_lba + off / 512))) (off % 512)) v in
          if k == off then val % 256 else if k == off + 1 then val / 256 % 256 else fat_byte p s k)
  inside_bytes t h inf k b =
      rw (fat_flush-dirty d p good f (set_inside p t c v s) refl (omega (arith, sector_lt t)))
        (poked_word p f (entry_off t c) _ k s (inside t h) inf b)
    where
      inside : (t : FatType) → (t ≡ fat16) ⊎ (entry_off t c % 512 ≢ 511) → entry_off t c % 512 ≢ 511
      inside fat16 h = unfold entry_off in omega arith
      inside fat12 (inl h) = cc
      inside fat12 (inr h) = h

  abbrev across_word : ℕ
  across_word =
      let off = entry_off fat12 c in
      pack12 (is_odd c)
        (s.disk (w16 (p.fat1_lba + off / 512)) 511
          + s.disk (w16 (p.fat1_lba + (off / 512 + 1))) 0 * 256)
        v

  -- The first of the two sectors in the buffer.
  abbrev first_held : Chk
  first_held =
      let a = entry_off fat12 c / 512 in
      record s {
        wrk = s.disk (w16 (p.fat1_lba + (a + 1)));
        fatsec = buf_set (s.disk (w16 (p.fat1_lba + a))) 511 across_word;
        fat_sec_idx = a;
        fat_dirty = true;
      }

  -- The second of them, in `wrk`, with the first written.
  abbrev second_held : Chk
  second_held = record first_held {
    disk = flushed p first_held;
    fat_dirty = false;
    wrk = buf_set first_held.wrk 0 (across_word / 256);
  }

  set_typed-across :
      entry_off fat12 c % 512 ≡ 511
      → set_typed d p fat12 c v s
        ≡ set_straddling_tail d p (entry_off fat12 c / 512 + 1) second_held
  unfolding set_typed
  set_typed-across across =
      let a = entry_off fat12 c / 512 in
      let k : (entry_off fat12 c % 512 == 511) ≡ true = ground arith in
      rw (
        k,
        set_straddling,
        loaded fat12,
        fat_flush-clean d p good f
            (record s { fatsec = s.disk (w16 (p.fat1_lba + a)); fat_sec_idx = a }) fresh.clean,
        set_straddling_in,
        good.0 (w16 (p.fat1_lba + (a + 1))),
        fat_flush-dirty d p good f first_held refl (omega (arith, sector_lt fat12)),
      )

  -- The state once both sectors are written, to both copies.
  abbrev across : Chk
  across =
      let a = entry_off fat12 c / 512 in
      record second_held {
        disk = flushed p (record second_held { fatsec = second_held.wrk; fat_sec_idx = a + 1 });
        fat_sec_idx = minus_one;
        fixes_applied = true;
      }

  tail-across : set_straddling_tail d p (entry_off fat12 c / 512 + 1) second_held ≡ across
  unfolding set_straddling_tail
  tail-across =
      let a = entry_off fat12 c / 512 in
      rw (good.1 (w16 (p.fat1_lba + (a + 1))), set_straddling_tail)
        (elim (Bool-cases (leb 2 p.fats)) [
          | inl two ↦ rw (two, good.1 (w16 (p.fat2_lba + (a + 1))))
          | inr one ↦ rw one
        ])

  across_bytes :
      entry_off fat12 c % 512 ≡ 511
      → entry_off fat12 c + 1 < p.spf * 512
      → (k : ℕ) → k < p.spf * 512
      → fat_byte p (fat_flush d p across).0 k ≡ (
          let off = entry_off fat12 c in
          if k == off
          then across_word % 256
          else if k == off + 1
          then across_word / 256 % 256
          else fat_byte p s k)
  across_bytes at_end inf k b =
      rw (fat_flush-clean d p good f across refl)
        (poked_across p f (entry_off fat12 c) across_word k s inf at_end b)

  pub after-HasWord :
      (t : FatType)
      → entry_off t c + 1 < p.spf * 512
      → HasWord d p t c v s (new_word t c (word p t c s) v)
  after-HasWord t inf = elim (Bool-cases (entry_off t c % 512 == 511)) [
    | inl end ↦ by_type t inf end
    | inr within ↦ λ k b.
        let off = entry_off t c in
        let low = sector_lt t in
        let e : peek_word (s.disk (w16 (p.fat1_lba + off / 512))) (off % 512) ≡ word p t c s =
          ground (arith, f.low, f.second) in
        ap (λ (st : Chk). fat_byte p (fat_flush d p st).0 k)
          (set_typed-inside t (inr (ground arith)))
        ∙ inside_bytes t (inr (ground arith)) inf k b
        ∙ ap
            (λ (w : ℕ).
              let n = new_word t c w v in
              if k == off then n % 256 else if k == off + 1 then n / 256 % 256 else fat_byte p s k)
            e
  ]
    where
      by_type :
          (t : FatType)
          → entry_off t c + 1 < p.spf * 512
          → (entry_off t c % 512 == 511) ≡ true
          → HasWord d p t c v s (new_word t c (word p t c s) v)
      by_type fat16 inf end = absurd (unfold entry_off in ground arith)
      by_type fat12 inf end = λ k b.
          let off = entry_off fat12 c in
          let low = sector_lt fat12 in
          let at_end : off % 512 ≡ 511 = ground arith in
          let e : s.disk (w16 (p.fat1_lba + off / 512)) 511
                + s.disk (w16 (p.fat1_lba + (off / 512 + 1))) 0 * 256
              ≡ word p fat12 c s =
            ground (arith, f.low, f.second) in
          ap (λ (st : Chk). fat_byte p (fat_flush d p st).0 k)
            (set_typed-across at_end ∙ tail-across)
          ∙ across_bytes at_end inf k b
          ∙ ap
              (λ (w : ℕ).
                let n = pack12 (is_odd c) w v in
                if k == off
                then n % 256
                else if k == off + 1
                then n / 256 % 256
                else fat_byte p s k)
              e
