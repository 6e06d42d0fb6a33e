-- ===== src/Chkdsk/Mirror/Loops.antt =====
-- The loops over the sectors of the two copies of the FAT in chkdsk.c.
use rmdos.Base.{
  ℕ, zero, suc, ◌+◌, ◌-◌, ◌≤◌, ◌<◌, true, false, ◌&&◌, ◌≡◌, ◌≢◌, ◌⊎◌, inl, inr, refl, sym, ◌∙◌,
  arith, ltb, leb, ◌==◌, if◌then◌else◌, w16, minus_one, Buffer, Bool-cases, ==→≡, ==→≢,
}
use rmdos.Chkdsk.{Bpb, Drive, Chk}
use rmdos.Chkdsk.Fat.{Done, if_done}
use rmdos.Chkdsk.Fat.Flush.{IsGood, Fits}
use rmdos.Chkdsk.Mirror.{same_from, sync_loop, differing, check_loop}

-- The disk of `s` with the sectors `i` to `i + left` of the first FAT copied over the second.
abbrev pub copied : Bpb → Chk → ℕ → ℕ → ℕ → Buffer
copied p s i left lba =
    if leb (p.fat2_lba + i) lba && ltb lba (p.fat2_lba + i + left)
    then s.disk (lba + p.fat1_lba - p.fat2_lba)
    else s.disk lba

pub if_done-true : (r : Done) (h : Chk → Chk) → r.1 ≡ true → if_done r h ≡ h r.0
if_done-true (s, true) h e = refl
if_done-true (s, false) h e = cc

module _ (d : Drive) (p : Bpb) (good : IsGood d) (f : Fits p) where
  pub sync_loop-copied :
      (left i : ℕ) (s : Chk)
      → i + left ≤ p.spf
      → ((sync_loop d p left i s).1 ≡ true)
        × ((lba j : ℕ) → (sync_loop d p left i s).0.disk lba j ≡ copied p s i left lba j)
  unfolding sync_loop
  sync_loop-copied zero i s room = (refl, λ lba j. ground arith)
  sync_loop-copied (suc left) i s room =
      let x : w16 (p.fat1_lba + i) ≡ p.fat1_lba + i = omega (arith, f.low, f.second) in
      let y : w16 (p.fat2_lba + i) ≡ p.fat2_lba + i = omega (arith, f.low, f.second) in
      let s' = record s {
        fatsec = s.disk (p.fat1_lba + i);
        disk = λ k. if k == p.fat2_lba + i then s.disk (p.fat1_lba + i) else s.disk k;
      } in
      let (done, disk) = sync_loop-copied left (i + 1) s' (omega arith) in
      rw (sync_loop, x, good.0 (p.fat1_lba + i), y, good.1 (p.fat2_lba + i))
        (done, λ lba j. disk lba j ∙ one_more s i left lba j room)
    where
      one_more :
          (s : Chk) (i left lba j : ℕ)
          → i + suc left ≤ p.spf
          → copied p
              (record s {
                disk = λ k. if k == p.fat2_lba + i then s.disk (p.fat1_lba + i) else s.disk k;
              })
              (i + 1)
              left
              lba
              j
            ≡ copied p s i (suc left) lba j
      one_more s i left lba j room = elim (Bool-cases (lba == p.fat2_lba + i)) [
        | inl e ↦
            let at : lba + p.fat1_lba - p.fat2_lba ≡ p.fat1_lba + i = ground (arith, f.second) in
            rw at (ground arith)
        | inr e ↦ ground (arith, f.second)
      ]

above : (i k : ℕ) → i ≤ k → (k == i) ≡ false → i + 1 ≤ k
above i k h e = ground arith

true≢false : true ≢ false
true≢false e = cc

same_from-true :
    (left j : ℕ) (a b : Buffer)
    → same_from left j a b ≡ true
    → (m : ℕ) → j ≤ m
    → m < j + left
    → a m ≡ b m
unfolding same_from
same_from-true zero j a b e m p q = absurd (omega arith)
same_from-true (suc left) j a b e m p q = elim (Bool-cases (a j == b j)) [
  | inl same_here ↦ elim (Bool-cases (m == j)) [
    | inl here ↦ rw (==→≡ m j here) (==→≡ _ _ same_here)
    | inr away ↦
        same_from-true left (j + 1) a b (rw same_here at e) m (above j m p away) (omega arith)
  ]
  | inr differ ↦ absurd (true≢false (sym (rw differ at e)))
]

same_from-false :
    (left j : ℕ) (a b : Buffer)
    → same_from left j a b ≡ false
    → (m : ℕ) × (m < j + left) × (a m ≢ b m)
unfolding same_from
same_from-false zero j a b e = cc
same_from-false (suc left) j a b e = elim (Bool-cases (a j == b j)) [
  | inl same_here ↦
      let (m, low, differ) = same_from-false left (j + 1) a b (rw same_here at e) in
      (m, omega arith, differ)
  | inr differ ↦ (j, omega arith, ==→≢ _ _ differ)
]

-- The sectors `i` to `i + left` of the two copies hold the same bytes.
abbrev pub AreEqual : Bpb → Chk → ℕ → ℕ → Type 0
AreEqual p s i left =
    (k j : ℕ)
    → i ≤ k
    → k < i + left
    → j < 512
    → s.disk (p.fat1_lba + k) j ≡ s.disk (p.fat2_lba + k) j

-- Byte `j` of sector `k` is not the same in the two copies.
pub record Differs (p : Bpb) (s : Chk) : Type 0 where
  pub k : ℕ
  pub j : ℕ
  pub k_lt : k < p.spf
  pub j_lt : j < 512
  pub bytes : s.disk (p.fat1_lba + k) j ≢ s.disk (p.fat2_lba + k) j

-- Which of the two ends the loop of the check has, with what it left in the sector buffers.
pub record Ends (d : Drive) (p : Bpb) (s r : Chk) (i left : ℕ) : Type 0 where
  pub a : Buffer
  pub b : Buffer
  pub either :
      (AreEqual p s i left × (r ≡ record s { fatsec = a; sec = b; fat_sec_idx = minus_one }))
      ⊎ (Differs p s × (r ≡ differing d p (record s { fatsec = a; sec = b })))

module _ (d : Drive) (p : Bpb) (good : IsGood d) (f : Fits p) where
  pub check_loop-Ends :
      (left i : ℕ) (s : Chk) → i + left ≤ p.spf → Ends d p s (check_loop d p left i s) i left
  unfolding check_loop
  check_loop-Ends zero i s room = record {
    a = s.fatsec;
    b = s.sec;
    either = inl (λ k j x y z. absurd (omega arith), refl);
  }
  check_loop-Ends (suc left) i s room =
      let x : w16 (p.fat1_lba + i) ≡ p.fat1_lba + i = omega (arith, f.low, f.second) in
      let y : w16 (p.fat2_lba + i) ≡ p.fat2_lba + i = omega (arith, f.low, f.second) in
      let a = s.disk (p.fat1_lba + i) in
      let b = s.disk (p.fat2_lba + i) in
      let s' = record s { fatsec = a; sec = b } in
      rw (check_loop, x, good.0 (p.fat1_lba + i), y, good.0 (p.fat2_lba + i))
        (elim (Bool-cases (same_from 512 0 a b)) [
          | inl same ↦
              rw same (longer left i s same (check_loop-Ends left (i + 1) s' (omega arith)))
          | inr differ ↦
              let (m, low, ne) = same_from-false 512 0 a b differ in
              rw differ (record {
                a = a;
                b = b;
                either =
                    inr (record { k = i; j = m; k_lt = omega arith; j_lt = low; bytes = ne }, refl);
              })
        ])
    where
      longer :
          (left i : ℕ) (s : Chk)
          → same_from 512 0 (s.disk (p.fat1_lba + i)) (s.disk (p.fat2_lba + i)) ≡ true
          → let s' = record s { fatsec = s.disk (p.fat1_lba + i); sec = s.disk (p.fat2_lba + i) } in
            Ends d p s' (check_loop d p left (i + 1) s') (i + 1) left
            → Ends d p s (check_loop d p left (i + 1) s') i (suc left)
      longer left i s same e = record {
        a = e.a;
        b = e.b;
        either = elim e.either [
          | inl (rest, r) ↦ inl (
            λ k j p1 p2 p3. elim (Bool-cases (k == i)) [
              | inl here ↦ rw (==→≡ k i here) (
                  same_from-true 512 0 (s.disk (p.fat1_lba + i)) (s.disk (p.fat2_lba + i)) same j
                    (omega arith) p3)
              | inr away ↦ rest k j (above i k p1 away) (omega arith) p3
            ],
            r,
          )
          | inr (differ, r) ↦ inr (
            record {
              k = differ.k;
              j = differ.j;
              k_lt = differ.k_lt;
              j_lt = differ.j_lt;
              bytes = differ.bytes;
            },
            r,
          )
        ];
      }
