-- ===== src/Exchange/Order.antt =====
-- The exchange sort puts the rows in order.
use rmdos.Base.{
  ℕ, zero, suc, ◌+◌, ◌≤◌, ◌<◌, true, false, ◌≡◌, inl, inr, refl, ◌∙◌, arith, if◌then◌else◌, ◌==◌,
  Bool-cases, ==→≡,
}
use rmdos.Exchange.{Table, sort_inner, sort_outer, exchange_sort}

-- The rows of `g` are those of `f` in another order: `σ` moves no two to one place.
pub record Rearranges {A : Type 0} (n : ℕ) (f g : ℕ → A) : Type 0 where
  pub σ : ℕ → ℕ
  pub inside : (k : ℕ) → k < n → σ k < n
  pub injective : (k l : ℕ) → k < n → l < n → σ k ≡ σ l → k ≡ l
  pub moved : (k : ℕ) → k < n → g k ≡ f (σ k)

pub Rearranges_refl : {A : Type 0} (n : ℕ) (f : ℕ → A) → Rearranges n f f
Rearranges_refl n f = record {
  σ = λ k. k;
  inside = λ k h. h;
  injective = λ k l x y e. e;
  moved = λ k h. refl;
}

pub Rearranges_trans :
    {A : Type 0} (n : ℕ) (f g h : ℕ → A) → Rearranges n f g → Rearranges n g h → Rearranges n f h
Rearranges_trans n f g h a b = record {
  σ = λ k. a.σ (b.σ k);
  inside = λ k x. a.inside (b.σ k) (b.inside k x);
  injective = λ k l x y e.
      b.injective k l x y (a.injective (b.σ k) (b.σ l) (b.inside k x) (b.inside l y) e);
  moved = λ k x. b.moved k x ∙ a.moved (b.σ k) (b.inside k x);
}

-- Where the row at `k` comes from when those at `i` and `j` change places.
other : ℕ → ℕ → ℕ → ℕ
other i j k = if k == i then j else if k == j then i else k

Rearranges-swapped :
    {A : Type 0} (n i j : ℕ) (f g : ℕ → A)
    → i < n
    → j < n
    → ((k : ℕ) → k < n → g k ≡ (if k == i then f j else if k == j then f i else f k))
    → Rearranges n f g
unfolding other
Rearranges-swapped n i j f g x y e = record {
  σ = other i j;
  inside = λ k h. ground arith;
  injective = λ k l p q h. ground arith;
  moved = λ k h. e k h ∙ ground arith;
}

other_lem :
    {A : Type 0} (f : ℕ → A) (i j k : ℕ)
    → (if k == i then f j else if k == j then f i else f k) ≡ f (other i j k)
unfolding other
other_lem f i j k = ground arith

other_below : (i j a : ℕ) → a < i → i < j → other i j a ≡ a
unfolding other
other_below i j a h k = ground arith

other_above : (i j a b : ℕ) → a < i → a < b → i < j → a < other i j b
unfolding other
other_above i j a b h k l = ground arith

other_lt : (n i j k : ℕ) → i < n → j < n → k < n → other i j k < n
unfolding other
other_lt n i j k x y z = ground arith

module _ {S A : Type 0} (t : Table S A) (n : ℕ) where
  -- In front of `i` every row stands right, and the row at `i` is least among those before `j`.
  record Pass (i j : ℕ) (f : ℕ → A) : Type 0 where
    placed : (a b : ℕ) → a < i → a < b → b < n → t.above (f a) (f b) ≡ false
    least : (b : ℕ) → i < b → b < j → t.above (f i) (f b) ≡ false

  -- One round of the inner loop, with an exchange and without one.
  Pass-exchanged :
      (i j : ℕ) (f g : ℕ → A)
      → i < j
      → j < n
      → t.above (f i) (f j) ≡ true
      → ((k : ℕ) → k < n → g k ≡ (if k == i then f j else if k == j then f i else f k))
      → Pass i j f
      → Pass i (j + 1) g
  Pass-exchanged i j f g x y above e p =
      let low : t.above (f j) (f i) ≡ false = t.above_asym (f i) (f j) above in
      let at : (k : ℕ) → k < n → g k ≡ f (other i j k) = λ k h. e k h ∙ other_lem f i j k in
      let first : g i ≡ f j = e i (omega arith) ∙ ground arith in
      record {
        placed = λ a b q r h.
            rw (at a (omega arith), at b h, other_below i j a q x)
              (p.placed a (other i j b) q (other_above i j a b q r x)
                (other_lt n i j b (omega arith) y h));
        least = λ b q r. elim (Bool-cases (b == j)) [
          | inl same ↦
              let last : g b ≡ f i = rw (==→≡ b j same) (e j y ∙ ground arith) in
              rw (first, last) low
          | inr apart ↦
              let kept : g b ≡ f b = e b (omega arith) ∙ ground arith in
              rw (first, kept) (t.above_trans (f j) (f i) (f b) low (p.least b q (ground arith)))
        ];
      }

  Pass-kept : (i j : ℕ) (f : ℕ → A) → t.above (f i) (f j) ≡ false → Pass i j f → Pass i (j + 1) f
  Pass-kept i j f kept p = record {
    placed = p.placed;
    least = λ b x y. elim (Bool-cases (b == j)) [
      | inl e ↦ rw (==→≡ b j e) kept
      | inr e ↦ p.least b x (ground arith)
    ];
  }

  record Passed (i j : ℕ) (s r : S) : Type 0 where
    fine : t.IsFine r
    rows : Rearranges n (t.view s) (t.view r)
    pass : Pass i j (t.view r)

  -- The body of the inner loop.
  abbrev body : ℕ → ℕ → S → S
  body i j s = if t.exceeds s i j then t.exchange i j s else s

  body-Passed :
      (i j : ℕ) (s : S)
      → n ≤ t.limit
      → i < j
      → j < n
      → t.IsFine s
      → Pass i j (t.view s)
      → Passed i (j + 1) s (body i j s)
  body-Passed i j s fits x y fine p =
      let agree = t.exceeds_view s i j fine (omega arith) (omega arith) in
      elim (Bool-cases (t.exceeds s i j)) [
        | inl more ↦
            let e : (k : ℕ)
                → k < n
                → t.view (t.exchange i j s) k
                  ≡ (if k == i then t.view s j else if k == j then t.view s i else t.view s k) =
              λ k h. t.exchange_view i j k s fine x (omega arith) (omega arith) in
            rw more (record {
              fine = t.exchange-IsFine i j s fine x (omega arith);
              rows =
                  Rearranges-swapped n i j (t.view s) (t.view (t.exchange i j s)) (omega arith) y e;
              pass =
                  Pass-exchanged i j (t.view s) (t.view (t.exchange i j s)) x y (rw (← agree) more)
                    e p;
            })
        | inr less ↦ rw less (record {
          fine = fine;
          rows = Rearranges_refl n (t.view s);
          pass = Pass-kept i j (t.view s) (rw (← agree) less) p;
        })
      ]

  sort_inner-Passed :
      (left i j : ℕ) (s : S)
      → n ≤ t.limit
      → i < j
      → j + left ≡ n
      → t.IsFine s
      → Pass i j (t.view s)
      → Passed i n s (sort_inner t.exceeds t.exchange left i j s)
  unfolding sort_inner
  sort_inner-Passed zero i j s fits x e fine p =
      let q : j ≡ n = omega arith in
      record { fine = fine; rows = Rearranges_refl n (t.view s); pass = rw q at p }
  sort_inner-Passed (suc left) i j s fits x e fine p =
      let one = body-Passed i j s fits x (omega arith) fine p in
      let all =
        sort_inner-Passed left i (j + 1) (body i j s) fits (omega arith) (omega arith) one.fine
          one.pass in
      record {
        fine = all.fine;
        rows = Rearranges_trans n (t.view s) (t.view (body i j s)) _ one.rows all.rows;
        pass = all.pass;
      }

  -- The row that a pass leaves at `i` is right for good.
  Pass-next : (i : ℕ) (f : ℕ → A) → Pass i n f → Pass (i + 1) (i + 1 + 1) f
  Pass-next i f p = record {
    placed = λ a b x y z. elim (Bool-cases (a == i)) [
      | inl e ↦ rw (==→≡ a i e) (p.least b (ground arith) z)
      | inr e ↦ p.placed a b (ground arith) y z
    ];
    least = λ b x y. absurd (omega arith);
  }

  sort_outer-Passed :
      (left i : ℕ) (s : S)
      → n ≤ t.limit
      → i + left ≡ n
      → t.IsFine s
      → Pass i (i + 1) (t.view s)
      → Passed n (n + 1) s (sort_outer t.exceeds t.exchange left i s)
  unfolding sort_outer
  sort_outer-Passed zero i s fits e fine p =
      let q : i ≡ n = omega arith in
      record { fine = fine; rows = Rearranges_refl n (t.view s); pass = rw q at p }
  sort_outer-Passed (suc left) i s fits e fine p =
      let one = sort_inner-Passed left i (i + 1) s fits (omega arith) (omega arith) fine p in
      let s' = sort_inner t.exceeds t.exchange left i (i + 1) s in
      let all =
        sort_outer-Passed left (i + 1) s' fits (omega arith) one.fine
          (Pass-next i (t.view s') one.pass) in
      record {
        fine = all.fine;
        rows = Rearranges_trans n (t.view s) (t.view s') _ one.rows all.rows;
        pass = all.pass;
      }

-- The rows of a state in order: none exceeds a later one.
abbrev pub IsSorted : {S A : Type 0} → Table S A → ℕ → S → Type 0
IsSorted t n s = (a b : ℕ) → a < b → b < n → t.above (t.view s a) (t.view s b) ≡ false

-- On any table whose rows are compared as an order does and exchanged as two values are, the sort
-- of the first `n` rows leaves a fine state whose rows are the old ones, each in one place, with
-- none above a later one.
pub exchange_sort-IsSorted :
    {S A : Type 0} (t : Table S A) (n : ℕ) (s : S)
    → n ≤ t.limit
    → t.IsFine s
    → let r = exchange_sort t.exceeds t.exchange n s in
      t.IsFine r × Rearranges n (t.view s) (t.view r) × IsSorted t n r
unfolding exchange_sort
exchange_sort-IsSorted t n s fits fine =
    let all = sort_outer-Passed t n n 0 s fits (omega arith) fine (record {
      placed = λ a b x y z. absurd (omega arith);
      least = λ b x y. absurd (omega arith);
    }) in
    (all.fine, all.rows, λ a b x y. all.pass.placed a b (omega arith) x y)
