-- ===== src/Compare/Laws.antt =====
-- When a comparison orders its values, and comparisons built from others.
use rmdos.Base.{false, ◌≡◌, refl, ap, arith}
use rmdos.Compare.{Sign, less, same, more, is_more, flip, or_next, sign_of}

-- A total preorder: turned round the sign flips, and "not above" is transitive.
pub record IsOrder {A : Type 0} (cmp : A → A → Sign) : Type 0 where
  pub flips : (x y : A) → cmp y x ≡ flip (cmp x y)
  pub trans :
      (x y z : A)
      → is_more (cmp x y) ≡ false
      → is_more (cmp y z) ≡ false
      → is_more (cmp x z) ≡ false

flip-flip : (r : Sign) → flip (flip r) ≡ r
flip-flip less = refl
flip-flip same = refl
flip-flip more = refl

pub flip-IsOrder : {A : Type 0} (cmp : A → A → Sign) → IsOrder cmp → IsOrder (λ x y. flip (cmp x y))
flip-IsOrder cmp o = record {
  flips = λ x y. ap flip (o.flips x y);
  trans = λ x y z h k. ground (arith, o.flips x y, o.flips y z, o.flips x z, o.trans z y x);
}

pub on-IsOrder :
    {A B : Type 0} (f : A → B) (cmp : B → B → Sign) → IsOrder cmp → IsOrder (λ x y. cmp (f x) (f y))
on-IsOrder f cmp o = record {
  flips = λ x y. o.flips (f x) (f y);
  trans = λ x y z. o.trans (f x) (f y) (f z);
}

pub or_next-IsOrder :
    {A : Type 0} (c d : A → A → Sign)
    → IsOrder c
    → IsOrder d
    → IsOrder (λ x y. or_next (c x y) (d x y))
or_next-IsOrder c d o q = record {
  flips = λ x y. ground (arith, o.flips x y, q.flips x y);
  trans = λ x y z h k. ground (
    arith,
    o.flips x y,
    o.flips y z,
    o.flips x z,
    o.trans x y z,
    o.trans z x y,
    o.trans y z x,
    o.trans x z y,
    o.trans z y x,
    o.trans y x z,
    q.trans x y z,
  );
}

pub sign_of-IsOrder : IsOrder sign_of
sign_of-IsOrder = record { flips = λ x y. ground arith; trans = λ x y z h k. ground arith }
