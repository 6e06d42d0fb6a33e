-- ===== src/Command/Env/Put.antt =====
-- What `env_put` leaves: the strings without the old one of that name, the new string behind them,
-- and what stood behind the old block's end.
use Prim.{Unit}
use rmdos.Base.{
  ℕ, zero, suc, ◌+◌, ◌≤◌, ◌<◌, true, false, List, [], ◌∷◌, ◌++◌, ◌≡◌, ◌≢◌, ◌⊎◌, inl, inr, refl, ◌∙◌,
  arith, ◌==◌, if◌then◌else◌, Buffer, buf_set, Bool-cases, length, Option, none, some,
}
use rmdos.Strings.{At, At-same}
use rmdos.Command.Env.{
  Sys, base, env_seg, env_set_seg, str_len, Place, copy_string, write_string, put_end, put_from,
  clamped_paras, env_put,
}
use rmdos.Command.Env.Block.{
  str_len-length, env_skip-length, has_name, env_name_eq-has_name, Block, Block-same, size,
}
use rmdos.Command.Env.Kept.{Apart, copy_string-Brought, Wrote, write_string-Wrote, length-append}

-- The new string; an empty value has none.
abbrev pub added : List ℕ → List ℕ → List (List ℕ)
added ns [] = []
added ns (c ∷ cs) = (ns ++ 61 ∷ c ∷ cs) ∷ []

-- The strings after NAME has got the value.
abbrev pub put : List ℕ → List ℕ → List (List ℕ) → List (List ℕ)
put ns vs [] = added ns vs
put ns vs (e ∷ es) = if has_name ns e then put ns vs es else e ∷ put ns vs es

-- The pointer `value`; `env_put` takes a null pointer for an empty value.
abbrev pub Given : List ℕ → Option Buffer → Type 0
Given [] none = Unit
Given (c ∷ cs) none = ⊥
Given vs (some value) = At vs value 0

-- The strings `es` and the text behind them stand at `q`, and the rest of the memory is as it was.
pub record Stands (es : List (List ℕ)) (tail : List ℕ) (m : Buffer) (q : ℕ) (m' : Buffer)
    : Type 0 where
  pub strings : Block es m' q
  pub behind : At tail m' (q + size es)
  pub others : (j : ℕ) → (j < q) ⊎ (q + size es + length tail < j) → m' j ≡ m j

set_apart : (m : Buffer) (q c j : ℕ) → j ≢ q → buf_set m q c j ≡ m j
set_apart m q c j h = ground arith

-- The end of the block, and the text behind it.
ended :
    (tail : List ℕ) (fuel : ℕ) (m : Buffer) (p q : ℕ)
    → At tail m (p + 1)
    → length tail < fuel
    → Apart p (length tail + 2) q (length tail + 2)
    → Stands [] tail m q (copy_string fuel (buf_set m q 0) (p + 1) (q + 1)).mem
ended tail fuel m p q a f h =
    let a' =
      At-same tail m (buf_set m q 0) (p + 1)
        (λ j x y. set_apart m q 0 j (elim h [ inl u ↦ omega arith | inr u ↦ omega arith ])) a in
    let r =
      copy_string-Brought tail fuel (buf_set m q 0) (p + 1) (q + 1) a' f
        (elim h [ inl u ↦ inl (omega arith) | inr u ↦ inr (omega arith) ]) in
    let nul : buf_set m q 0 q ≡ 0 = ground arith in
    record {
      strings = r.others q (inl (omega arith)) ∙ nul;
      behind = r.text;
      others = λ j x.
          r.others j (elim x [ inl u ↦ inl (omega arith) | inr u ↦ inr (omega arith) ])
          ∙ set_apart m q 0 j (elim x [ inl u ↦ omega arith | inr u ↦ omega arith ]);
    }

-- A string in front of what stands behind it.
in_front :
    (e : List ℕ) (es : List (List ℕ)) (tail : List ℕ) (m m1 : Buffer) (q : ℕ) (m2 : Buffer)
    → 0 < length e
    → At e m1 q
    → ((j : ℕ) → (j < q) ⊎ (q + length e < j) → m1 j ≡ m j)
    → Stands es tail m1 (q + length e + 1) m2
    → Stands (e ∷ es) tail m q m2
in_front e es tail m m1 q m2 k a o r =
    let there : q + (length e + 1 + size es) ≡ q + length e + 1 + size es = omega arith in
    record {
      strings = (k, At-same e m1 m2 q (λ j x y. r.others j (inl (omega arith))) a, r.strings);
      behind = rw there r.behind;
      others = λ j x.
          r.others j (elim x [ inl u ↦ inl (omega arith) | inr u ↦ inr (omega arith) ])
          ∙ o j (elim x [ inl u ↦ inl u | inr u ↦ inr (omega arith) ]);
    }

put_end-Stands :
    (ns vs tail : List ℕ) (fuel : ℕ) (name : Buffer) (value : Option Buffer) (m : Buffer) (p q : ℕ)
    → At ns name 0
    → Given vs value
    → At tail m (p + 1)
    → length ns < fuel
    → length vs < fuel
    → length tail < fuel
    → Apart p (length tail + 2) q (size (added ns vs) + length tail + 1)
    → Stands (added ns vs) tail m q (put_end fuel name value m p q)
unfolding put_end
put_end-Stands ns [] tail fuel name none m p q a b t f g k h =
    ended tail fuel m p q t k (elim h [ inl u ↦ inl u | inr u ↦ inr (omega arith) ])
put_end-Stands ns (c ∷ cs) tail fuel name none m p q a b t f g k h = elim b [ ]
put_end-Stands ns [] tail fuel name (some value) m p q a b t f g k h =
    rw b (ended tail fuel m p q t k (elim h [ inl u ↦ inl u | inr u ↦ inr (omega arith) ]))
put_end-Stands ns (c ∷ cs) tail fuel name (some value) m p q a (e, x, z, b) t f g k h =
    let some_letter : (value 0 == 0) ≡ false = ground arith in
    let n : str_len fuel name 0 ≡ length ns = str_len-length ns fuel name 0 a f ∙ omega arith in
    let v : str_len fuel value 0 ≡ length (c ∷ cs) =
      str_len-length (c ∷ cs) fuel value 0 (e, x, z, b) g ∙ omega arith in
    let new = ns ++ 61 ∷ c ∷ cs in
    let len : length new ≡ length ns + suc (suc (length cs)) = length-append ns (61 ∷ c ∷ cs) in
    let m1 = write_string fuel name value m q in
    let w : Wrote new m q m1 =
      write_string-Wrote ns (c ∷ cs) fuel name value m q a (e, x, z, b) f g in
    let q' : q + length ns + 1 + length (c ∷ cs) + 1 ≡ q + length new + 1 = omega (arith, len) in
    let t' =
      At-same tail m m1 (p + 1)
        (λ j x y. w.others j (elim h [ inl u ↦ inl (omega arith) | inr u ↦ inr (omega arith) ]))
        t in
    let r =
      ended tail fuel m1 p (q + length new + 1) t' k
        (elim h [ inl u ↦ inl (omega arith) | inr u ↦ inr (omega arith) ]) in
    rw (some_letter, n, v, q')
      (in_front new [] tail m m1 q
        (copy_string fuel (buf_set m1 (q + length new + 1) 0) (p + 1) (q + length new + 1 + 1)).mem
        (omega (arith, len)) w.text w.others r)

put_from-Stands :
    (es : List (List ℕ)) (ns vs tail : List ℕ) (fuel : ℕ) (name : Buffer) (value : Option Buffer)
    (m : Buffer) (p q : ℕ)
    → At ns name 0
    → Given vs value
    → Block es m p
    → At tail m (p + size es)
    → length ns + length vs + length tail + size es < fuel
    → Apart p (size es + length tail + 1) q (size (put ns vs es) + length tail + 1)
    → Stands (put ns vs es) tail m q (put_from fuel name value m p q)
unfolding put_from
put_from-Stands es ns vs tail zero name value m p q a v b t f h = elim f [ ]
put_from-Stands [] ns vs tail (suc fuel) name value m p q a v b t f h = rw b (
    put_end-Stands ns vs tail fuel name value m p q a v t (omega arith) (omega arith) (omega arith)
      (elim h [ inl u ↦ inl (omega arith) | inr u ↦ inr u ]))
put_from-Stands (e ∷ es) ns vs tail (suc fuel) name value m p q a v (k, x, b) t f h =
    let there : p + (length e + 1 + size es) ≡ p + length e + 1 + size es = omega arith in
    let t1 : At tail m (p + length e + 1 + size es) = rw there at t in
    let not_end : (m p == 0) ≡ false = first_byte e m p k x in
    let same_name = env_name_eq-has_name ns e fuel m p name a x (omega arith) in
    let next = env_skip-length e fuel m p x (omega arith) in
    elim (Bool-cases (has_name ns e)) [
      | inl y ↦
          let h' = rw y at h in
          rw (not_end, same_name, y, next)
            (put_from-Stands es ns vs tail fuel name value m (p + length e + 1) q a v b t1
              (omega arith) (elim h' [ inl u ↦ inl (omega arith) | inr u ↦ inr (omega arith) ]))
      | inr n ↦
          let h' = rw n at h in
          let r =
            copy_string-Brought e fuel m p q x (omega arith)
              (elim h' [ inl u ↦ inl (omega arith) | inr u ↦ inr (omega arith) ]) in
          let place : Place = copy_string fuel m p q in
          let b' =
            Block-same es m place.mem (p + length e + 1)
              (λ j x y.
                r.others j (elim h' [ inl u ↦ inl (omega arith) | inr u ↦ inr (omega arith) ]))
              b in
          let t' =
            At-same tail m place.mem (p + length e + 1 + size es)
              (λ j x y.
                r.others j (elim h' [ inl u ↦ inl (omega arith) | inr u ↦ inr (omega arith) ]))
              t1 in
          let rest =
            put_from-Stands es ns vs tail fuel name value place.mem (p + length e + 1)
              (q + length e + 1) a v b' t' (omega arith)
              (elim h' [ inl u ↦ inl (omega arith) | inr u ↦ inr (omega arith) ]) in
          rw (not_end, same_name, n, r.oi, r.ni)
            (in_front e (put ns vs es) tail m place.mem q
              (put_from fuel name value place.mem (p + length e + 1) (q + length e + 1)) k r.text
              r.others rest)
    ]
  where
    first_byte : (e : List ℕ) (m : Buffer) (p : ℕ) → 0 < length e → At e m p → (m p == 0) ≡ false
    first_byte [] m p h a = elim h [ ]
    first_byte (c ∷ cs) m p h (e, b, z, a) = ground arith

-- The environment `es` has become the program's, in segment `neu`.
pub record Renewed (es : List (List ℕ)) (tail : List ℕ) (neu : ℕ) (s r : Sys) : Type 0 where
  pub seg : env_seg r ≡ neu
  pub strings : Block es r.mem (base neu)
  pub behind : At tail r.mem (base neu + size es)
  pub others :
      (j : ℕ)
      → (j < base neu) ⊎ (base neu + size es + length tail < j)
      → (j < base s.psp + 44) ⊎ (base s.psp + 45 < j)
      → r.mem j ≡ s.mem j

set_seg_apart :
    (neu : ℕ) (s : Sys) (j : ℕ)
    → (j < base s.psp + 44) ⊎ (base s.psp + 45 < j)
    → (env_set_seg neu s).mem j ≡ s.mem j
unfolding env_set_seg
set_seg_apart neu s j h = ground arith

set_seg_there : (neu : ℕ) (s : Sys) → neu < 65536 → env_seg (env_set_seg neu s) ≡ neu
unfolding env_seg env_set_seg
set_seg_there neu s h =
    let first : (base s.psp + 44 == base s.psp + 45) ≡ false = ground arith in
    let here : (a : ℕ) → (a == a) ≡ true = λ a. ground arith in
    rw (first, here (base s.psp + 44), here (base s.psp + 45)) (omega arith)

renewed :
    (es : List (List ℕ)) (tail : List ℕ) (neu : ℕ) (s t : Sys)
    → neu < 65536
    → s.psp ≡ t.psp
    → Stands es tail s.mem (base neu) t.mem
    → Apart (base s.psp + 44) 2 (base neu) (size es + length tail + 1)
    → Renewed es tail neu s (env_set_seg neu t)
renewed es tail neu s t k e r h =
    let h' : Apart (base t.psp + 44) 2 (base neu) (size es + length tail + 1) = rw e at h in
    let outside : (j : ℕ)
        → base neu ≤ j
        → j < base neu + (size es + length tail + 1)
        → (j < base t.psp + 44) ⊎ (base t.psp + 45 < j) =
      λ j x y. elim h' [ inl u ↦ inr (omega arith) | inr u ↦ inl (omega arith) ] in
    record {
      seg = set_seg_there neu t k;
      strings =
          Block-same es t.mem (env_set_seg neu t).mem (base neu)
            (λ j x y. set_seg_apart neu t j (outside j x (omega arith))) r.strings;
      behind =
          At-same tail t.mem (env_set_seg neu t).mem (base neu + size es)
            (λ j x y. set_seg_apart neu t j (outside j (omega arith) (omega arith))) r.behind;
      others = λ j x y. set_seg_apart neu t j (rw e at y) ∙ r.others j x;
    }

-- `env_put` leaves, in the block that `dos_alloc` gives, the strings that do not have the name,
-- upper and lower case the same, in their order, behind them the new one, unless the value is
-- empty, and then the text that stood behind the old block; the PSP names the new block, and the
-- rest of the memory is as it was. The old segment and the new one are not 0, the texts have NULs,
-- the strings are not empty, the fuel covers them, and what is written meets neither the old block
-- nor the PSP's word.
pub env_put-Renewed :
    (es : List (List ℕ)) (ns vs tail : List ℕ) (dos_alloc : ℕ → ℕ) (fuel : ℕ) (name : Buffer)
    (value : Option Buffer) (s : Sys) (neu : ℕ)
    → env_seg s ≢ 0
    → dos_alloc (clamped_paras s.env_paras) ≡ neu
    → 0 < neu
    → neu < 65536
    → At ns name 0
    → Given vs value
    → Block es s.mem (base (env_seg s))
    → At tail s.mem (base (env_seg s) + size es)
    → length ns + length vs + length tail + size es < fuel
    → Apart
        (base (env_seg s))
        (size es + length tail + 1)
        (base neu)
        (size (put ns vs es) + length tail + 1)
    → Apart (base s.psp + 44) 2 (base neu) (size (put ns vs es) + length tail + 1)
    → Renewed (put ns vs es) tail neu s (env_put dos_alloc fuel name value s)
unfolding env_put
env_put-Renewed es ns vs tail dos_alloc fuel name value s neu h g k l a v b t f x y =
    let some_seg : (env_seg s == 0) ≡ false = ground arith in
    let got : (neu == 0) ≡ false = ground arith in
    rw (some_seg, g, got)
      (renewed (put ns vs es) tail neu s
        (record s {
          mem = put_from fuel name value s.mem (base (env_seg s)) (base neu);
          env_paras = clamped_paras s.env_paras;
        })
        l refl
        (put_from-Stands es ns vs tail fuel name value s.mem (base (env_seg s)) (base neu) a v b t f
          x)
        y)
