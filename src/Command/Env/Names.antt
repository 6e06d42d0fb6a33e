-- ===== src/Command/Env/Names.antt =====
-- What is found after a `put`.
use rmdos.Base.{
  ℕ, suc, ◌+◌, true, false, ◌&&◌, List, [], ◌∷◌, ◌++◌, ◌≡◌, ◌≢◌, inl, inr, refl, ap, ◌∙◌, arith,
  ◌==◌, if◌then◌else◌, Bool-cases, length, Option, none, some, ==→≡,
}
use rmdos.Strings.{same_name}
use Prim.{Unit}
use rmdos.Runtime.{toupper_ch}
use rmdos.Command.Env.Block.{has_name, value_behind, lookup}
use rmdos.Command.Env.Put.{added, put}

-- A name has no '='.
abbrev pub IsName : List ℕ → Type 0
IsName [] = Unit
IsName (c ∷ cs) = (c ≢ 61) × IsName cs

upper_sign : (c d : ℕ) → (toupper_ch c == toupper_ch d) ≡ true → d ≢ 61 → c ≢ 61
unfolding toupper_ch
upper_sign c d h k = ground arith

upper_trans :
    (c d e : ℕ)
    → (toupper_ch c == toupper_ch d) ≡ true
    → (toupper_ch c == toupper_ch e) ≡ (toupper_ch d == toupper_ch e)
upper_trans c d e h =
    let same : toupper_ch c ≡ toupper_ch d = ==→≡ (toupper_ch c) (toupper_ch d) h in rw same refl

-- Whether a string that has the name `ns` also has the name `ms`.
has_name-same_name :
    (ms ns e : List ℕ)
    → IsName ms
    → IsName ns
    → has_name ns e ≡ true
    → has_name ms e ≡ same_name ms ns
has_name-same_name [] [] [] i k h = cc
has_name-same_name [] [] (c ∷ cs) i k h = h
has_name-same_name [] (n ∷ ns) [] i k h = cc
has_name-same_name [] (n ∷ ns) (c ∷ cs) i (k, ks) h =
    elim (Bool-cases (toupper_ch c == toupper_ch n)) [
      | inl e ↦ let other = upper_sign c n e k in ground arith
      | inr e ↦ let never : false ≡ true = rw e at h in cc
    ]
has_name-same_name (m ∷ ms) [] [] i k h = cc
has_name-same_name (m ∷ ms) [] (c ∷ cs) (i, is) k h =
    elim (Bool-cases (toupper_ch c == toupper_ch m)) [
      | inl e ↦ let other = upper_sign c m e i in ground arith
      | inr e ↦ rw e refl
    ]
has_name-same_name (m ∷ ms) (n ∷ ns) [] i k h = cc
has_name-same_name (m ∷ ms) (n ∷ ns) (c ∷ cs) (i, is) (k, ks) h =
    elim (Bool-cases (toupper_ch c == toupper_ch n)) [
      | inl e ↦ rw (upper_trans c n m e) (
          ap (λ b. toupper_ch n == toupper_ch m && b)
            (has_name-same_name ms ns cs is ks (rw e at h)))
      | inr e ↦ let never : false ≡ true = rw e at h in cc
    ]

-- A string without the name has no other spelling of it.
has_name_spelling :
    (ms ns e : List ℕ) → same_name ms ns ≡ true → has_name ns e ≡ false → has_name ms e ≡ false
has_name_spelling [] [] e s h = h
has_name_spelling [] (n ∷ ns) e s h = cc
has_name_spelling (m ∷ ms) [] e s h = cc
has_name_spelling (m ∷ ms) (n ∷ ns) [] s h = refl
has_name_spelling (m ∷ ms) (n ∷ ns) (c ∷ cs) s h =
    elim (Bool-cases (toupper_ch n == toupper_ch m)) [
      | inr e ↦ let never : false ≡ true = rw e at s in cc
      | inl e ↦
          let same : toupper_ch n ≡ toupper_ch m = ==→≡ (toupper_ch n) (toupper_ch m) e in
          let h' : (toupper_ch c == toupper_ch m && has_name ns cs) ≡ false = rw same at h in
          elim (Bool-cases (toupper_ch c == toupper_ch m)) [
            | inl d ↦ rw d (has_name_spelling ms ns cs (rw e at s) (rw d at h'))
            | inr d ↦ rw d refl
          ]
    ]

has_name-new : (ns vs : List ℕ) → has_name ns (ns ++ 61 ∷ vs) ≡ true
has_name-new [] vs = refl
has_name-new (n ∷ ns) vs =
    let same : (toupper_ch n == toupper_ch n) ≡ true = ground arith in rw same (has_name-new ns vs)

same_name-length : (ms ns : List ℕ) → same_name ms ns ≡ true → length ms ≡ length ns
same_name-length [] [] h = refl
same_name-length [] (n ∷ ns) h = cc
same_name-length (m ∷ ms) [] h = cc
same_name-length (m ∷ ms) (n ∷ ns) h = elim (Bool-cases (toupper_ch n == toupper_ch m)) [
  | inl e ↦ ap suc (same_name-length ms ns (rw e at h))
  | inr e ↦ let never : false ≡ true = rw e at h in cc
]

drop_name : (ns vs : List ℕ) → value_behind (length ns) (ns ++ 61 ∷ vs) ≡ vs
drop_name [] vs = refl
drop_name (n ∷ ns) vs =
    let e : suc (length ns) + 1 ≡ suc (length ns + 1) = omega arith in rw e (drop_name ns vs)

-- The value, unless it is empty.
abbrev pub given : List ℕ → Option (List ℕ)
given [] = none
given (c ∷ cs) = some (c ∷ cs)

lookup-added :
    (ms ns vs : List ℕ)
    → IsName ms
    → IsName ns
    → lookup ms (added ns vs) ≡ (if same_name ms ns then given vs else none)
lookup-added ms ns [] i k = elim (Bool-cases (same_name ms ns)) [
  | inl e ↦ rw e refl
  | inr e ↦ rw e refl
]
lookup-added ms ns (c ∷ cs) i k =
    let new = has_name-same_name ms ns (ns ++ 61 ∷ c ∷ cs) i k (has_name-new ns (c ∷ cs)) in
    elim (Bool-cases (same_name ms ns)) [
      | inl e ↦ rw (new, e, same_name-length ms ns e, drop_name ns (c ∷ cs)) refl
      | inr e ↦ rw (new, e) refl
    ]

-- After a `put` the name is found with its value, or not at all if that is empty; every other name
-- as before.
pub lookup-put :
    (ms ns vs : List ℕ) (es : List (List ℕ))
    → IsName ms
    → IsName ns
    → lookup ms (put ns vs es) ≡ (if same_name ms ns then given vs else lookup ms es)
lookup-put ms ns vs [] i k = lookup-added ms ns vs i k
lookup-put ms ns vs (e ∷ es) i k =
    let rest = lookup-put ms ns vs es i k in
    elim (Bool-cases (same_name ms ns)) [
      | inl x ↦
          let rest' : lookup ms (put ns vs es) ≡ given vs = rw x at rest in
          elim (Bool-cases (has_name ns e)) [
            | inl y ↦ rw (y, x) rest'
            | inr y ↦ rw (y, x, has_name_spelling ms ns e x y) rest'
          ]
      | inr x ↦
          let rest' : lookup ms (put ns vs es) ≡ lookup ms es = rw x at rest in
          elim (Bool-cases (has_name ns e)) [
            | inl y ↦
                let other : has_name ms e ≡ false = has_name-same_name ms ns e i k y ∙ x in
                rw (y, x, other) rest'
            | inr y ↦
                rw (y, x)
                  (ap (λ o. if has_name ms e then some (value_behind (length ms) e) else o) rest')
          ]
    ]
