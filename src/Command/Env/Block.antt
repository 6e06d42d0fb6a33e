-- ===== src/Command/Env/Block.antt =====
-- Strings in memory, and the loops of command.c that read one.
use rmdos.Base.{
  ℕ, zero, suc, ◌+◌, ◌≤◌, ◌<◌, Bool, true, false, ◌&&◌, List, [], ◌∷◌, ◌≡◌, ◌≢◌, inl, inr, refl,
  ◌∙◌, arith, ◌==◌, if◌then◌else◌, Buffer, Bool-cases, length, Option, none, some,
}
use rmdos.Strings.{At, At-same, drop}
use rmdos.Runtime.{toupper_ch}
use rmdos.Command.Env.{env_skip, name_eq_from, env_name_eq, str_len, bytes_from}

pub str_len-length :
    (cs : List ℕ) (fuel : ℕ) (m : Buffer) (p : ℕ)
    → At cs m p
    → length cs < fuel
    → str_len fuel m p ≡ p + length cs
unfolding str_len
str_len-length cs zero m p a f = elim f [ ]
str_len-length [] (suc fuel) m p a f = ground arith
str_len-length (c ∷ cs) (suc fuel) m p (e, b, z, a) f =
    ground (arith, str_len-length cs fuel m (p + 1) a)

pub env_skip-length :
    (cs : List ℕ) (fuel : ℕ) (m : Buffer) (p : ℕ)
    → At cs m p
    → length cs < fuel
    → env_skip fuel m p ≡ p + length cs + 1
unfolding env_skip
env_skip-length cs zero m p a f = elim f [ ]
env_skip-length [] (suc fuel) m p a f = ground arith
env_skip-length (c ∷ cs) (suc fuel) m p (e, b, z, a) f =
    ground (arith, env_skip-length cs fuel m (p + 1) a)

pub bytes_from-At :
    (cs : List ℕ) (fuel : ℕ) (m : Buffer) (p : ℕ)
    → At cs m p
    → length cs < fuel
    → bytes_from fuel m p ≡ cs
unfolding bytes_from
bytes_from-At cs zero m p a f = elim f [ ]
bytes_from-At [] (suc fuel) m p a f = ground arith
bytes_from-At (c ∷ cs) (suc fuel) m p (e, b, z, a) f =
    ground (arith, bytes_from-At cs fuel m (p + 1) a)

-- A string "NAME=value" whose name is `ns`, upper and lower case the same.
abbrev pub has_name : List ℕ → List ℕ → Bool
has_name [] [] = false
has_name [] (c ∷ cs) = c == 61
has_name (n ∷ ns) [] = false
has_name (n ∷ ns) (c ∷ cs) = toupper_ch c == toupper_ch n && has_name ns cs

upper_nul : (n : ℕ) → n ≢ 0 → (toupper_ch 0 == toupper_ch n) ≡ false
unfolding toupper_ch
upper_nul n h = ground arith

name_eq_from-has_name :
    (ns cs : List ℕ) (fuel : ℕ) (m : Buffer) (p : ℕ) (name : Buffer) (i : ℕ)
    → At ns name i
    → At cs m (p + i)
    → length ns < fuel
    → name_eq_from fuel m p name i ≡ has_name ns cs
unfolding name_eq_from
name_eq_from-has_name ns cs zero m p name i a b f = elim f [ ]
name_eq_from-has_name [] [] (suc fuel) m p name i a b f = ground arith
name_eq_from-has_name [] (c ∷ cs) (suc fuel) m p name i a (e, x, y, b) f = ground arith
name_eq_from-has_name (n ∷ ns) [] (suc fuel) m p name i (e, x, y, a) b f =
    let some_letter : (n == 0) ≡ false = ground arith in rw (e, b, some_letter, upper_nul n y) refl
name_eq_from-has_name (n ∷ ns) (c ∷ cs) (suc fuel) m p name i (e, x, y, a) (e', x', y', b) f =
    let some_letter : (n == 0) ≡ false = ground arith in
    let next : p + (i + 1) ≡ p + i + 1 = omega arith in
    let rest = name_eq_from-has_name ns cs fuel m p name (i + 1) a (rw next b) (omega arith) in
    elim (Bool-cases (toupper_ch c == toupper_ch n)) [
      | inl e2 ↦ rw (e, e', some_letter, e2) rest
      | inr e2 ↦ rw (e, e', some_letter, e2) refl
    ]

pub env_name_eq-has_name :
    (ns cs : List ℕ) (fuel : ℕ) (m : Buffer) (p : ℕ) (name : Buffer)
    → At ns name 0
    → At cs m p
    → length ns < fuel
    → env_name_eq fuel m p name ≡ has_name ns cs
unfolding env_name_eq
env_name_eq-has_name ns cs fuel m p name a b f =
    let start : p + 0 ≡ p = omega arith in
    name_eq_from-has_name ns cs fuel m p name 0 a (rw start b) f

-- A name is shorter than a string that has it.
pub has_name-length : (ns cs : List ℕ) → has_name ns cs ≡ true → length ns < length cs
has_name-length [] [] h = cc
has_name-length [] (c ∷ cs) h = omega arith
has_name-length (n ∷ ns) [] h = cc
has_name-length (n ∷ ns) (c ∷ cs) h = elim (Bool-cases (toupper_ch c == toupper_ch n)) [
  | inl e ↦ omega (arith, has_name-length ns cs (rw e at h))
  | inr e ↦ let never : false ≡ true = rw e at h in cc
]

-- The value of a string whose name has `n` bytes.
abbrev pub value_behind : ℕ → List ℕ → List ℕ
value_behind n cs = drop (n + 1) cs

-- The strings of a block, none of them empty.
abbrev pub Block : List (List ℕ) → Buffer → ℕ → Type 0
Block [] m p = m p ≡ 0
Block (e ∷ es) m p = (0 < length e) × At e m p × Block es m (p + length e + 1)

-- The bytes of the block, with the NUL that ends it.
abbrev pub size : List (List ℕ) → ℕ
size [] = 1
size (e ∷ es) = length e + 1 + size es

pub Block-same :
    (es : List (List ℕ)) (m m' : Buffer) (p : ℕ)
    → ((j : ℕ) → p ≤ j → j < p + size es → m' j ≡ m j)
    → Block es m p
    → Block es m' p
Block-same [] m m' p h b = h p (omega arith) (omega arith) ∙ b
Block-same (e ∷ es) m m' p h (some_bytes, a, b) = (
  some_bytes,
  At-same e m m' p (λ j x y. h j (omega arith) (omega arith)) a,
  Block-same es m m' (p + length e + 1) (λ j x y. h j (omega arith) (omega arith)) b,
)

-- The value of the first string with the name.
abbrev pub lookup : List ℕ → List (List ℕ) → Option (List ℕ)
lookup ns [] = none
lookup ns (e ∷ es) = if has_name ns e then some (value_behind (length ns) e) else lookup ns es
