-- ===== src/Command/Env/Shown.antt =====
-- What command.c prints of the environment, and what it finds after a SET.
use rmdos.Base.{
  ℕ, zero, suc, ◌+◌, ◌≤◌, ◌<◌, Bool, true, false, List, [], ◌∷◌, ◌++◌, ◌≡◌, ◌≢◌, inl, inr, refl,
  sym, ap, arith, ◌==◌, if◌then◌else◌, Buffer, Bool-cases, length, Option, none, some,
}
use rmdos.Strings.{At, At-drop, same_name}
use mathlib.Core.Path.{ap₂}
use rmdos.Command.Env.{
  Sys, base, env_seg, env_copy_var, print_from, print_env_value, dump_from, env_dump, clamped_paras,
  env_put,
}
use rmdos.Command.Env.Block.{
  str_len-length, bytes_from-At, env_skip-length, has_name, has_name-length, env_name_eq-has_name,
  value_behind, Block, size, lookup,
}
use rmdos.Command.Env.Kept.{Apart}
use rmdos.Command.Env.Put.{put, Given, Renewed, env_put-Renewed}
use rmdos.Command.Env.Lookup.{Answers, env_copy_var-Answers}
use rmdos.Command.Env.Names.{IsName, given, lookup-put}

first_byte : (e : List ℕ) (m : Buffer) (p : ℕ) → 0 < length e → At e m p → (m p == 0) ≡ false
first_byte [] m p h a = elim h [ ]
first_byte (c ∷ cs) m p h (e, b, z, a) = ground arith

-- The value that is printed, and whether there is one.
abbrev pub shown : Option (List ℕ) → Bool × List ℕ
shown none = (false, [])
shown (some v) = (true, v)

drop_shorter : (n : ℕ) (cs : List ℕ) → length (value_behind n cs) ≤ length cs
drop_shorter zero [] = omega arith
drop_shorter zero (c ∷ cs) = omega arith
drop_shorter (suc n) [] = let e : suc n + 1 ≡ suc (n + 1) = omega arith in rw e (omega arith)
drop_shorter (suc n) (c ∷ cs) =
    let e : suc n + 1 ≡ suc (n + 1) = omega arith in rw e (omega (arith, drop_shorter n cs))

print_from-shown :
    (es : List (List ℕ)) (ns : List ℕ) (fuel : ℕ) (m : Buffer) (p : ℕ) (name : Buffer)
    → At ns name 0
    → Block es m p
    → length ns + size es < fuel
    → print_from fuel m p name ≡ shown (lookup ns es)
unfolding print_from
print_from-shown es ns zero m p name a b f = elim f [ ]
print_from-shown [] ns (suc fuel) m p name a b f = rw b refl
print_from-shown (e ∷ es) ns (suc fuel) m p name a (some_bytes, here, b) f =
    let not_end : (m p == 0) ≡ false = first_byte e m p some_bytes here in
    let same_name = env_name_eq-has_name ns e fuel m p name a here (omega arith) in
    let next = env_skip-length e fuel m p here (omega arith) in
    let len = str_len-length ns fuel name 0 a (omega arith) in
    let rest = print_from-shown es ns fuel m (p + length e + 1) name a b (omega arith) in
    let there : p + (0 + length ns) + 1 ≡ p + (length ns + 1) = omega arith in
    elim (Bool-cases (has_name ns e)) [
      | inl y ↦
          let value = At-drop (length ns + 1) e m p (omega (arith, has_name-length ns e y)) here in
          rw (not_end, same_name, y, len, there)
            (ap (λ (v : List ℕ). (true, v))
              (bytes_from-At (value_behind (length ns) e) fuel m (p + (length ns + 1)) value
                (omega (arith, drop_shorter (length ns) e))))
      | inr n ↦ rw (not_end, same_name, n, next) rest
    ]

-- `SET NAME` prints the value of the first string that has the name, upper and lower case the same,
-- and nothing without one. The environment's segment is not 0, its strings are not empty, and the
-- fuel covers the block.
pub print_env_value-shown :
    (es : List (List ℕ)) (ns : List ℕ) (fuel : ℕ) (s : Sys) (name : Buffer)
    → env_seg s ≢ 0
    → Block es s.mem (base (env_seg s))
    → At ns name 0
    → length ns + size es < fuel
    → print_env_value fuel s name ≡ shown (lookup ns es)
unfolding print_env_value
print_env_value-shown es ns fuel s name h b a f =
    let some_seg : (env_seg s == 0) ≡ false = ground arith in
    rw some_seg (print_from-shown es ns fuel s.mem (base (env_seg s)) name a b f)

-- Each string on a line of its own.
abbrev pub lines : List (List ℕ) → List ℕ
lines [] = []
lines (e ∷ es) = e ++ (13 ∷ 10 ∷ lines es)

dump_from-lines :
    (es : List (List ℕ)) (fuel : ℕ) (m : Buffer) (p : ℕ)
    → Block es m p
    → size es < fuel
    → dump_from fuel m p ≡ lines es
unfolding dump_from
dump_from-lines es zero m p b f = elim f [ ]
dump_from-lines [] (suc fuel) m p b f = rw b refl
dump_from-lines (e ∷ es) (suc fuel) m p (some_bytes, here, b) f =
    let not_end : (m p == 0) ≡ false = first_byte e m p some_bytes here in
    let next = env_skip-length e fuel m p here (omega arith) in
    rw (not_end, next)
      (ap₂ (λ (u v : List ℕ). u ++ (13 ∷ 10 ∷ v)) (bytes_from-At e fuel m p here (omega arith))
        (dump_from-lines es fuel m (p + length e + 1) b (omega arith)))

pub env_dump-lines :
    (es : List (List ℕ)) (fuel : ℕ) (s : Sys)
    → env_seg s ≢ 0
    → Block es s.mem (base (env_seg s))
    → size es < fuel
    → env_dump fuel s ≡ lines es
unfolding env_dump
env_dump-lines es fuel s h b f =
    let some_seg : (env_seg s == 0) ≡ false = ground arith in
    rw some_seg (dump_from-lines es fuel s.mem (base (env_seg s)) b f)

-- `env_copy_var` and `env_dump` after `env_put`.
module _ (es : List (List ℕ)) (ns vs tail : List ℕ) (dos_alloc : ℕ → ℕ) (fuel : ℕ) (name : Buffer)
    (value : Option Buffer) (s : Sys) (neu : ℕ) (some_seg : env_seg s ≢ 0)
    (allocated : dos_alloc (clamped_paras s.env_paras) ≡ neu) (positive : 0 < neu)
    (word : neu < 65536) (name_text : At ns name 0) (value_text : Given vs value)
    (strings : Block es s.mem (base (env_seg s)))
    (behind : At tail s.mem (base (env_seg s) + size es))
    (enough : length ns + length vs + length tail + size es < fuel)
    (apart : Apart
      (base (env_seg s))
      (size es + length tail + 1)
      (base neu)
      (size (put ns vs es) + length tail + 1))
    (psp_apart : Apart (base s.psp + 44) 2 (base neu) (size (put ns vs es) + length tail + 1)) where
  stored : Renewed (put ns vs es) tail neu s (env_put dos_alloc fuel name value s)
  stored =
      env_put-Renewed es ns vs tail dos_alloc fuel name value s neu some_seg allocated positive word
        name_text value_text strings behind enough apart psp_apart

  nonzero : env_seg (env_put dos_alloc fuel name value s) ≢ 0
  nonzero = λ e. absurd (omega (arith, stored.seg, e))

  strings_at :
      Block
        (put ns vs es)
        (env_put dos_alloc fuel name value s).mem
        (base (env_seg (env_put dos_alloc fuel name value s)))
  strings_at =
      coe 0 1
        (i.
          Block (put ns vs es) (env_put dos_alloc fuel name value s).mem (base (sym stored.seg i)))
        stored.strings

  -- After `env_put` of a name and a value, `env_copy_var` finds the new value under that name, in
  -- any spelling of its letters, and nothing if the value is empty; under every other name it finds
  -- what it found before. The names have no '=', `maxlen` is not 0, the fuel covers the strings, and
  -- `env_put` has a block and texts as in `env_put-Renewed`.
  pub env_copy_var-env_put :
      (ms : List ℕ) (other : Buffer) (maxlen : ℕ) (buf : Buffer)
      → IsName ms
      → IsName ns
      → At ms other 0
      → (room : ℕ) → length ms + size (put ns vs es) < room
      → 0 < maxlen
      → Answers
          (if same_name ms ns then given vs else lookup ms es)
          maxlen
          buf
          (env_copy_var room (env_put dos_alloc fuel name value s) other maxlen buf)
  env_copy_var-env_put ms other maxlen buf i k a room f h =
      coe 0 1
        (j.
          Answers (lookup-put ms ns vs es i k j) maxlen buf
            (env_copy_var room (env_put dos_alloc fuel name value s) other maxlen buf))
        (env_copy_var-Answers (put ns vs es) ms room (env_put dos_alloc fuel name value s) other
          maxlen buf nonzero strings_at a f h)

  -- After `env_put` of a name and a value, `env_dump` prints the strings that do not have the name,
  -- in their order, and then the new one, unless the value is empty.
  pub env_dump-env_put :
      (room : ℕ)
      → size (put ns vs es) < room
      → env_dump room (env_put dos_alloc fuel name value s) ≡ lines (put ns vs es)
  env_dump-env_put room f =
      env_dump-lines (put ns vs es) room (env_put dos_alloc fuel name value s) nonzero strings_at f
