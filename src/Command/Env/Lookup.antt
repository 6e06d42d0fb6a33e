-- ===== src/Command/Env/Lookup.antt =====
-- What command.c finds in the environment.
use rmdos.Base.{
  ℕ, zero, suc, ◌+◌, ◌-◌, ◌≤◌, ◌<◌, Bool, true, false, List, [], ◌∷◌, ◌≡◌, ◌≢◌, ◌⊎◌, inl, inr, refl,
  sym, ap, ◌∙◌, arith, ◌==◌, Buffer, buf_set, Bool-cases, length, take, Option, none, some,
}
use rmdos.Strings.{At, At-drop}
use rmdos.Compare.Texts.{text_at}
use rmdos.Command.Env.{Sys, base, env_seg, copy_value, Fetched, fetch_from, env_copy_var}
use rmdos.Command.Env.Block.{
  str_len-length, env_skip-length, has_name, env_name_eq-has_name, has_name-length, value_behind,
  Block, size, lookup,
}

copy_value-outside :
    (room : ℕ) (m : Buffer) (off : ℕ) (buf : Buffer) (n j : ℕ)
    → (j < n) ⊎ (n + room < j)
    → copy_value room m off buf n j ≡ buf j
unfolding copy_value
copy_value-outside zero m off buf n j h = ground arith
copy_value-outside (suc room) m off buf n j h =
    ground (arith, copy_value-outside room m (off + 1) (buf_set buf n (m off)) (n + 1) j)

copy_value-text :
    (cs : List ℕ) (room : ℕ) (m : Buffer) (off : ℕ) (buf : Buffer) (n : ℕ)
    → At cs m off
    → text_at (suc room) n (copy_value room m off buf n) ≡ take room cs
unfolding copy_value
copy_value-text cs zero m off buf n a = ground arith
copy_value-text [] (suc room) m off buf n a = rw a (ground arith)
copy_value-text (c ∷ cs) (suc room) m off buf n (e, b, z, a) =
    let rest = copy_value-text cs room m (off + 1) (buf_set buf n c) (n + 1) a in
    let here =
      copy_value-outside room m (off + 1) (buf_set buf n c) (n + 1) n (inl (omega arith)) in
    let some_letter : (c == 0) ≡ false = ground arith in
    rw (e, some_letter)
      (first (copy_value room m (off + 1) (buf_set buf n c) (n + 1)) (here ∙ set_here) rest)
  where
    set_here : buf_set buf n c n ≡ c
    set_here = ground arith

    first :
        (r : Buffer)
        → r n ≡ c
        → text_at (suc room) (n + 1) r ≡ take room cs
        → text_at (suc (suc room)) n r ≡ c ∷ take room cs
    first r x y =
        let some_letter : (c == 0) ≡ false = ground arith in rw (x, some_letter) (ap (◌∷◌ c) y)

abbrev pub is_some : Option (List ℕ) → Bool
is_some none = false
is_some (some v) = true

-- The buffer has the value as a text, cut off where it ends; without a value it is as it was.
abbrev pub HasValue : Option (List ℕ) → ℕ → Buffer → Buffer → Type 0
HasValue none maxlen before now = now ≡ before
HasValue (some v) maxlen before now = text_at maxlen 0 now ≡ take (maxlen - 1) v

-- What `env_copy_var` returns and leaves in a buffer of `maxlen` bytes.
pub record Answers (o : Option (List ℕ)) (maxlen : ℕ) (buf : Buffer) (r : Fetched) : Type 0 where
  pub found : r.found ≡ is_some o
  pub text : HasValue o maxlen buf r.buf
  pub behind : (j : ℕ) → maxlen ≤ j → r.buf j ≡ buf j

-- The string with the name is at `p`.
found_here :
    (e ns : List ℕ) (m : Buffer) (p maxlen : ℕ) (buf : Buffer)
    → has_name ns e ≡ true
    → At e m p
    → 0 < maxlen
    → Answers
        (some (value_behind (length ns) e))
        maxlen
        buf
        (record { found = true; buf = copy_value (maxlen - 1) m (p + (length ns + 1)) buf 0 })
found_here e ns m p maxlen buf y a k =
    let value = At-drop (length ns + 1) e m p (omega (arith, has_name-length ns e y)) a in
    let all : suc (maxlen - 1) ≡ maxlen = omega arith in
    record {
      found = refl;
      text =
          ap (λ (n : ℕ). text_at n 0 (copy_value (maxlen - 1) m (p + (length ns + 1)) buf 0))
            (sym all)
          ∙ copy_value-text (value_behind (length ns) e) (maxlen - 1) m (p + (length ns + 1)) buf 0
              value;
      behind = λ j h.
          copy_value-outside (maxlen - 1) m (p + (length ns + 1)) buf 0 j (inr (omega arith));
    }

fetch_from-Answers :
    (es : List (List ℕ)) (ns : List ℕ) (fuel : ℕ) (m : Buffer) (p : ℕ) (name : Buffer) (maxlen : ℕ)
    (buf : Buffer)
    → At ns name 0
    → Block es m p
    → length ns + size es < fuel
    → 0 < maxlen
    → Answers (lookup ns es) maxlen buf (fetch_from fuel m p name maxlen buf)
unfolding fetch_from
fetch_from-Answers es ns zero m p name maxlen buf a b f k = elim f [ ]
fetch_from-Answers [] ns (suc fuel) m p name maxlen buf a b f k =
    rw b (record { found = refl; text = refl; behind = λ j h. refl })
fetch_from-Answers (e ∷ es) ns (suc fuel) m p name maxlen buf a (some_bytes, here, b) f k =
    let not_end : (m p == 0) ≡ false = first_byte e m p some_bytes here in
    let same_name = env_name_eq-has_name ns e fuel m p name a here (omega arith) in
    let next = env_skip-length e fuel m p here (omega arith) in
    let len = str_len-length ns fuel name 0 a (omega arith) in
    let rest =
      fetch_from-Answers es ns fuel m (p + length e + 1) name maxlen buf a b (omega arith) k in
    let there : p + (0 + length ns) + 1 ≡ p + (length ns + 1) = omega arith in
    elim (Bool-cases (has_name ns e)) [
      | inl y ↦ rw (not_end, same_name, y, len, there) (found_here e ns m p maxlen buf y here k)
      | inr n ↦ rw (not_end, same_name, n, next) rest
    ]
  where
    first_byte : (e : List ℕ) (m : Buffer) (p : ℕ) → 0 < length e → At e m p → (m p == 0) ≡ false
    first_byte [] m p h a = elim h [ ]
    first_byte (c ∷ cs) m p h (e, b, z, a) = ground arith

-- `env_copy_var` answers for the first string of the block that has the name, upper and lower case
-- the same: it is found if there is one, the buffer gets its value, cut off to `maxlen - 1` bytes,
-- and a NUL, nothing at `maxlen` or behind is written, and without the name nothing at all.
-- The environment's segment is not 0, its strings are not empty, the fuel covers the block, and
-- `maxlen` is not 0.
pub env_copy_var-Answers :
    (es : List (List ℕ)) (ns : List ℕ) (fuel : ℕ) (s : Sys) (name : Buffer) (maxlen : ℕ)
    (buf : Buffer)
    → env_seg s ≢ 0
    → Block es s.mem (base (env_seg s))
    → At ns name 0
    → length ns + size es < fuel
    → 0 < maxlen
    → Answers (lookup ns es) maxlen buf (env_copy_var fuel s name maxlen buf)
unfolding env_copy_var
env_copy_var-Answers es ns fuel s name maxlen buf h b a f k =
    let some_seg : (env_seg s == 0) ≡ false = ground arith in
    rw some_seg (fetch_from-Answers es ns fuel s.mem (base (env_seg s)) name maxlen buf a b f k)
