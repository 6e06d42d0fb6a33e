-- ===== src/Command/Env/Kept.antt =====
-- The loop of `env_put` that keeps a string, and the loops that write the new one.
use rmdos.Base.{
  ℕ, zero, suc, ◌+◌, ◌≤◌, ◌<◌, false, List, [], ◌∷◌, ◌++◌, ◌≡◌, ◌≢◌, ◌⊎◌, inl, inr, refl, ◌∙◌,
  arith, ◌==◌, Buffer, buf_set, length,
}
use rmdos.Strings.{At, At-same}
use Prim.{Unit, tt}
use rmdos.Command.Env.{Place, copy_string, write_text, write_string, str_len}
use rmdos.Command.Env.Block.{str_len-length}

-- `n` bytes at `p` and `k` bytes at `q` do not meet.
abbrev pub Apart : ℕ → ℕ → ℕ → ℕ → Type 0
Apart p n q k = (p + n ≤ q) ⊎ (q + k ≤ p)

-- The text `cs` of `p`, with its NUL, has been brought to `q`.
pub record Brought (cs : List ℕ) (m : Buffer) (p q : ℕ) (r : Place) : Type 0 where
  pub text : At cs r.mem q
  pub oi : r.oi ≡ p + length cs + 1
  pub ni : r.ni ≡ q + length cs + 1
  pub others : (j : ℕ) → (j < q) ⊎ (q + length cs < j) → r.mem j ≡ m j

set_apart : (m : Buffer) (q c j : ℕ) → j ≢ q → buf_set m q c j ≡ m j
set_apart m q c j h = ground arith

pub copy_string-Brought :
    (cs : List ℕ) (fuel : ℕ) (m : Buffer) (p q : ℕ)
    → At cs m p
    → length cs < fuel
    → Apart p (length cs + 1) q (length cs + 1)
    → Brought cs m p q (copy_string fuel m p q)
unfolding copy_string
copy_string-Brought cs zero m p q a f h = elim f [ ]
copy_string-Brought [] (suc fuel) m p q a f h = rw a (record {
  text = ground arith;
  oi = omega arith;
  ni = omega arith;
  others = λ j x. set_apart m q 0 j (ground arith);
})
copy_string-Brought (c ∷ cs) (suc fuel) m p q (e, b, z, a) f h =
    let some_letter : (c == 0) ≡ false = ground arith in
    let a' =
      At-same cs m (buf_set m q c) (p + 1)
        (λ j x y. set_apart m q c j (elim h [ inl u ↦ omega arith | inr u ↦ omega arith ])) a in
    let rest =
      copy_string-Brought cs fuel (buf_set m q c) (p + 1) (q + 1) a' (omega arith)
        (elim h [ inl u ↦ inl (omega arith) | inr u ↦ inr (omega arith) ]) in
    let first : buf_set m q c q ≡ c = ground arith in
    rw (e, some_letter)
      (record {
        text = (rest.others q (inl (omega arith)) ∙ first, b, z, rest.text);
        oi = rest.oi ∙ omega arith;
        ni = rest.ni ∙ omega arith;
        others = λ j x.
            rest.others j (elim x [ inl u ↦ inl (omega arith) | inr u ↦ inr (omega arith) ])
            ∙ set_apart m q c j (elim x [ inl u ↦ omega arith | inr u ↦ omega arith ]);
      })

-- A text at `p` without its NUL.
abbrev pub Letters : List ℕ → Buffer → ℕ → Type 0
Letters [] m p = Unit
Letters (c ∷ cs) m p = (m p ≡ c) × (c < 256) × (c ≢ 0) × Letters cs m (p + 1)

write_text-outside :
    (cs : List ℕ) (fuel : ℕ) (text : Buffer) (i : ℕ) (m : Buffer) (q j : ℕ)
    → At cs text i
    → (j < q) ⊎ (q + length cs ≤ j)
    → write_text fuel text i m q j ≡ m j
unfolding write_text
write_text-outside cs zero text i m q j a h = refl
write_text-outside [] (suc fuel) text i m q j a h = rw a refl
write_text-outside (c ∷ cs) (suc fuel) text i m q j (e, b, z, a) h =
    let some_letter : (c == 0) ≡ false = ground arith in
    rw (e, some_letter)
      (write_text-outside cs fuel text (i + 1) (buf_set m q c) (q + 1) j a
          (elim h [ inl u ↦ inl (omega arith) | inr u ↦ inr (omega arith) ])
        ∙ set_apart m q c j (elim h [ inl u ↦ omega arith | inr u ↦ omega arith ]))

write_text-Letters :
    (cs : List ℕ) (fuel : ℕ) (text : Buffer) (i : ℕ) (m : Buffer) (q : ℕ)
    → At cs text i
    → length cs < fuel
    → Letters cs (write_text fuel text i m q) q
unfolding write_text
write_text-Letters cs zero text i m q a f = elim f [ ]
write_text-Letters [] (suc fuel) text i m q a f = tt
write_text-Letters (c ∷ cs) (suc fuel) text i m q (e, b, z, a) f =
    let some_letter : (c == 0) ≡ false = ground arith in
    let first : buf_set m q c q ≡ c = ground arith in
    rw (e, some_letter)
      ((
        write_text-outside cs fuel text (i + 1) (buf_set m q c) (q + 1) q a (inl (omega arith))
            ∙ first,
        b,
        z,
        write_text-Letters cs fuel text (i + 1) (buf_set m q c) (q + 1) a (omega arith),
      ))

Letters-same :
    (cs : List ℕ) (m m' : Buffer) (p : ℕ)
    → ((j : ℕ) → p ≤ j → j < p + length cs → m' j ≡ m j)
    → Letters cs m p
    → Letters cs m' p
Letters-same [] m m' p h a = tt
Letters-same (c ∷ cs) m m' p h (e, b, z, a) = (
  h p (omega arith) (omega arith) ∙ e,
  b,
  z,
  Letters-same cs m m' (p + 1) (λ j x y. h j (omega arith) (omega arith)) a,
)

Letters-At :
    (cs ds : List ℕ) (m : Buffer) (p : ℕ)
    → Letters cs m p
    → At ds m (p + length cs)
    → At (cs ++ ds) m p
Letters-At [] ds m p l a = let here : p + 0 ≡ p = omega arith in rw here at a
Letters-At (c ∷ cs) ds m p (e, b, z, l) a =
    let there : p + suc (length cs) ≡ p + 1 + length cs = omega arith in
    (e, b, z, Letters-At cs ds m (p + 1) l (rw there at a))

pub length-append : (cs ds : List ℕ) → length (cs ++ ds) ≡ length cs + length ds
length-append [] ds = omega arith
length-append (c ∷ cs) ds = omega (arith, length-append cs ds)

-- The string that `write_string` leaves at `q`.
pub record Wrote (cs : List ℕ) (m : Buffer) (q : ℕ) (m' : Buffer) : Type 0 where
  pub text : At cs m' q
  pub others : (j : ℕ) → (j < q) ⊎ (q + length cs < j) → m' j ≡ m j

pub write_string-Wrote :
    (ns vs : List ℕ) (fuel : ℕ) (name value : Buffer) (m : Buffer) (q : ℕ)
    → At ns name 0
    → At vs value 0
    → length ns < fuel
    → length vs < fuel
    → Wrote (ns ++ 61 ∷ vs) m q (write_string fuel name value m q)
unfolding write_string
write_string-Wrote ns vs fuel name value m q a b f g =
    let n : str_len fuel name 0 ≡ length ns = str_len-length ns fuel name 0 a f ∙ omega arith in
    let v : str_len fuel value 0 ≡ length vs = str_len-length vs fuel value 0 b g ∙ omega arith in
    let m1 = write_text fuel name 0 m q in
    let eq = q + length ns in
    let m2 = buf_set m1 eq 61 in
    let m3 = write_text fuel value 0 m2 (eq + 1) in
    let m4 = buf_set m3 (eq + 1 + length vs) 0 in
    let below : (j : ℕ) → j < eq + 1 → m4 j ≡ m2 j = λ j x.
      set_apart m3 (eq + 1 + length vs) 0 j (omega arith)
      ∙ write_text-outside vs fuel value 0 m2 (eq + 1) j b (inl x) in
    let names =
      Letters-same ns m1 m4 q (λ j x y. below j (omega arith) ∙ set_apart m1 eq 61 j (omega arith))
        (write_text-Letters ns fuel name 0 m q a f) in
    let sign : m2 eq ≡ 61 = ground arith in
    let end : m4 (eq + 1 + length vs) ≡ 0 = ground arith in
    let values =
      Letters-same vs m3 m4 (eq + 1) (λ j x y. set_apart m3 (eq + 1 + length vs) 0 j (omega arith))
        (write_text-Letters vs fuel value 0 m2 (eq + 1) b g) in
    let len = length-append ns (61 ∷ vs) in
    rw (n, v)
      (record {
        text = Letters-At ns (61 ∷ vs) m4 q names (
          below eq (omega arith) ∙ sign,
          omega arith,
          omega arith,
          append_nil vs m4 (eq + 1) values end,
        );
        others = λ j x.
            set_apart m3 (eq + 1 + length vs) 0 j
              (elim x [ inl u ↦ omega arith | inr u ↦ omega (arith, len) ])
            ∙ write_text-outside vs fuel value 0 m2 (eq + 1) j b
                (elim x [ inl u ↦ inl (omega arith) | inr u ↦ inr (omega (arith, len)) ])
            ∙ set_apart m1 eq 61 j (elim x [ inl u ↦ omega arith | inr u ↦ omega (arith, len) ])
            ∙ write_text-outside ns fuel name 0 m q j a
                (elim x [ inl u ↦ inl u | inr u ↦ inr (omega (arith, len)) ]);
      })
  where
    append_nil :
        (cs : List ℕ) (m : Buffer) (p : ℕ) → Letters cs m p → m (p + length cs) ≡ 0 → At cs m p
    append_nil [] m p l e = let here : p + 0 ≡ p = omega arith in rw here at e
    append_nil (c ∷ cs) m p (e, b, z, l) e' =
        let there : p + suc (length cs) ≡ p + 1 + length cs = omega arith in
        (e, b, z, append_nil cs m (p + 1) l (rw there at e'))
