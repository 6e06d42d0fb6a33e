-- ===== src/Debug/Assemble/Words.antt =====
-- The words of a line: what `next_tok` gives, and what `streq_tok` compares.
use rmdos.Base.{
  ℕ, zero, suc, ◌+◌, ◌-◌, ◌≤◌, ◌<◌, true, false, ◌||◌, List, [], ◌∷◌, ◌≡◌, ◌≢◌, inl, inr, refl, ◌∙◌,
  arith, ltb, ◌==◌, Buffer, buf_set, length, Bool-cases,
}
use rmdos.Strings.{At, same_name}
use rmdos.Runtime.{toupper_ch}
use rmdos.Debug.{is_space, skip_tok, Scan, scan_from, next_tok, streq_from, streq_tok}

-- A word of the line at `i`, which a blank or the end follows.
abbrev pub WordAt : List ℕ → Buffer → ℕ → Type 0
WordAt [] s i = (s i == 0 || is_space (s i)) ≡ true
WordAt (c ∷ cs) s i = (s i ≡ c) × (c < 256) × ((c == 0 || is_space c) ≡ false) × WordAt cs s (i + 1)

scan_from-outside :
    (w : List ℕ) (fuel : ℕ) (s : Buffer) (i : ℕ) (out : Buffer) (n room j : ℕ)
    → j < n
    → (scan_from fuel s i out n room).tok j ≡ out j
unfolding scan_from
scan_from-outside w zero s i out n room j h = ground arith
scan_from-outside w (suc fuel) s i out n room j h = ground (
  arith,
  scan_from-outside w fuel s (i + 1) (buf_set out n (s i)) (n + 1) (room - 1) j,
  scan_from-outside w fuel s (i + 1) out n room j,
)

-- The token is the word.
pub record Taken (w : List ℕ) (i n : ℕ) (t : Scan) : Type 0 where
  pub text : At w t.tok n
  pub next : t.next ≡ i + length w

scan_from-Taken :
    (w : List ℕ) (fuel : ℕ) (s : Buffer) (i : ℕ) (out : Buffer) (n room : ℕ)
    → WordAt w s i
    → length w < fuel
    → length w ≤ room
    → Taken w i n (scan_from fuel s i out n room)
unfolding scan_from
scan_from-Taken w zero s i out n room a f r = elim f [ ]
scan_from-Taken [] (suc fuel) s i out n room a f r =
    rw a (record { text = ground arith; next = omega arith })
scan_from-Taken (c ∷ cs) (suc fuel) s i out n room (e, b, z, a) f r =
    let fits : ltb 0 room ≡ true = ground arith in
    let rest =
      scan_from-Taken cs fuel s (i + 1) (buf_set out n c) (n + 1) (room - 1) a (omega arith)
        (omega arith) in
    let here : buf_set out n c n ≡ c = ground arith in
    rw (e, z, fits)
      (record {
        text = (
          scan_from-outside cs fuel s (i + 1) (buf_set out n c) (n + 1) (room - 1) n (omega arith)
              ∙ here,
          b,
          nonzero c z,
          rest.text,
        );
        next = rest.next ∙ omega arith;
      })
  where
    nonzero : (c : ℕ) → (c == 0 || is_space c) ≡ false → c ≢ 0
    nonzero c h = ground arith

pub next_tok-Taken :
    (c : ℕ) (w : List ℕ) (fuel : ℕ) (s : Buffer) (i : ℕ) (out : Buffer) (max : ℕ)
    → WordAt (c ∷ w) s i
    → length (c ∷ w) < fuel
    → length (c ∷ w) < max
    → Taken (c ∷ w) i 0 (next_tok fuel s i out max)
unfolding next_tok skip_tok
next_tok-Taken c w zero s i out max a f r = elim f [ ]
next_tok-Taken c w (suc fuel) s i out max (e, b, z, a) f r =
    let here : is_space (s i) ≡ false = plain (s i) c e z in
    rw here (scan_from-Taken (c ∷ w) (suc fuel) s i out 0 (max - 1) (e, b, z, a) f (omega arith))
  where
    plain : (x c : ℕ) → x ≡ c → (c == 0 || is_space c) ≡ false → is_space x ≡ false
    plain x c e h = ground arith

-- One blank in front of the word.
pub next_tok_blank :
    (c : ℕ) (w : List ℕ) (fuel : ℕ) (s : Buffer) (i : ℕ) (out : Buffer) (max : ℕ)
    → s i ≡ b' '
    → WordAt (c ∷ w) s (i + 1)
    → length (c ∷ w) + 1 < fuel
    → length (c ∷ w) < max
    → Taken (c ∷ w) (i + 1) 0 (next_tok fuel s i out max)
unfolding next_tok skip_tok
next_tok_blank c w zero s i out max h a f r = elim f [ ]
next_tok_blank c w (suc zero) s i out max h a f r = absurd (omega arith)
next_tok_blank c w (suc (suc fuel)) s i out max h (e, b, z, a) f r =
    let here : is_space (s (i + 1)) ≡ false = plain (s (i + 1)) c e z in
    rw (h, here)
      (scan_from-Taken (c ∷ w) (suc (suc fuel)) s (i + 1) out 0 (max - 1) (e, b, z, a) (omega arith)
        (omega arith))
  where
    plain : (x c : ℕ) → x ≡ c → (c == 0 || is_space c) ≡ false → is_space x ≡ false
    plain x c e h = ground arith

upper_nonzero : (c : ℕ) → c ≢ 0 → (toupper_ch c == 0) ≡ false
unfolding toupper_ch
upper_nonzero c h = ground arith

upper_zero : toupper_ch 0 ≡ 0
unfolding toupper_ch
upper_zero = refl

eq_sym : (a b : ℕ) → (a == b) ≡ (b == a)
eq_sym a b = ground arith

streq_from-same_name :
    (xs ys : List ℕ) (fuel : ℕ) (a b : Buffer) (i : ℕ)
    → At xs a i
    → At ys b i
    → length xs < fuel
    → streq_from fuel a b i ≡ same_name xs ys
unfolding streq_from
streq_from-same_name xs ys zero a b i x y f = elim f [ ]
streq_from-same_name [] [] (suc fuel) a b i x y f = rw (x, y, upper_zero) refl
streq_from-same_name [] (d ∷ ds) (suc fuel) a b i x (e, l, z, y) f =
    rw (x, e, upper_zero, eq_sym 0 (toupper_ch d), upper_nonzero d z) refl
streq_from-same_name (c ∷ cs) [] (suc fuel) a b i (e, l, z, x) y f =
    rw (e, y, upper_zero, upper_nonzero c z) refl
streq_from-same_name (c ∷ cs) (d ∷ ds) (suc fuel) a b i (e, l, z, x) (e', l', z', y) f =
    rw (e, e', eq_sym (toupper_ch d) (toupper_ch c))
      (elim (Bool-cases (toupper_ch c == toupper_ch d)) [
        | inl q ↦
            rw (q, upper_nonzero c z)
              (streq_from-same_name cs ds fuel a b (i + 1) x y (omega arith))
        | inr q ↦ rw q refl
      ])

-- Two texts are the same word, upper and lower case the same.
pub streq_tok-same_name :
    (xs ys : List ℕ) (fuel : ℕ) (a b : Buffer)
    → At xs a 0
    → At ys b 0
    → length xs < fuel
    → streq_tok fuel a b ≡ same_name xs ys
unfolding streq_tok
streq_tok-same_name xs ys fuel a b x y f = streq_from-same_name xs ys fuel a b 0 x y f
