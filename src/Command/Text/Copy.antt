-- ===== src/Command/Text/Copy.antt =====
-- A copy of a string.
use rmdos.Base.{
  ℕ, zero, suc, ◌+◌, ◌-◌, ◌<◌, ◌%◌, false, ◌≡◌, ==→≡, inl, inr, refl, ap, ◌∙◌, arith, ◌==◌, ◌∷◌,
  Buffer, buf_set, Bool-cases,
}
use rmdos.Compare.Texts.{text_at}
use rmdos.Command.Text.{str_copy_from, str_copy, blank, skip_spaces}

str_copy_from-outside :
    (room : ℕ) (dst : Buffer) (d : ℕ) (src : Buffer) (i j : ℕ)
    → j < d + i
    → str_copy_from room dst d src i j ≡ dst j
unfolding str_copy_from
str_copy_from-outside zero dst d src i j h = ground arith
str_copy_from-outside (suc room) dst d src i j h =
    ground (arith, str_copy_from-outside room (buf_set dst (d + i) (src i)) d src (i + 1) j)

str_copy_from-text :
    (room : ℕ) (dst src : Buffer) (i : ℕ)
    → ((j : ℕ) → src j < 256)
    → text_at (suc room) i (str_copy_from room dst 0 src i) ≡ text_at room i src
unfolding str_copy_from
str_copy_from-text zero dst src i b = ground arith
str_copy_from-text (suc room) dst src i b =
    let rest = str_copy_from-text room (buf_set dst (0 + i) (src i)) src (i + 1) b in
    let byte : src i % 256 ≡ src i = omega (arith, b i) in
    let here : buf_set dst (0 + i) (src i) i ≡ src i = ground (arith, b i) in
    let kept : str_copy_from room (buf_set dst (0 + i) (src i)) 0 src (i + 1) i ≡ src i =
      str_copy_from-outside room (buf_set dst (0 + i) (src i)) 0 src (i + 1) i (omega arith)
      ∙ here in
    elim (Bool-cases (src i == 0)) [
      | inl e ↦
          let nul : buf_set dst (0 + i) (src i) i ≡ 0 = here ∙ ==→≡ (src i) 0 e in rw (e, nul) refl
      | inr e ↦ rw (e, kept, e) (ap (◌∷◌ (src i)) rest)
    ]

-- `str_copy` copies at most `max - 1` bytes and ends them with a NUL. The source has bytes, and
-- `max` is not 0.
pub str_copy-text :
    (dst src : Buffer) (max : ℕ)
    → ((j : ℕ) → src j < 256)
    → 0 < max
    → text_at max 0 (str_copy dst 0 src max) ≡ text_at (max - 1) 0 src
unfolding str_copy
str_copy-text dst src max b h =
    let all : suc (max - 1) ≡ max = omega arith in
    coe 0 1 (i. text_at (all i) 0 (str_copy_from (max - 1) dst 0 src 0) ≡ text_at (max - 1) 0 src)
      (str_copy_from-text (max - 1) dst src 0 b)

-- At a byte that is not a blank nothing is skipped.
pub no_blank :
    (fuel : ℕ) (line : Buffer) (cursor c : ℕ)
    → line cursor ≡ c
    → blank c ≡ false
    → skip_spaces fuel line cursor ≡ cursor
unfolding skip_spaces
no_blank zero line cursor c e h = refl
no_blank (suc fuel) line cursor c e h = rw (e, h) refl
