-- ===== src/Debug/Hex.antt =====
-- Numbers in base 16: what `print_hex4` prints, `parse_hex` reads.
use rmdos.Base.{
  ℕ, zero, suc, ◌+◌, ◌*◌, ◌/◌, ◌%◌, ◌<◌, false, ◌||◌, List, [], ◌∷◌, some, ◌≡◌, refl, ap, ◌∙◌,
  arith, ◌==◌, slt, w16, Buffer, length,
}
use rmdos.Strings.{At}
use Prim.{Unit, tt}
use rmdos.Runtime.{toupper_ch}
use rmdos.Debug.{hex_val, hexdig, print_hex2, print_hex4, is_space, parse_hex_from, parse_hex}

pub hex_val-hexdig : (d : ℕ) → d < 16 → hex_val (hexdig d) ≡ d
unfolding hex_val toupper_ch
hex_val-hexdig d h = ground arith

-- A digit is neither the end nor a blank.
pub hexdig_plain : (d : ℕ) → d < 16 → (hexdig d == 0 || is_space (hexdig d)) ≡ false
hexdig_plain d h = ground arith

pub parse_digit :
    (fuel : ℕ) (s : Buffer) (i v d : ℕ)
    → s i ≡ hexdig d
    → d < 16
    → parse_hex_from (suc fuel) s i v ≡ parse_hex_from fuel s (i + 1) (w16 (v * 16 + d))
unfolding parse_hex_from
parse_digit fuel s i v d e h =
    let small : slt d 0 ≡ false = ground arith in
    rw (e, hexdig_plain d h, hex_val-hexdig d h, small) refl

-- The value of digits that follow `v`.
abbrev pub hex_value : ℕ → List ℕ → ℕ
hex_value v [] = v
hex_value v (d ∷ ds) = hex_value (w16 (v * 16 + d)) ds

abbrev pub Digits16 : List ℕ → Type 0
Digits16 [] = Unit
Digits16 (d ∷ ds) = (d < 16) × Digits16 ds

abbrev pub hex_text : List ℕ → List ℕ
hex_text [] = []
hex_text (d ∷ ds) = hexdig d ∷ hex_text ds

parse_hex_from-value :
    (ds : List ℕ) (fuel : ℕ) (s : Buffer) (i v : ℕ)
    → Digits16 ds
    → At (hex_text ds) s i
    → length ds < fuel
    → parse_hex_from fuel s i v ≡ some (hex_value v ds)
unfolding parse_hex_from
parse_hex_from-value ds zero s i v h a f = elim f [ ]
parse_hex_from-value [] (suc fuel) s i v h a f = rw a refl
parse_hex_from-value (d ∷ ds) (suc fuel) s i v (h, hs) (e, b, z, a) f =
    parse_digit fuel s i v d e h
    ∙ parse_hex_from-value ds fuel s (i + 1) (w16 (v * 16 + d)) hs a (omega arith)

pub parse_hex-value :
    (d : ℕ) (ds : List ℕ) (fuel : ℕ) (s : Buffer)
    → Digits16 (d ∷ ds)
    → At (hex_text (d ∷ ds)) s 0
    → length (d ∷ ds) < fuel
    → parse_hex fuel s ≡ some (hex_value 0 (d ∷ ds))
unfolding parse_hex
parse_hex-value d ds fuel s h (e, b, z, a) f =
    let some_digit : (s 0 == 0) ≡ false = ground arith in
    rw some_digit (parse_hex_from-value (d ∷ ds) fuel s 0 0 h (e, b, z, a) f)

-- The four digits of a word.
abbrev pub digits4 : ℕ → List ℕ
digits4 v = v / 4096 % 16 ∷ v / 256 % 16 ∷ v / 16 % 16 ∷ v % 16 ∷ []

pub print_hex4-digits4 : (v : ℕ) → v < 65536 → print_hex4 v ≡ hex_text (digits4 v)
unfolding print_hex4 print_hex2
print_hex4-digits4 v h =
    let a : v / 256 % 256 / 16 % 16 ≡ v / 4096 % 16 = omega arith in
    let b : v / 256 % 256 % 16 ≡ v / 256 % 16 = omega arith in
    let c : v % 256 / 16 % 16 ≡ v / 16 % 16 = omega arith in
    let d : v % 256 % 16 ≡ v % 16 = omega arith in rw (a, b, c, d) refl

pub hex_value-digits4 : (v : ℕ) → v < 65536 → hex_value 0 (digits4 v) ≡ v
hex_value-digits4 v h = omega arith

-- What `print_hex4` prints of a word, `parse_hex` reads as that word.
pub parse_hex-print_hex4 :
    (v fuel : ℕ) (s : Buffer)
    → v < 65536
    → At (print_hex4 v) s 0
    → 4 < fuel
    → parse_hex fuel s ≡ some v
parse_hex-print_hex4 v fuel s h a f =
    parse_hex-value (v / 4096 % 16) (v / 256 % 16 ∷ v / 16 % 16 ∷ v % 16 ∷ []) fuel s
      (omega arith, (omega arith, (omega arith, (omega arith, tt))))
      (rw (print_hex4-digits4 v h) at a) f
    ∙ ap some (hex_value-digits4 v h)
