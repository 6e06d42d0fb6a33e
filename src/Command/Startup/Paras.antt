-- ===== src/Command/Startup/Paras.antt =====
-- How large the environment gets that /E asks for.
use rmdos.Base.{
  ℕ, zero, suc, ◌+◌, ◌-◌, ◌*◌, ◌<◌, true, false, not, ◌&&◌, ◌||◌, ◌≡◌, ◌⊎◌, ◌∙◌, inl, inr, refl, ap,
  arith, leb, ltb, ◌==◌, if◌then◌else◌, slt, w16, Buffer, Bool-cases,
}
use rmdos.Runtime.{toupper_ch}
use rmdos.Command.Env.{clamped_paras}
use rmdos.Command.Text.{blank}
use rmdos.Command.Startup.{
  Startup, skip_blanks, skip_option, size_from, paras_of, startup_from, parse_startup_tail,
}

-- Whatever the number, it is the word of -2047.
paras_of_any : (v : ℕ) → v < 65536 → paras_of v ≡ 63489
unfolding paras_of
paras_of_any v h = elim (Bool-cases (slt v 160)) [
  | inl e ↦ rw e refl
  | inr e ↦ let more : slt 32768 v ≡ true = ground arith in rw (e, more) refl
]

size_from-word :
    (left : ℕ) (tail : Buffer) (i v : ℕ) → v < 65536 → (size_from left tail i v).0 < 65536
unfolding size_from
size_from-word zero tail i v h = h
size_from-word (suc left) tail i v h = elim (Bool-cases (ltb (tail i) b'0' || ltb b'9' (tail i))) [
  | inl e ↦ rw e h
  | inr e ↦ rw e (size_from-word left tail (i + 1) (w16 (v * 10 + (tail i - b'0'))) (omega arith))
]

-- Once it is that word, no later option changes it.
startup_from-env_paras :
    (fuel n : ℕ) (tail : Buffer) (i : ℕ) (st : Startup)
    → st.env_paras ≡ 63489
    → (startup_from fuel n tail i st).env_paras ≡ 63489
unfolding startup_from
startup_from-env_paras zero n tail i st h = h
startup_from-env_paras (suc fuel) n tail i0 st h =
    let i = skip_blanks (n - i0) tail i0 in
    let d = toupper_ch (tail (i + 1)) in
    let colon = if ltb (i + 2) n && tail (i + 2) == b':' then i + 2 + 1 else i + 2 in
    let number = size_from (n - colon) tail colon 0 in
    elim (Bool-cases (leb n i0 || leb n i)) [
      | inl e ↦ rw e h
      | inr e ↦ elim (Bool-cases (not (tail i == 0x2F) && not (tail i == b'-'))) [
        | inl x ↦ rw (e, x) h
        | inr x ↦ elim (Bool-cases (d == b'C')) [
          | inl y ↦ rw (e, x, y) h
          | inr y ↦ elim (Bool-cases (d == b'P')) [
            | inl z ↦
                rw (e, x, y, z)
                  (startup_from-env_paras fuel n tail (skip_option (n - (i + 2)) tail (i + 2))
                    (record st { permanent_shell = true }) h)
            | inr z ↦ elim (Bool-cases (d == b'E')) [
              | inl w ↦
                  rw (e, x, y, z, w)
                    (startup_from-env_paras fuel n tail (skip_option (n - number.1) tail number.1)
                      (record st { env_paras = paras_of number.0 })
                      (paras_of_any number.0
                        (size_from-word (n - colon) tail colon 0 (omega arith))))
              | inr w ↦
                  rw (e, x, y, z, w)
                    (startup_from-env_paras fuel n tail (skip_option (n - (i + 2)) tail (i + 2)) st
                      h)
            ]
          ]
        ]
      ]
    ]

-- The loop over blanks stops at the first byte that is none.
skip_blanks_lem :
    (left : ℕ) (tail : Buffer) (i k : ℕ)
    → k < left
    → ((j : ℕ) → j < k → blank (tail (i + j)) ≡ true)
    → blank (tail (i + k)) ≡ false
    → skip_blanks left tail i ≡ i + k
unfolding skip_blanks
skip_blanks_lem zero tail i k room blanks stop = elim room [ ]
skip_blanks_lem (suc left) tail i zero room blanks stop =
    let end : i + 0 ≡ i = omega arith in
    let here : blank (tail i) ≡ false = coe 0 1 (l. blank (tail (end l)) ≡ false) stop in
    rw (here, end) refl
skip_blanks_lem (suc left) tail i (suc k) room blanks stop =
    let first : i + 0 ≡ i = omega arith in
    let here : blank (tail i) ≡ true =
      coe 0 1 (l. blank (tail (first l)) ≡ true) (blanks 0 (omega arith)) in
    rw here (
      skip_blanks_lem left tail (i + 1) k (omega arith)
        (λ j h. coe 0 1 (l. blank (tail (moved i j l)) ≡ true) (blanks (suc j) (omega arith)))
        (coe 0 1 (l. blank (tail (moved i k l)) ≡ false) stop)
      ∙ omega arith)
  where
    moved : (i j : ℕ) → i + suc j ≡ i + 1 + j
    moved i j = omega arith

-- An option at `i` that is `/E` gives that word.
startup_from-option :
    (fuel n : ℕ) (tail : Buffer) (i0 i : ℕ) (st : Startup)
    → skip_blanks (n - i0) tail i0 ≡ i
    → i0 < n
    → i < n
    → (tail i ≡ b'/') ⊎ (tail i ≡ b'-')
    → toupper_ch (tail (i + 1)) ≡ b'E'
    → (startup_from (suc fuel) n tail i0 st).env_paras ≡ 63489
unfolding startup_from
startup_from-option fuel n tail i0 i st from below inside slash letter =
    let more : (leb n i0 || leb n i) ≡ false = ground arith in
    let is_option : (not (tail i == 0x2F) && not (tail i == b'-')) ≡ false = ground arith in
    rw (from, more, is_option, letter)
      (startup_from-env_paras fuel n tail _ _
        (paras_of_any _ (size_from-word _ tail _ 0 (omega arith))))

upper : (c : ℕ) → (c ≡ b'E') ⊎ (c ≡ b'e') → toupper_ch c ≡ b'E'
unfolding toupper_ch
upper c h = ground arith

without_tail :
    (fuel : ℕ) (tail : Buffer) (st : Startup)
    → (startup_from (suc fuel) 0 tail 0 st).env_paras ≡ st.env_paras
unfolding startup_from
without_tail fuel tail st = refl

-- A command tail of `n` bytes that has, after `k` blanks, `/` or `-` and then `E` or `e` makes
-- `env_put`, once one option at least is read, give an environment the least number of paragraphs
-- there is, 16, whatever number and whatever options follow: a size that /E asks for is never kept.
-- Without a command tail an environment gets 32.
pub clamped_paras-parse_startup_tail :
    (fuel n k : ℕ) (tail cmd : Buffer)
    → 0 < fuel
    → k + 1 < n
    → ((j : ℕ) → j < k → blank (tail j) ≡ true)
    → (tail k ≡ b'/') ⊎ (tail k ≡ b'-')
    → (tail (k + 1) ≡ b'E') ⊎ (tail (k + 1) ≡ b'e')
    → (clamped_paras (parse_startup_tail fuel n tail cmd).env_paras ≡ 16)
      × (clamped_paras (parse_startup_tail fuel 0 tail cmd).env_paras ≡ 32)
unfolding parse_startup_tail
clamped_paras-parse_startup_tail zero n k tail cmd some_fuel room blanks slash option =
    elim some_fuel [ ]
clamped_paras-parse_startup_tail (suc fuel) n k tail cmd some_fuel room blanks slash option =
    let zero_add : (i : ℕ) → 0 + i ≡ i = λ i. omega arith in
    let from : skip_blanks (n - 0) tail 0 ≡ k =
      skip_blanks_lem (n - 0) tail 0 k (omega arith) (λ j h. rw zero_add (blanks j h))
        (rw zero_add (ground arith))
      ∙ zero_add k in
    (
      ap (λ q. clamped_paras q)
          (startup_from-option fuel n tail 0 k _ from (omega arith) (omega arith) slash
            (upper (tail (k + 1)) option)),
      ap (λ q. clamped_paras q) (without_tail fuel tail _),
    )
