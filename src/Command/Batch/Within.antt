-- ===== src/Command/Batch/Within.antt =====
-- Texts that are appended stay in front of the end of their array.
use rmdos.Base.{
  ℕ, zero, suc, ◌+◌, ◌≤◌, ◌<◌, ◌≡◌, inl, inr, ◌∙◌, arith, leb, ◌==◌, Buffer, buf_set, Bool-cases,
}
use rmdos.Command.Batch.{Out, append_from}

-- At most `max` bytes are filled, and nothing from there on is written.
pub record Within (max : ℕ) (before : Buffer) (r : Out) : Type 0 where
  pub small : r.o ≤ max
  pub behind : (j : ℕ) → max ≤ j → r.out j ≡ before j

pub set_within :
    (out before : Buffer) (o c : ℕ)
    → o < 81
    → ((j : ℕ) → 81 ≤ j → out j ≡ before j)
    → (j : ℕ) → 81 ≤ j
    → buf_set out o c j ≡ before j
set_within out before o c h b j k = apart out o c j (omega arith) ∙ b j k
  where
    apart : (out : Buffer) (o c j : ℕ) → o < j → buf_set out o c j ≡ out j
    apart out o c j h = ground arith

pub append_from-Within :
    (fuel : ℕ) (src : Buffer) (j o : ℕ) (out before : Buffer)
    → o ≤ 81
    → ((i : ℕ) → 81 ≤ i → out i ≡ before i)
    → Within 81 before (append_from fuel src j o out)
unfolding append_from
append_from-Within zero src j o out before h b = record { small = h; behind = b }
append_from-Within (suc fuel) src j o out before h b = elim (Bool-cases (src j == 0)) [
  | inl e ↦ rw e (record { small = h; behind = b })
  | inr e ↦ elim (Bool-cases (leb 80 o)) [
    | inl x ↦ rw (e, x) (record { small = h; behind = b })
    | inr x ↦
        let room : o < 80 = ground arith in
        rw (e, x)
          (append_from-Within fuel src (j + 1) (o + 1) (buf_set out o (src j)) before (omega arith)
            (set_within out before o (src j) (omega arith) b))
  ]
]
