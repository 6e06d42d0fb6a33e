-- ===== src/Command/Batch/Examples.antt =====
-- A batch file B with the argument A.
use rmdos.Base.{
  ℕ, ◌+◌, ◌-◌, ◌<◌, true, ◌≡◌, refl, arith, [], ◌∷◌, ◌==◌, ltb, if◌then◌else◌, Buffer, zeroed, take,
}
use rmdos.Strings.{lit}
use rmdos.Compare.Texts.{text_at}
use rmdos.Command.Batch.{Batch, push_batch_args, pop_batch_args, do_shift, expand_batch_args}
use rmdos.Command.Batch.Frames.{Returned, pop_batch_args-push_batch_args}
use rmdos.Command.Batch.Shift.{do_shift-shifted}
use rmdos.Command.Batch.Expand.{expanded}
use rmdos.Command.Batch.Line.{expand_batch_args-expanded}

abbrev one_letter : ℕ → Buffer
one_letter c j = if j == 0 then c else 0

one_letter-bytes : (c : ℕ) → c < 256 → (j : ℕ) → one_letter c j < 256
one_letter-bytes c h j = ground arith

abbrev batch : Batch
batch = record {
  batch_args = one_letter 65;
  batch_argc = 1;
  batch_arg_frames = zeroed;
  batch_argc_frames = zeroed;
  batch_arg_depth = 2;
}

pop_batch_args-push_batch_args_example :
    ((push_batch_args batch).0 ≡ true)
    × Returned batch
        (pop_batch_args (record (push_batch_args batch).1 { batch_args = zeroed; batch_argc = 0 }))
pop_batch_args-push_batch_args_example =
    pop_batch_args-push_batch_args batch zeroed 0 (omega arith) (one_letter-bytes 65 (omega arith))

do_shift-shifted_example :
    ((j : ℕ)
      → (do_shift batch).batch_args j ≡ (
          if ltb j 128
          then batch.batch_args (j + 16)
          else if ltb j 144
          then 0
          else batch.batch_args j))
    × ((do_shift batch).batch_argc ≡ batch.batch_argc - 1)
do_shift-shifted_example = do_shift-shifted batch (one_letter-bytes 65 (omega arith)) (omega arith)

-- The command "%0 %1".
expand_batch_args-expanded_example :
    text_at 82 0
      (expand_batch_args 10 (one_letter 66) zeroed batch (lit (37 ∷ 48 ∷ 32 ∷ 37 ∷ 49 ∷ [])))
    ≡ take 80 (expanded (66 ∷ []) batch.batch_args (37 ∷ 48 ∷ 32 ∷ 37 ∷ 49 ∷ []))
expand_batch_args-expanded_example =
    expand_batch_args-expanded (37 ∷ 48 ∷ 32 ∷ 37 ∷ 49 ∷ []) (66 ∷ []) 10 (one_letter 66) zeroed
      batch (lit (37 ∷ 48 ∷ 32 ∷ 37 ∷ 49 ∷ []))
      (
        refl,
        omega arith,
        omega arith,
        (
          refl,
          omega arith,
          omega arith,
          (
            refl,
            omega arith,
            omega arith,
            (refl, omega arith, omega arith, (refl, omega arith, omega arith, refl)),
          ),
        ),
      )
      (omega arith) refl (one_letter-bytes 66 (omega arith)) (one_letter-bytes 65 (omega arith))
      (λ j. omega arith)
