-- ===== src/Command/Batch/Frames.antt =====
-- A batch file that is called gives the arguments of its caller back.
use rmdos.Base.{
  ℕ, zero, suc, ◌+◌, ◌-◌, ◌*◌, ◌≤◌, ◌<◌, ◌%◌, true, false, ◌≡◌, ◌⊎◌, inl, refl, ap, ◌∙◌, arith,
  ◌==◌, sge, Buffer, buf_set,
}
use rmdos.Command.Batch.{Batch, copy_block, push_batch_args, pop_batch_args}

copy_block-outside :
    (n : ℕ) (src : Buffer) (s : ℕ) (dst : Buffer) (d j : ℕ)
    → (j < d) ⊎ (d + n ≤ j)
    → copy_block n src s dst d j ≡ dst j
unfolding copy_block
copy_block-outside zero src s dst d j h = refl
copy_block-outside (suc n) src s dst d j h =
    ground (arith, copy_block-outside n src (s + 1) (buf_set dst d (src s)) (d + 1) j)

copy_block-inside :
    (n : ℕ) (src : Buffer) (s : ℕ) (dst : Buffer) (d j : ℕ)
    → j < n
    → copy_block n src s dst d (d + j) ≡ src (s + j) % 256
unfolding copy_block
copy_block-inside zero src s dst d j h = elim h [ ]
copy_block-inside (suc n) src s dst d zero h =
    let e : d + 0 ≡ d = omega arith in
    let e' : s + 0 ≡ s = omega arith in
    let set : buf_set dst d (src s) d ≡ src s % 256 = ground arith in
    rw (e, e')
      (copy_block-outside n src (s + 1) (buf_set dst d (src s)) (d + 1) d (inl (omega arith)) ∙ set)
copy_block-inside (suc n) src s dst d (suc j) h =
    let e : d + suc j ≡ d + 1 + j = omega arith in
    let e' : s + suc j ≡ s + 1 + j = omega arith in
    rw (e, e') (copy_block-inside n src (s + 1) (buf_set dst d (src s)) (d + 1) j (omega arith))

-- A block that is copied to a frame and back.
block_back :
    (n : ℕ) (args frames : Buffer) (from_here : ℕ) (now : Buffer) (j : ℕ)
    → j < n
    → args j < 256
    → copy_block n (copy_block n args 0 frames from_here) from_here now 0 j ≡ args j
block_back n args frames from_here now j h b =
    let start : 0 + j ≡ j = omega arith in
    let out : copy_block n (copy_block n args 0 frames from_here) from_here now 0 j
        ≡ copy_block n args 0 frames from_here (from_here + j) % 256 =
      rw start at
        (copy_block-inside n (copy_block n args 0 frames from_here) from_here now 0 j h) in
    let in_frame : copy_block n args 0 frames from_here (from_here + j) ≡ args j % 256 =
      rw start at (copy_block-inside n args 0 frames from_here j h) in
    let twice : args j % 256 % 256 ≡ args j = omega arith in
    out ∙ ap (λ x. x % 256) in_frame ∙ twice

-- What the caller sees again.
pub record Returned (before after : Batch) : Type 0 where
  pub args : (j : ℕ) → j < 160 → after.batch_args j ≡ before.batch_args j
  pub argc : after.batch_argc ≡ before.batch_argc
  pub depth : after.batch_arg_depth ≡ before.batch_arg_depth
  pub frames :
      (j : ℕ)
      → j < before.batch_arg_depth * 160
      → after.batch_arg_frames j ≡ before.batch_arg_frames j
  pub counts :
      (i : ℕ) → i < before.batch_arg_depth → after.batch_argc_frames i ≡ before.batch_argc_frames i

-- Below eight batch files `push_batch_args` succeeds, and `pop_batch_args` gives the arguments and
-- their count back, whatever the called file did to them; the frames of the callers above are as
-- they were. The arguments are bytes.
pub pop_batch_args-push_batch_args :
    (st : Batch) (args : Buffer) (argc : ℕ)
    → st.batch_arg_depth < 8
    → ((j : ℕ) → st.batch_args j < 256)
    → ((push_batch_args st).0 ≡ true)
      × Returned st
          (pop_batch_args (record (push_batch_args st).1 { batch_args = args; batch_argc = argc }))
unfolding push_batch_args pop_batch_args
pop_batch_args-push_batch_args st args argc h b =
    let room : sge st.batch_arg_depth 8 ≡ false = ground arith in
    let called : sge 0 (st.batch_arg_depth + 1) ≡ false = ground arith in
    let back : st.batch_arg_depth + 1 - 1 ≡ st.batch_arg_depth = omega arith in
    let here : (st.batch_arg_depth == st.batch_arg_depth) ≡ true = ground arith in
    rw (room, called, back, here)
      (
        refl,
        record {
          args = λ j x.
              block_back 160 st.batch_args st.batch_arg_frames (st.batch_arg_depth * 160) args j x
                (b j);
          argc = refl;
          depth = refl;
          frames = λ j x.
              copy_block-outside 160 st.batch_args 0 st.batch_arg_frames (st.batch_arg_depth * 160)
                j (inl x);
          counts = λ i x. ground arith;
        },
      )
