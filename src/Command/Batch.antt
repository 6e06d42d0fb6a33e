-- ===== src/Command/Batch.antt =====
-- The arguments of a batch file in command.c: `clear_batch_args` to `do_shift`, and
-- `expand_batch_args`.
pub mod Frames
pub mod Shift
pub mod Expand
pub mod Line
pub mod Within
mod Examples
use rmdos.Base.{
  ℕ, zero, suc, ◌+◌, ◌-◌, ◌*◌, Bool, true, false, not, ◌&&◌, ◌||◌, leb, ltb, ◌==◌, if◌then◌else◌,
  slt, sge, Buffer, buf_set,
}
use rmdos.Command.Text.{next_token, str_copy}

-- Nine arguments of 16 bytes, and the frames of the batch files that called this one, of 160 bytes
-- each. Counts are words.
pub record Batch : Type 0 where
  pub batch_args : Buffer
  pub batch_argc : ℕ
  pub batch_arg_frames : Buffer
  pub batch_argc_frames : ℕ → ℕ
  pub batch_arg_depth : ℕ

abbrev pub batch_max : ℕ
batch_max = 8

-- The loop of `clear_batch_args` at `i`.
pub zero_from : ℕ → ℕ → Buffer → Buffer
zero_from zero i b = b
zero_from (suc left) i b = zero_from left (i + 1) (buf_set b i 0)

pub clear_batch_args : Batch → Batch
clear_batch_args st = record st { batch_args = zero_from 160 0 st.batch_args; batch_argc = 0 }

-- The loops of `push_batch_args` and `pop_batch_args`: `left` bytes from `s` of `src` on to `d` of
-- `dst` on.
pub copy_block : ℕ → Buffer → ℕ → Buffer → ℕ → Buffer
copy_block zero src s dst d = dst
copy_block (suc left) src s dst d = copy_block left src (s + 1) (buf_set dst d (src s)) (d + 1)

-- `batch_argc_frames[i] = n`.
abbrev pub int_set : (ℕ → ℕ) → ℕ → ℕ → ℕ → ℕ
int_set a i n j = if j == i then n else a j

pub push_batch_args : Batch → Bool × Batch
push_batch_args st = if sge st.batch_arg_depth batch_max then (false, st) else (
  true,
  record st {
    batch_arg_frames =
        copy_block 160 st.batch_args 0 st.batch_arg_frames (st.batch_arg_depth * 160);
    batch_argc_frames = int_set st.batch_argc_frames st.batch_arg_depth st.batch_argc;
    batch_arg_depth = st.batch_arg_depth + 1;
  },
)

pub pop_batch_args : Batch → Batch
pop_batch_args st =
    let depth = st.batch_arg_depth - 1 in
    if sge 0 st.batch_arg_depth then st else record st {
      batch_arg_depth = depth;
      batch_args = copy_block 160 st.batch_arg_frames (depth * 160) st.batch_args 0;
      batch_argc = st.batch_argc_frames depth;
    }

-- The loop of `collect_batch_args`, with `left` arguments to go: the arguments, where the cursor
-- stands, and `arg2`.
pub record Collected : Type 0 where
  pub batch : Batch
  pub cursor : ℕ
  pub arg2 : Buffer

pub collect_from : ℕ → ℕ → Buffer → ℕ → Buffer → Batch → Collected
collect_from zero fuel line cursor arg2 st = record { batch = st; cursor = cursor; arg2 = arg2 }
collect_from (suc left) fuel line cursor arg2 st =
    let t = next_token fuel line cursor arg2 16 in
    let rest = collect_from left fuel line t.cursor t.out (record st {
      batch_args = str_copy st.batch_args (st.batch_argc * 16) t.out 16;
      batch_argc = st.batch_argc + 1;
    }) in
    if t.count == 0 then record { batch = st; cursor = t.cursor; arg2 = t.out } else rest

pub collect_batch_args : ℕ → Buffer → ℕ → Buffer → Batch → Collected
collect_batch_args fuel line cursor arg2 st =
    collect_from 9 fuel line cursor arg2 (clear_batch_args st)

-- The loops of `do_shift`, whose message "SHIFT OK" is left out: argument `i`, from byte `j` on, and the arguments from `i` on.
pub shift_bytes : ℕ → ℕ → ℕ → Buffer → Buffer
shift_bytes zero i j b = b
shift_bytes (suc left) i j b =
    shift_bytes left i (j + 1) (buf_set b (i * 16 + j) (b ((i + 1) * 16 + j)))

pub shift_rows : ℕ → ℕ → Buffer → Buffer
shift_rows zero i b = b
shift_rows (suc left) i b = shift_rows left (i + 1) (shift_bytes 16 i 0 b)

pub do_shift : Batch → Batch
do_shift st = record st {
  batch_args = zero_from 16 (8 * 16) (shift_rows 8 0 st.batch_args);
  batch_argc = if slt 0 st.batch_argc then st.batch_argc - 1 else st.batch_argc;
}

-- How far `expand_batch_args` has come in its array `out`.
pub record Out : Type 0 where
  pub o : ℕ
  pub out : Buffer

-- Its loops that copy an argument, at `j`: they stop at a NUL and at 80 bytes.
pub append_from : ℕ → Buffer → ℕ → ℕ → Buffer → Out
append_from zero src j o out = record { o = o; out = out }
append_from (suc fuel) src j o out =
    let rest = append_from fuel src (j + 1) (o + 1) (buf_set out o (src j)) in
    if src j == 0
    then record { o = o; out = out }
    else if leb 80 o
    then record { o = o; out = out }
    else rest

-- The outer loop at `i` of the command.
pub expand_from : ℕ → Buffer → Buffer → Buffer → ℕ → ℕ → Buffer → Out
expand_from zero cmd arg0 args i o out = record { o = o; out = out }
expand_from (suc fuel) cmd arg0 args i o out =
    let c = cmd i in
    let d = cmd (i + 1) in
    let name = append_from 81 arg0 0 o out in
    let named = expand_from fuel cmd arg0 args (i + 2) name.o name.out in
    let arg = append_from 81 args ((d - b'1') * 16) o out in
    let replaced = expand_from fuel cmd arg0 args (i + 2) arg.o arg.out in
    let kept = expand_from fuel cmd arg0 args (i + 1) (o + 1) (buf_set out o c) in
    if c == 0 || leb 80 o
    then record { o = o; out = out }
    else if c == b'%' && d == b'0'
    then named
    else if c == b'%' && leb b'1' d && leb d b'9'
    then replaced
    else kept

-- The command, whose array has 82 bytes, after `expand_batch_args`.
pub expand_batch_args : ℕ → Buffer → Buffer → Batch → Buffer → Buffer
expand_batch_args fuel arg0 out st cmd =
    let r = expand_from fuel cmd arg0 st.batch_args 0 0 out in
    str_copy cmd 0 (buf_set r.out r.o 0) 82
