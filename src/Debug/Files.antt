-- ===== src/Debug/Files.antt =====
-- The commands N, L and W of debug.c: `cmd_n`, `cmd_l` and `cmd_w`. The text of L and W ends with
-- `load_len`, which `print_num` prints; here it is left out.
pub mod Trip
pub mod Load
mod Examples
use rmdos.Base.{
  ℕ, zero, suc, ◌+◌, ◌-◌, ◌*◌, Bool, true, false, not, List, [], ◌∷◌, ◌++◌, Option, none, some, ltb,
  ◌==◌, if◌then◌else◌, slt, w16, Buffer, buf_set, zeroed, length,
}
use rmdos.Debug.{next_tok, Arena, mem_get, mem_set}

-- The calls of DOS. A handle and what was read are `none` where the call returns -1, and
-- `dos_write` gives how many bytes it wrote.
pub record Disk (W : Type 0) : Type 0 where
  pub dos_open : Buffer → ℕ → W → Option ℕ × W
  pub dos_create : Buffer → ℕ → W → Option ℕ × W
  pub dos_read : ℕ → ℕ → W → Option (List ℕ) × W
  pub dos_write : ℕ → List ℕ → W → ℕ × W
  pub dos_close : ℕ → W → W

-- `path`, `have_path` and the arena, and the world that DOS keeps.
pub record Session (W : Type 0) : Type 0 where
  pub arena : Arena
  pub path : Buffer
  pub have_path : Bool
  pub reg_ip : ℕ
  pub world : W

-- The loop of `cmd_n` at `i`, for at most `fuel` bytes.
pub path_from : ℕ → Buffer → ℕ → Buffer → Buffer
path_from zero tok i path = path
path_from (suc fuel) tok i path =
    let path' = buf_set path i (tok i) in
    let rest = path_from fuel tok (i + 1) path' in if tok i == 0 then path' else rest

-- The commands give whether they went well; if not they print "ERROR".
pub cmd_n : {W : Type 0} → ℕ → Buffer → Session W → Bool × Session W
cmd_n fuel rest st =
    let t = next_tok fuel rest 0 zeroed 64 in
    if t.tok 0 == 0
    then (false, st)
    else (true, record st { path = path_from fuel t.tok 0 st.path; have_path = true })

-- The inner loop of `cmd_l`: the bytes that were read, from `off` on.
pub store_bytes : List ℕ → ℕ → Arena → Arena
store_bytes [] off st = st
store_bytes (b ∷ bs) off st = store_bytes bs (w16 (off + 1)) (mem_set off b st)

-- The bytes that a chunk of `cmd_w` is filled with.
pub fetch_bytes : ℕ → ℕ → Arena → List ℕ
fetch_bytes zero off st = []
fetch_bytes (suc n) off st = mem_get off st ∷ fetch_bytes n (off + 1) st

module _ {W : Type 0} (disk : Disk W) where
  -- A chunk that was read, and what `cmd_l` does next.
  abbrev pub load_chunk : Option (List ℕ) → (ℕ → Arena → W → Arena × W) → ℕ → Arena → W → Arena × W
  load_chunk none more off st w = (st, w)
  load_chunk (some []) more off st w = (st, w)
  load_chunk (some (b ∷ bs)) more off st w =
      let st' = store_bytes (b ∷ bs) off st in
      more (length (b ∷ bs)) (record st' { load_len = w16 (st'.load_len + length (b ∷ bs)) }) w

  -- The loop of `cmd_l`, for at most `fuel` chunks; more than `left` is enough.
  pub load_from : ℕ → ℕ → ℕ → ℕ → Arena → W → Arena × W
  load_from zero h off left st w = (st, w)
  load_from (suc fuel) h off left st w =
      let n = if ltb left 128 then left else 128 in
      let r = disk.dos_read h n w in
      let more : ℕ → Arena → W → Arena × W =
        λ got st' w'. load_from fuel h (w16 (off + got)) (left - got) st' w' in
      let chunk = load_chunk r.0 more off st r.1 in if left == 0 then (st, w) else chunk

  pub cmd_l : ℕ → Session W → Bool × Session W
  cmd_l fuel st =
      let o = disk.dos_open st.path 0 st.world in
      if not st.have_path then (false, st) else elim o.0 [
        | none ↦ (false, record st { world = o.1 })
        | some h ↦
            let r = load_from fuel h 0x100 0x7000 (record st.arena { load_len = 0 }) o.1 in
            (
              true,
              record st {
                arena = record r.0 { default_addr = 0x100 };
                reg_ip = 0x100;
                world = disk.dos_close h r.1;
              },
            )
      ]

  -- The loop of `cmd_w`, for at most `fuel` chunks: whether all was written.
  pub write_from : ℕ → ℕ → ℕ → ℕ → Arena → W → Bool × W
  write_from zero h off left st w = (true, w)
  write_from (suc fuel) h off left st w =
      let chunk = if ltb left 128 then left else 128 in
      let r = disk.dos_write h (fetch_bytes chunk off st) w in
      let rest = write_from fuel h (w16 (off + chunk)) (left - chunk) st r.1 in
      if not (slt 0 left) then (true, w) else if not (r.0 == chunk) then (false, r.1) else rest

  pub cmd_w : ℕ → Session W → Bool × Session W
  cmd_w fuel st =
      let arena = if slt st.arena.load_len 1 then record st.arena { load_len = 1 } else st.arena in
      let o = disk.dos_create st.path 0 st.world in
      if not st.have_path then (false, st) else elim o.0 [
        | none ↦ (false, record st { arena = arena; world = o.1 })
        | some h ↦
            let r = write_from fuel h 0x100 arena.load_len arena o.1 in
            (r.0, record st { arena = arena; world = disk.dos_close h r.1 })
      ]
