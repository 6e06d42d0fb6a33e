-- ===== src/Debug/Files/Trip.antt =====
-- What W writes, L loads again.
use rmdos.Base.{
  ℕ, zero, suc, ◌+◌, ◌-◌, ◌≤◌, ◌<◌, Bool, true, false, not, List, [], ◌∷◌, ◌++◌, some, ◌≡◌, refl,
  sym, ap, ◌∙◌, arith, ltb, ◌==◌, if◌then◌else◌, slt, w16, Buffer, length, take,
}
use rmdos.Strings.{drop}
use mathlib.Core.Path.{ap₂}
use mathlib.Core.List.{append_assoc, append-nil}
use rmdos.Debug.{Arena, mem_get}
use rmdos.Debug.Files.{Disk, Session, fetch_bytes, write_from, cmd_w}

-- What the calls promise for the file that `path` names, while the disk has room: `content` is what
-- it holds, and `rest` what the open handle has not read yet.
pub record HoldsFile {W : Type 0} (disk : Disk W) (content rest : W → List ℕ) : Type 0 where
  pub creates : (p : Buffer) (w : W) → content (disk.dos_create p 0 w).1 ≡ []
  pub writes_all : (h : ℕ) (bs : List ℕ) (w : W) → (disk.dos_write h bs w).0 ≡ length bs
  pub writes : (h : ℕ) (bs : List ℕ) (w : W) → content (disk.dos_write h bs w).1 ≡ content w ++ bs
  pub opens : (p : Buffer) (w : W) → rest (disk.dos_open p 0 w).1 ≡ content w
  pub reads : (h n : ℕ) (w : W) → (disk.dos_read h n w).0 ≡ some (take n (rest w))
  pub reads_on : (h n : ℕ) (w : W) → rest (disk.dos_read h n w).1 ≡ drop n (rest w)
  pub closes : (h : ℕ) (w : W) → content (disk.dos_close h w) ≡ content w

pub length-fetch_bytes : (n off : ℕ) (st : Arena) → length (fetch_bytes n off st) ≡ n
unfolding fetch_bytes
length-fetch_bytes zero off st = refl
length-fetch_bytes (suc n) off st = ap suc (length-fetch_bytes n (off + 1) st)

pub fetch_bytes-append :
    (n m off : ℕ) (st : Arena)
    → fetch_bytes (n + m) off st ≡ fetch_bytes n off st ++ fetch_bytes m (off + n) st
unfolding fetch_bytes
fetch_bytes-append zero m off st = ap₂ (λ a b. fetch_bytes a b st) (omega arith) (omega arith)
fetch_bytes-append (suc n) m off st =
    let more : suc n + m ≡ suc (n + m) = omega arith in
    let there : off + 1 + n ≡ off + suc n = omega arith in
    ap (λ k. fetch_bytes k off st) more
    ∙ ap (◌∷◌ (mem_get off st)) (fetch_bytes-append n m (off + 1) st)
    ∙ ap (λ k. mem_get off st ∷ (fetch_bytes n (off + 1) st ++ fetch_bytes m k st)) there

no_more : (xs : List ℕ) (off : ℕ) (st : Arena) → xs ≡ xs ++ fetch_bytes 0 off st
unfolding fetch_bytes
no_more xs off st = sym (append-nil xs)

module _ {W : Type 0} (disk : Disk W) (content rest : W → List ℕ)
    (laws : HoldsFile disk content rest) where
  -- All is written, and it is the bytes of the arena.
  pub record Written (n off : ℕ) (st : Arena) (w : W) (r : Bool × W) : Type 0 where
    pub all : r.0 ≡ true
    pub text : content r.1 ≡ content w ++ fetch_bytes n off st

  -- A chunk is written, and the rest behind it.
  write_chunk :
      (chunk left off : ℕ) (st : Arena) (w w' : W) (got : ℕ) (r : Bool × W)
      → chunk ≤ left
      → slt 0 left ≡ true
      → got ≡ chunk
      → content w' ≡ content w ++ fetch_bytes chunk off st
      → Written (left - chunk) (off + chunk) st w' r
      → Written left off st w
          (if not (slt 0 left) then (true, w) else if not (got == chunk) then (false, w') else r)
  write_chunk chunk left off st w w' got r h positive g e rest' =
      let all : (got == chunk) ≡ true = ground arith in
      let whole : chunk + (left - chunk) ≡ left = omega arith in
      rw (positive, all)
        (record {
          all = rest'.all;
          text =
              rest'.text
              ∙ ap (λ l. l ++ fetch_bytes (left - chunk) (off + chunk) st) e
              ∙ append_assoc (content w) (fetch_bytes chunk off st)
                  (fetch_bytes (left - chunk) (off + chunk) st)
              ∙ ap (λ l. content w ++ l) (sym (fetch_bytes-append chunk (left - chunk) off st))
              ∙ ap (λ k. content w ++ fetch_bytes k off st) whole;
        })

  pub write_from-Written :
      (fuel h off left : ℕ) (st : Arena) (w : W)
      → left < 32768
      → left ≤ fuel
      → off + left < 65536
      → Written left off st w (write_from disk fuel h off left st w)
  unfolding write_from
  write_from-Written zero h off zero st w a b c = record {
    all = refl;
    text = no_more (content w) off st;
  }
  write_from-Written zero h off (suc left) st w a b c = absurd (omega arith)
  write_from-Written (suc fuel) h off zero st w a b c = record {
    all = refl;
    text = no_more (content w) off st;
  }
  write_from-Written (suc fuel) h off (suc n) st w a b c =
      let chunk : ℕ = if ltb (suc n) 128 then suc n else 128 in
      let positive : 0 < chunk = ground arith in
      let fits : chunk ≤ suc n = ground arith in
      let bs = fetch_bytes chunk off st in
      let w' = (disk.dos_write h bs w).1 in
      let here : w16 (off + chunk) ≡ off + chunk = omega arith in
      let rest' =
        write_from-Written fuel h (off + chunk) (suc n - chunk) st w' (omega arith) (omega arith)
          (omega arith) in
      rw here (
        write_chunk chunk (suc n) off st w w' (disk.dos_write h bs w).0
          (write_from disk fuel h (off + chunk) (suc n - chunk) st w') fits (ground arith)
          (laws.writes_all h bs w ∙ length-fetch_bytes chunk off st) (laws.writes h bs w) rest')

  -- W writes the bytes of the arena from 0x100 on, `load_len` of them.
  pub record Saved (st : Session W) (r : Bool × Session W) : Type 0 where
    pub all : r.0 ≡ true
    pub text : content r.1.world ≡ fetch_bytes st.arena.load_len 0x100 st.arena

  pub cmd_w-Saved :
      (fuel h : ℕ) (st : Session W)
      → st.have_path ≡ true
      → 0 < st.arena.load_len
      → st.arena.load_len ≤ 0x7000
      → st.arena.load_len ≤ fuel
      → (disk.dos_create st.path 0 st.world).0 ≡ some h
      → Saved st (cmd_w disk fuel st)
  unfolding cmd_w
  cmd_w-Saved fuel h st p a b f e =
      let some_bytes : slt st.arena.load_len 1 ≡ false = ground arith in
      let w = (disk.dos_create st.path 0 st.world).1 in
      let r =
        write_from-Written fuel h 0x100 st.arena.load_len st.arena w (omega arith) f
          (omega arith) in
      let done = (write_from disk fuel h 0x100 st.arena.load_len st.arena w).1 in
      rw (p, e, some_bytes)
        (record {
          all = r.all;
          text =
              laws.closes h done
              ∙ r.text
              ∙ ap (λ l. l ++ fetch_bytes st.arena.load_len 0x100 st.arena)
                  (laws.creates st.path st.world);
        })
