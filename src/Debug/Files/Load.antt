-- ===== src/Debug/Files/Load.antt =====
-- What L loads, and the way from W to L.
use Prim.{Unit, tt}
use rmdos.Base.{
  ℕ, zero, suc, ◌+◌, ◌-◌, ◌≤◌, ◌<◌, Bool, true, false, List, [], ◌∷◌, ◌++◌, some, ◌≡◌, inl, inr,
  refl, sym, ap, ◌∙◌, arith, ltb, ◌==◌, if◌then◌else◌, w16, Buffer, buf_set, length, take,
  Bool-cases,
}
use rmdos.Strings.{drop}
use mathlib.Core.Path.{ap₂}
use rmdos.Debug.{Arena, mem_get, mem_set}
use rmdos.Debug.Files.{Disk, Session, store_bytes, fetch_bytes, load_from, cmd_l, cmd_w}
use rmdos.Debug.Files.Trip.{HoldsFile, cmd_w-Saved, length-fetch_bytes, fetch_bytes-append}

abbrev pub AllBytes : List ℕ → Type 0
AllBytes [] = Unit
AllBytes (b ∷ bs) = (b < 256) × AllBytes bs

take-Bytes : (n : ℕ) (xs : List ℕ) → AllBytes xs → AllBytes (take n xs)
take-Bytes zero xs h = tt
take-Bytes (suc n) [] h = tt
take-Bytes (suc n) (x ∷ xs) (b, h) = (b, take-Bytes n xs h)

drop-Bytes : (n : ℕ) (xs : List ℕ) → AllBytes xs → AllBytes (drop n xs)
drop-Bytes zero xs h = h
drop-Bytes (suc n) [] h = tt
drop-Bytes (suc n) (x ∷ xs) (b, h) = drop-Bytes n xs h

take-drop : (n : ℕ) (xs : List ℕ) → take n xs ++ drop n xs ≡ xs
take-drop zero xs = refl
take-drop (suc n) [] = refl
take-drop (suc n) (x ∷ xs) = ap (◌∷◌ x) (take-drop n xs)

length_parts : (n : ℕ) (xs : List ℕ) → length (take n xs) + length (drop n xs) ≡ length xs
length_parts zero xs = omega arith
length_parts (suc n) [] = omega arith
length_parts (suc n) (x ∷ xs) = omega (arith, length_parts n xs)

-- The bytes of a chunk stand from `off` on, and what is in front of them is as it was.
record Stored (bs : List ℕ) (off : ℕ) (st r : Arena) : Type 0 where
  text : fetch_bytes (length bs) off r ≡ bs
  len : r.load_len ≡ st.load_len
  below : (j : ℕ) → j < off → r.mem j ≡ st.mem j

store_bytes-Stored :
    (bs : List ℕ) (off : ℕ) (st : Arena)
    → AllBytes bs
    → off + length bs < 65536
    → Stored bs off st (store_bytes bs off st)
unfolding store_bytes fetch_bytes mem_set mem_get
store_bytes-Stored [] off st b h = record { text = refl; len = refl; below = λ j x. refl }
store_bytes-Stored (c ∷ cs) off st (l, b) h =
    let here : w16 off ≡ off = omega arith in
    let next : w16 (off + 1) ≡ off + 1 = omega arith in
    let rest = store_bytes-Stored cs (off + 1) (mem_set off c st) b (omega arith) in
    rw next (record {
      text =
          ap₂ (λ (x : ℕ) (l : List ℕ). x ∷ l)
            (ap (store_bytes cs (off + 1) (mem_set off c st)).mem here
              ∙ rest.below off (omega arith)
              ∙ set_there st off c l (omega arith))
            rest.text;
      len = rest.len;
      below = λ j x. rest.below j (omega arith) ∙ set_apart st off c j x (omega arith);
    })
  where
    set_there :
        (st : Arena) (off c : ℕ) → c < 256 → off < 65536 → buf_set st.mem (w16 off) c off ≡ c
    set_there st off c l h = ground arith

    set_apart :
        (st : Arena) (off c j : ℕ) → j < off → off < 65536 → buf_set st.mem (w16 off) c j ≡ st.mem j
    set_apart st off c j x h = ground arith

-- The same memory in front of `off + n` gives the same bytes.
fetch_bytes-same :
    (n off : ℕ) (r st : Arena)
    → off + n < 65536
    → ((j : ℕ) → j < off + n → r.mem j ≡ st.mem j)
    → fetch_bytes n off r ≡ fetch_bytes n off st
unfolding fetch_bytes mem_get
fetch_bytes-same zero off r st b h = refl
fetch_bytes-same (suc n) off r st b h =
    ap₂ (λ (x : ℕ) (l : List ℕ). x ∷ l) (h (w16 off) (omega arith))
      (fetch_bytes-same n (off + 1) r st (omega arith) (λ j x. h j (omega arith)))

fetch_bytes-addr :
    (n off k : ℕ) (a : Arena)
    → fetch_bytes n off (record a { default_addr = k }) ≡ fetch_bytes n off a
unfolding fetch_bytes mem_get
fetch_bytes-addr zero off k a = refl
fetch_bytes-addr (suc n) off k a = ap (◌∷◌ (mem_get off a)) (fetch_bytes-addr n (off + 1) k a)

module _ {W : Type 0} (disk : Disk W) (content rest : W → List ℕ)
    (laws : HoldsFile disk content rest) where
  -- What is left of the file stands from `off` on.
  pub record Loaded (bs : List ℕ) (off : ℕ) (st : Arena) (r : Arena × W) : Type 0 where
    pub text : fetch_bytes (length bs) off r.0 ≡ bs
    pub len : r.0.load_len ≡ st.load_len + length bs
    pub below : (j : ℕ) → j < off → r.0.mem j ≡ st.mem j

  -- A chunk, and the rest behind it.
  load_more :
      (cs ds bs : List ℕ) (off : ℕ) (st : Arena) (r : Arena × W)
      → cs ++ ds ≡ bs
      → length cs + length ds ≡ length bs
      → AllBytes cs
      → off + length bs < 65536
      → st.load_len + length bs < 65536
      → (let st' = store_bytes cs off st in
          Loaded ds (off + length cs) (record st' { load_len = w16 (st'.load_len + length cs) }) r)
      → Loaded bs off st r
  load_more cs ds bs off st r e k b h m x =
      let s = store_bytes-Stored cs off st b (omega arith) in
      let st' = store_bytes cs off st in
      let word : w16 (st'.load_len + length cs) ≡ st.load_len + length cs =
        rw s.len (omega arith) in
      record {
        text =
            ap (λ n. fetch_bytes n off r.0) (sym k)
            ∙ fetch_bytes-append (length cs) (length ds) off r.0
            ∙ ap₂ (λ (u v : List ℕ). u ++ v)
                (fetch_bytes-same (length cs) off r.0 st' (omega arith) x.below ∙ s.text) x.text
            ∙ e;
        len = x.len ∙ ap (λ n. n + length ds) word ∙ omega arith;
        below = λ j y. x.below j (omega arith) ∙ s.below j y;
      }

  no_more : (off : ℕ) (st : Arena) (w : W) → Loaded [] off st (st, w)
  unfolding fetch_bytes
  no_more off st w = record { text = refl; len = omega arith; below = λ j x. refl }

  take_none : (n : ℕ) → take n [] ≡ []
  take_none zero = refl
  take_none (suc n) = refl

  drop_none : (n : ℕ) → drop n [] ≡ []
  drop_none zero = refl
  drop_none (suc n) = refl

  load_from-Loaded :
      (fuel h off left : ℕ) (st : Arena) (w : W) (bs : List ℕ)
      → rest w ≡ bs
      → AllBytes bs
      → length bs ≤ left
      → left ≤ fuel
      → off + length bs < 65536
      → st.load_len + length bs < 65536
      → Loaded bs off st (load_from disk fuel h off left st w)
  unfolding load_from
  load_from-Loaded zero h off left st w [] e b k f x y = no_more off st w
  load_from-Loaded zero h off left st w (c ∷ bs) e b k f x y = absurd (omega arith)
  load_from-Loaded (suc fuel) h off left st w [] e b k f x y =
      let n : ℕ = if ltb left 128 then left else 128 in
      let got = laws.reads h n w ∙ ap (λ l. some (take n l)) e ∙ ap some (take_none n) in
      elim (Bool-cases (left == 0)) [
        | inl z ↦ rw z (no_more off st w)
        | inr z ↦ rw (z, got) (no_more off st (disk.dos_read h n w).1)
      ]
  load_from-Loaded (suc fuel) h off left st w (c ∷ bs) e b k f x y =
      let n : ℕ = if ltb left 128 then left else 128 in
      let some_left : (left == 0) ≡ false = ground arith in
      let positive : 0 < n = ground arith in
      let small : n ≤ left = ground arith in
      let m : ℕ = n - 1 in
      let n_suc : n ≡ suc m = omega arith in
      let cs = c ∷ take m bs in
      let ds = drop m bs in
      let got : (disk.dos_read h n w).0 ≡ some cs =
        laws.reads h n w ∙ ap (λ l. some (take n l)) e ∙ ap (λ i. some (take i (c ∷ bs))) n_suc in
      let on : rest (disk.dos_read h n w).1 ≡ ds =
        laws.reads_on h n w ∙ ap (drop n) e ∙ ap (λ i. drop i (c ∷ bs)) n_suc in
      let parts = length_parts m bs in
      let st1 = store_bytes cs off st in
      let st' = record st1 { load_len = w16 (st1.load_len + length cs) } in
      let here : w16 (off + length cs) ≡ off + length cs = omega (arith, parts) in
      let s = store_bytes-Stored cs off st (b.0, take-Bytes m bs b.1) (omega (arith, parts)) in
      let rest' =
        load_from-Loaded fuel h (off + length cs) (left - length cs) st' (disk.dos_read h n w).1 ds
          on (drop-Bytes m bs b.1) (omega (arith, parts)) (omega arith) (omega (arith, parts))
          (omega (arith, parts, s.len)) in
      rw (some_left, got, here)
        (load_more cs ds (c ∷ bs) off st
          (load_from disk fuel h (off + length cs) (left - length cs) st' (disk.dos_read h n w).1)
          (ap (◌∷◌ c) (take-drop m bs)) (omega (arith, parts)) (b.0, take-Bytes m bs b.1) x y rest')

  fetch_bytes-Bytes :
      (n off : ℕ) (st : Arena) → ((j : ℕ) → st.mem j < 256) → AllBytes (fetch_bytes n off st)
  unfolding fetch_bytes mem_get
  fetch_bytes-Bytes zero off st h = tt
  fetch_bytes-Bytes (suc n) off st h = (h (w16 off), fetch_bytes-Bytes n (off + 1) st h)

  -- The arena has the file again, from 0x100 on.
  pub record Reloaded (n : ℕ) (bs : List ℕ) (r : Bool × Session W) : Type 0 where
    pub went_well : r.0 ≡ true
    pub text : fetch_bytes n 0x100 r.1.arena ≡ bs
    pub len : r.1.arena.load_len ≡ n

  cmd_l-Reloaded :
      (fuel h n : ℕ) (st : Session W) (bs : List ℕ)
      → st.have_path ≡ true
      → (disk.dos_open st.path 0 st.world).0 ≡ some h
      → content st.world ≡ bs
      → AllBytes bs
      → length bs ≡ n
      → n ≤ 0x7000
      → 0x7000 ≤ fuel
      → Reloaded n bs (cmd_l disk fuel st)
  unfolding cmd_l
  cmd_l-Reloaded fuel h n st bs p e c b k m f =
      let w = (disk.dos_open st.path 0 st.world).1 in
      let r =
        load_from-Loaded fuel h 0x100 0x7000 (record st.arena { load_len = 0 }) w bs
          (laws.opens st.path st.world ∙ c) b (omega arith) f (omega arith) (omega arith) in
      let a = (load_from disk fuel h 0x100 0x7000 (record st.arena { load_len = 0 }) w).0 in
      rw (p, e)
        (record {
          went_well = refl;
          text =
              fetch_bytes-addr n 0x100 0x100 a ∙ ap (λ i. fetch_bytes i 0x100 a) (sym k) ∙ r.text;
          len = r.len ∙ omega arith;
        })

  -- What W has written, L loads again, whatever happened to the arena in between: both go well, and
  -- the bytes from 0x100 on and their number are those that W found. The disk has room, the path is
  -- set and names the same file, the calls of DOS give a handle, the arena holds 1 to 0x7000 bytes,
  -- and the fuel covers them.
  pub cmd_l-cmd_w :
      (fuel h h2 : ℕ) (st : Session W) (path : Buffer) (arena : Arena) (reg_ip : ℕ)
      → st.have_path ≡ true
      → ((j : ℕ) → st.arena.mem j < 256)
      → 0 < st.arena.load_len
      → st.arena.load_len ≤ 0x7000
      → 0x7000 ≤ fuel
      → (disk.dos_create st.path 0 st.world).0 ≡ some h
      → (disk.dos_open path 0 (cmd_w disk fuel st).1.world).0 ≡ some h2
      → ((cmd_w disk fuel st).0 ≡ true)
        × Reloaded st.arena.load_len (fetch_bytes st.arena.load_len 0x100 st.arena) (
            cmd_l disk fuel (record {
              arena = arena;
              path = path;
              have_path = true;
              reg_ip = reg_ip;
              world = (cmd_w disk fuel st).1.world;
            }))
  cmd_l-cmd_w fuel h h2 st path arena reg_ip p b k m f e e2 =
      let saved = cmd_w-Saved disk content rest laws fuel h st p k m (omega arith) e in
      let n = st.arena.load_len in
      (
        saved.all,
        cmd_l-Reloaded fuel h2 n
            (record {
              arena = arena;
              path = path;
              have_path = true;
              reg_ip = reg_ip;
              world = (cmd_w disk fuel st).1.world;
            })
            (fetch_bytes n 0x100 st.arena) refl e2 saved.text (fetch_bytes-Bytes n 0x100 st.arena b)
            (length-fetch_bytes n 0x100 st.arena) m f,
      )
