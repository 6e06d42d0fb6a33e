-- ===== src/Edit/Zipper.antt =====
-- The buffer and the cursor as two lists, the text before the cursor and the text from it on: the
-- shifting loops of edit.c against the changes of such a pair.
use rmdos.Base.{
  ℕ, zero, suc, ◌+◌, ◌-◌, ◌%◌, ◌≤◌, ◌<◌, List, [], ◌∷◌, ◌++◌, ◌≡◌, refl, sym, ap, ◌∙◌, arith, ltb,
  leb, ◌==◌, if◌then◌else◌, Buffer, buf_set, slice, slice_eq, slice_snoc, slice_cons, slice-suc,
}
use native.Mathlib.Numerals.{add-one}
use mathlib.Core.Path.{ap₂}
use rmdos.Edit.{Editor, shift_up, shift_down, insert_char, delete_char, backspace}

abbrev pub before : Editor → List ℕ
before s = slice s.text 0 s.cursor

abbrev pub after : Editor → List ℕ
after s = slice s.text s.cursor (s.text_len - s.cursor)

-- Offsets and the text agree with the buffer's size, and the bytes are bytes.
pub record IsValid (s : Editor) : Type 0 where
  pub cursor_le : s.cursor ≤ s.text_len
  pub len_lt : s.text_len < s.buf_cap
  pub bytes : (j : ℕ) → s.text j < 256

pub shift_up_at :
    (t : Buffer) (c n j : ℕ)
    → ((k : ℕ) → t k < 256)
    → shift_up t c n j ≡ (if ltb c j then (if leb j (c + n) then t (j - 1) else t j) else t j)
unfolding shift_up
shift_up_at t c zero j b = ground arith
shift_up_at t c (suc n) j b =
    let t' = buf_set t (c + suc n) (t (c + n)) in
    ground (arith, b (c + n), shift_up_at t' c n j (λ k. ground (arith, b k)))

pub shift_down_at :
    (t : Buffer) (i n j : ℕ)
    → ((k : ℕ) → t k < 256)
    → shift_down t i n j ≡ (if leb i j then (if ltb j (i + n) then t (j + 1) else t j) else t j)
unfolding shift_down
shift_down_at t i zero j b = ground arith
shift_down_at t i (suc n) j b =
    let t' = buf_set t i (t (i + 1)) in
    ground (arith, b (i + 1), shift_down_at t' (i + 1) n j (λ k. ground (arith, b k)))

pub insert_char_at :
    (ch : ℕ) (s : Editor)
    → IsValid s
    → s.text_len + 1 < s.buf_cap
    → (j : ℕ)
    → (insert_char ch s).text j ≡ (
        if j == s.cursor
        then ch % 256
        else if ltb s.cursor j
        then (if leb j s.text_len then s.text (j - 1) else s.text j)
        else s.text j)
unfolding insert_char
insert_char_at ch s v room j =
    ground (arith, shift_up_at s.text s.cursor (s.text_len - s.cursor) j v.bytes, v.cursor_le)

-- The fields of `insert_char` where the buffer has room for one more.
insert_char_fields :
    (ch : ℕ) (s : Editor)
    → s.text_len + 1 < s.buf_cap
    → ((insert_char ch s).text_len ≡ s.text_len + 1)
      × ((insert_char ch s).cursor ≡ s.cursor + 1)
      × ((insert_char ch s).buf_cap ≡ s.buf_cap)
unfolding insert_char
insert_char_fields ch s room = ground arith

-- Where the buffer has room for one more byte, `insert_char` puts the byte's low eight bits at the
-- end of the text before the cursor and leaves the text from the cursor on; where it has none,
-- `insert_char` changes nothing at all.
pub insert_char_zipper :
    (ch : ℕ) (s : Editor)
    → IsValid s
    → (s.text_len + 1 < s.buf_cap
        → (before (insert_char ch s) ≡ before s ++ (ch % 256) ∷ [])
          × (after (insert_char ch s) ≡ after s))
      × (s.buf_cap ≤ s.text_len + 1 → insert_char ch s ≡ s)
insert_char_zipper ch s v = (roomy, λ full. unfold insert_char in ground arith)
  where
    roomy :
        s.text_len + 1 < s.buf_cap
        → (before (insert_char ch s) ≡ before s ++ (ch % 256) ∷ [])
          × (after (insert_char ch s) ≡ after s)
    roomy room =
        let (len, cur, cap) = insert_char_fields ch s room in
        let t = (insert_char ch s).text in
        (
          rw (cur, add-one)
              (slice-suc t 0 s.cursor
                ∙ ap₂ (λ xs x. xs ++ x ∷ [])
                    (slice_eq t s.text 0 0 _ _ refl
                      (λ j p. ground (arith, insert_char_at ch s v room (0 + j))))
                    (ground (arith, insert_char_at ch s v room (0 + s.cursor)))),
          rw (cur, len)
              (slice_eq t s.text (s.cursor + 1) s.cursor _ _ (omega (arith, v.cursor_le))
                (λ j p. ground (arith, insert_char_at ch s v room (s.cursor + 1 + j)))),
        )

pub delete_char_at :
    (s : Editor)
    → IsValid s
    → s.cursor < s.text_len
    → (j : ℕ)
    → (delete_char s).text j ≡ (
        if leb s.cursor j
        then (if ltb (j + 1) s.text_len then s.text (j + 1) else s.text j)
        else s.text j)
unfolding delete_char
delete_char_at s v some_left j =
    ground (arith, shift_down_at s.text s.cursor (s.text_len - 1 - s.cursor) j v.bytes)

delete_char_fields :
    (s : Editor)
    → s.cursor < s.text_len
    → ((delete_char s).text_len ≡ s.text_len - 1) × ((delete_char s).cursor ≡ s.cursor)
unfolding delete_char
delete_char_fields s some_left = ground arith

-- `delete_char` drops the first byte from the cursor on and leaves the text before the cursor; with
-- the cursor at the end it changes nothing at all.
pub delete_char_zipper :
    (s : Editor)
    → IsValid s
    → (s.cursor < s.text_len
        → (before (delete_char s) ≡ before s) × (after s ≡ s.text s.cursor ∷ after (delete_char s)))
      × (s.cursor ≡ s.text_len → delete_char s ≡ s)
delete_char_zipper s v = (inside, λ e. unfold delete_char in ground arith)
  where
    inside :
        s.cursor < s.text_len
        → (before (delete_char s) ≡ before s) × (after s ≡ s.text s.cursor ∷ after (delete_char s))
    inside p =
        let (len, cur) = delete_char_fields s p in
        let t = (delete_char s).text in
        (
          rw cur (
              slice_eq t s.text 0 0 _ _ refl (λ j q. ground (arith, delete_char_at s v p (0 + j)))),
          rw (cur, len)
              (slice_cons s.text s.cursor _ (omega arith)
                ∙ ap (◌∷◌ (s.text s.cursor)) (
                    slice_eq s.text t (s.cursor + 1) s.cursor (s.text_len - s.cursor - 1)
                      (s.text_len - 1 - s.cursor) (omega arith)
                      (λ j q. ground (arith, delete_char_at s v p (s.cursor + j))))),
        )

tail_eq : {x y : ℕ} {xs ys : List ℕ} → x ∷ xs ≡ y ∷ ys → xs ≡ ys
tail_eq e = cc

-- `backspace` takes the last byte off the text before the cursor and leaves the text from the
-- cursor on; at the start of the text it changes nothing at all.
pub backspace_zipper :
    (s : Editor)
    → IsValid s
    → (0 < s.cursor
        → (before s ≡ before (backspace s) ++ s.text (s.cursor - 1) ∷ [])
          × (after (backspace s) ≡ after s))
      × (s.cursor ≡ 0 → backspace s ≡ s)
backspace_zipper s v = (inside, λ e. unfold backspace in ground arith)
  where
    back : Editor
    back = record s { cursor = s.cursor - 1 }

    unfolds : 0 < s.cursor → backspace s ≡ delete_char back
    unfolds p = unfold backspace in ground arith

    back-IsValid : IsValid back
    back-IsValid = record {
      cursor_le = omega (arith, v.cursor_le);
      len_lt = v.len_lt;
      bytes = v.bytes;
    }

    inside :
        0 < s.cursor
        → (before s ≡ before (backspace s) ++ s.text (s.cursor - 1) ∷ [])
          × (after (backspace s) ≡ after s)
    inside p =
        let (kept, dropped) =
          (delete_char_zipper back back-IsValid).0 (omega (arith, v.cursor_le)) in
        (
          rw (unfolds p, kept) (slice_snoc s.text s.cursor p),
          rw (unfolds p) (
              tail_eq
                (sym dropped ∙ slice_cons s.text (s.cursor - 1) _ (omega (arith, v.cursor_le)))
              ∙ ap₂ (slice s.text) (omega arith) (omega (arith, v.cursor_le))),
        )
