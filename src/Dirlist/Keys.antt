-- ===== src/Dirlist/Keys.antt =====
-- The comparisons of dirlist.c follow the order of the keys.
use rmdos.Base.{
  ℕ, zero, suc, ◌+◌, ◌≤◌, ◌<◌, true, false, not, ◌&&◌, ◌≡◌, ◌⊎◌, inl, inr, refl, ap, ◌∙◌, arith,
  ◌==◌, if◌then◌else◌, Buffer, peek_word, length, Bool-cases,
}
use mathlib.Core.Path.{ap₂}
use rmdos.Compare.{Sign, less, same, more, flip, or_next, sign_of}
use rmdos.Compare.Texts.{
  text_at, text_at_same, text_at_longer, text_at_nul, compare_texts, compare_from-texts,
}
use rmdos.Dirlist.{
  Dir, dir_ent_off, dir_u16_cmp, dir_name_cmp, ext_at_from, dir_ext_at, dir_ext_cmp, dirent_bit,
  dir_key_cmp, ent_cmp_from, dir_ent_cmp,
}
use rmdos.Dirlist.Entry.{entry, IsBytes, IsNamed, ext_of, key_order, keys_order}

-- `dir_u16_cmp` compares words as unsigned numbers, though its `<` is signed.
pub dir_u16_cmp-sign_of : (a b : ℕ) → a < 65536 → b < 65536 → dir_u16_cmp a b ≡ sign_of a b
unfolding dir_u16_cmp
dir_u16_cmp-sign_of a b p q = ground arith

peek_word_lt : (b : Buffer) (i : ℕ) → IsBytes b → peek_word b i < 65536
peek_word_lt b i bytes = omega (arith, bytes i, bytes (i + 1))

words_cmp :
    (b : Buffer) (i j : ℕ)
    → IsBytes b
    → dir_u16_cmp (peek_word b i) (peek_word b j) ≡ sign_of (peek_word b i) (peek_word b j)
words_cmp b i j bytes = dir_u16_cmp-sign_of _ _ (peek_word_lt b i bytes) (peek_word_lt b j bytes)

row_text :
    (n : ℕ) (pool : Buffer) (off : ℕ) → text_at n 0 (λ i. pool (off + i)) ≡ text_at n off pool
row_text n pool off = text_at_same n 0 off (λ i. pool (off + i)) pool (λ j p. ap pool (omega arith))

dir_name_cmp-texts :
    (pool : Buffer) (a b : ℕ)
    → dir_name_cmp pool a b ≡ compare_texts (entry pool a).name (entry pool b).name
unfolding dir_name_cmp
dir_name_cmp-texts pool a b =
    compare_from-texts 13 0 (λ i. pool (dir_ent_off a + i)) (λ i. pool (dir_ent_off b + i))
    ∙ ap₂ compare_texts (row_text 13 pool (dir_ent_off a)) (row_text 13 pool (dir_ent_off b))

ext_at_from-text :
    (m left i : ℕ) (pool : Buffer) (off : ℕ)
    → left ≤ m
    → length (text_at left (off + i) pool) < left
    → text_at m (ext_at_from left i pool off) pool ≡ ext_of (text_at left (off + i) pool)
unfolding ext_at_from
ext_at_from-text m zero i pool off few h = elim h [ ]
ext_at_from-text m (suc left) i pool off few h =
    found (Bool-cases (pool (off + i) == 0)) (Bool-cases (pool (off + i) == 46)) h (λ p.
      ext_at_from-text m left (i + 1) pool off (omega arith) (rw next p)
      ∙ ap (λ (k : ℕ). ext_of (text_at left k pool)) next)
  where
    next : off + (i + 1) ≡ off + i + 1
    next = omega arith

    found :
        ((pool (off + i) == 0) ≡ true) ⊎ ((pool (off + i) == 0) ≡ false)
        → ((pool (off + i) == 46) ≡ true) ⊎ ((pool (off + i) == 46) ≡ false)
        → length (text_at (suc left) (off + i) pool) < suc left
        → (length (text_at left (off + i + 1) pool) < left
            → text_at m (ext_at_from left (i + 1) pool off) pool
              ≡ ext_of (text_at left (off + i + 1) pool))
        → text_at m (ext_at_from (suc left) i pool off) pool
          ≡ ext_of (text_at (suc left) (off + i) pool)
    found (inl e) dot h rest = rw e (text_at_nul m (off + i) pool e)
    found (inr e) (inl dot) h rest =
        rw (e, dot) (text_at_longer left m (off + i + 1) pool (omega arith) (ground arith))
    found (inr e) (inr other) h rest = rw (e, other) (rest (ground arith))

ext_text :
    (m : ℕ) (pool : Buffer) (off : ℕ)
    → length (text_at m off pool) < m
    → text_at m (ext_at_from m 0 pool off) pool ≡ ext_of (text_at m off pool)
ext_text m pool off h =
    let here : off + 0 ≡ off = omega arith in
    ext_at_from-text m m 0 pool off (omega arith) (rw here h)
    ∙ ap (λ (k : ℕ). ext_of (text_at m k pool)) here

dir_ext_at-text :
    (pool : Buffer) (off : ℕ)
    → length (text_at 13 off pool) < 13
    → text_at 13 (dir_ext_at pool off) pool ≡ ext_of (text_at 13 off pool)
unfolding dir_ext_at
dir_ext_at-text pool off h = ext_text 13 pool off h

dir_ext_cmp-texts :
    (pool : Buffer) (a b : ℕ)
    → IsNamed pool a
    → IsNamed pool b
    → dir_ext_cmp pool a b ≡ compare_texts (ext_of (entry pool a).name) (ext_of (entry pool b).name)
dir_ext_cmp-texts pool a b p q =
    let oa = dir_ent_off a in
    let ob = dir_ent_off b in
    loop
    ∙ ap₂ compare_texts (row_text 13 pool (dir_ext_at pool oa) ∙ dir_ext_at-text pool oa p)
        (row_text 13 pool (dir_ext_at pool ob) ∙ dir_ext_at-text pool ob q)
  where
    loop :
        dir_ext_cmp pool a b
        ≡ compare_texts
            (text_at 13 0 (λ i. pool (dir_ext_at pool (dir_ent_off a) + i)))
            (text_at 13 0 (λ i. pool (dir_ext_at pool (dir_ent_off b) + i)))
    loop =
        unfold dir_ext_cmp in
        compare_from-texts 13 0 (λ i. pool (dir_ext_at pool (dir_ent_off a) + i))
          (λ i. pool (dir_ext_at pool (dir_ent_off b) + i))

ranks :
    (x y : ℕ)
    → (if not (dirent_bit x == 0) && dirent_bit y == 0
        then less
        else if dirent_bit x == 0 && not (dirent_bit y == 0)
        then more
        else same)
      ≡ sign_of (if dirent_bit x == 0 then 1 else 0) (if dirent_bit y == 0 then 1 else 0)
ranks x y = ground arith

-- A key that tells two named entries apart does so as its order says.
pub dir_key_cmp-key_order :
    (pool : Buffer) (a b key : ℕ)
    → IsBytes pool
    → IsNamed pool a
    → IsNamed pool b
    → dir_key_cmp pool a b key ≡ key_order key (entry pool a) (entry pool b)
unfolding dir_key_cmp
dir_key_cmp-key_order pool a b key bytes p q =
    let oa = dir_ent_off a in
    let ob = dir_ent_off b in
    rw
      (
        dir_name_cmp-texts pool a b,
        dir_ext_cmp-texts pool a b p q,
        words_cmp pool (oa + 16) (ob + 16) bytes,
        words_cmp pool (oa + 14) (ob + 14) bytes,
        words_cmp pool (oa + 20) (ob + 20) bytes,
        words_cmp pool (oa + 18) (ob + 18) bytes,
        ranks (pool (oa + 13)) (pool (ob + 13)),
      )
      refl

ent_cmp_from-keys_order :
    (left i : ℕ) (d : Dir) (pool : Buffer) (a b : ℕ)
    → IsBytes pool
    → IsNamed pool a
    → IsNamed pool b
    → ent_cmp_from left i d pool a b ≡ keys_order left i d (entry pool a) (entry pool b)
unfolding ent_cmp_from
ent_cmp_from-keys_order zero i d pool a b bytes p q = dir_name_cmp-texts pool a b
ent_cmp_from-keys_order (suc left) i d pool a b bytes p q =
    ap₂ (λ (r : Sign) (s : Sign). or_next (if d.revs i == 0 then r else flip r) s)
      (dir_key_cmp-key_order pool a b (d.keys i) bytes p q)
      (ent_cmp_from-keys_order left (i + 1) d pool a b bytes p q)

-- On rows of bytes whose names are ended by a NUL, `dir_ent_cmp` compares the entries in the order
-- of the keys.
pub dir_ent_cmp-keys_order :
    (d : Dir) (pool : Buffer) (a b : ℕ)
    → IsBytes pool
    → IsNamed pool a
    → IsNamed pool b
    → dir_ent_cmp d pool a b ≡ keys_order d.nkeys 0 d (entry pool a) (entry pool b)
unfolding dir_ent_cmp
dir_ent_cmp-keys_order d pool a b bytes p q = ent_cmp_from-keys_order d.nkeys 0 d pool a b bytes p q
