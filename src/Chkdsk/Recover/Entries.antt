-- ===== src/Chkdsk/Recover/Entries.antt =====
-- The directory entry that `root_add_file` of chkdsk.c fills in.
use rmdos.Base.{
  ℕ, zero, suc, ◌+◌, ◌-◌, ◌*◌, ◌/◌, ◌%◌, ◌≤◌, ◌<◌, ◌&&◌, ◌≡◌, ◌⊎◌, inl, inr, refl, ◌∙◌, arith, leb,
  ltb, ◌==◌, if◌then◌else◌, Buffer, buf_set, peek_word, poke_word, Bool-cases,
}
use rmdos.Chkdsk.Recover.{copy_name, clear_from, fill_entry}

copy_name_lem :
    (left i ent : ℕ) (name b : Buffer) (j : ℕ)
    → ((k : ℕ) → name k < 256)
    → copy_name left i ent name b j
      ≡ (if leb (ent + i) j && ltb j (ent + i + left) then name (j - ent) else b j)
unfolding copy_name
copy_name_lem zero i ent name b j p = ground arith
copy_name_lem (suc left) i ent name b j p =
    let rest = copy_name_lem left (i + 1) ent name (buf_set b (ent + i) (name i)) j p in
    elim (Bool-cases (j == ent + i)) [
      | inl e ↦ let at : j - ent ≡ i = ground arith in rest ∙ rw at (ground (arith, p i))
      | inr e ↦ rest ∙ ground arith
    ]

clear_from_lem :
    (left i ent : ℕ) (b : Buffer) (j : ℕ)
    → clear_from left i ent b j ≡ (if leb (ent + i) j && ltb j (ent + i + left) then 0 else b j)
unfolding clear_from
clear_from_lem zero i ent b j = ground arith
clear_from_lem (suc left) i ent b j =
    clear_from_lem left (i + 1) ent (buf_set b (ent + i) 0) j ∙ ground arith

-- A directory entry at `ent` with these bytes and words, in a sector that was `before`.
pub record HasEntry (ent : ℕ) (name : Buffer) (start lo hi : ℕ) (before now : Buffer) : Type 0 where
  pub name_bytes : (i : ℕ) → i < 11 → now (ent + i) ≡ name i
  pub attr : now (ent + 11) ≡ 32
  pub zeros : (i : ℕ) → 12 ≤ i → i < 26 → now (ent + i) ≡ 0
  pub cluster : peek_word now (ent + 26) ≡ start
  pub size_low : peek_word now (ent + 28) ≡ lo
  pub size_high : peek_word now (ent + 30) ≡ hi
  pub others : (j : ℕ) → (j < ent) ⊎ (ent + 32 ≤ j) → now j ≡ before j

-- The sector before the words of the entry are written.
abbrev cleared : ℕ → Buffer → Buffer → Buffer
cleared ent name sec = clear_from 14 12 ent (buf_set (copy_name 11 0 ent name sec) (ent + 11) 32)

module _ (ent : ℕ) (name : Buffer) (start lo hi : ℕ) (sec : Buffer)
    (bytes : (k : ℕ) → name k < 256) where
  before_words :
      (j : ℕ)
      → cleared ent name sec j ≡ (
          if leb (ent + 12) j && ltb j (ent + 12 + 14)
          then 0
          else if j == ent + 11
          then 32
          else if leb (ent + 0) j && ltb j (ent + 0 + 11)
          then name (j - ent)
          else sec j)
  before_words j =
      clear_from_lem 14 12 ent (buf_set (copy_name 11 0 ent name sec) (ent + 11) 32) j
      ∙ rw (copy_name_lem 11 0 ent name sec j bytes) refl

  words_behind :
      (b : Buffer) (j : ℕ)
      → (j < ent + 26) ⊎ (ent + 32 ≤ j)
      → poke_word (poke_word (poke_word b (ent + 26) start) (ent + 28) lo) (ent + 30) hi j ≡ b j
  words_behind b j h = ground arith

  pub fill_entry-HasEntry :
      start < 65536
      → lo < 65536
      → hi < 65536
      → HasEntry ent name start lo hi sec (fill_entry ent name start lo hi sec)
  unfolding fill_entry
  fill_entry-HasEntry s l h = record {
    name_bytes = λ i p.
        words_behind (cleared ent name sec) (ent + i) (inl (omega arith))
        ∙ before_words (ent + i)
        ∙ first i p;
    attr =
        words_behind (cleared ent name sec) (ent + 11) (inl (omega arith))
        ∙ before_words (ent + 11)
        ∙ ground arith;
    zeros = λ i p q.
        words_behind (cleared ent name sec) (ent + i) (inl (omega arith))
        ∙ before_words (ent + i)
        ∙ ground arith;
    cluster = ground (arith, word start s);
    size_low = ground (arith, word lo l);
    size_high = ground (arith, word hi h);
    others =
        λ j p. words_behind (cleared ent name sec) j (wider j p) ∙ before_words j ∙ ground arith;
  }
    where
      word : (v : ℕ) → v < 65536 → v % 256 + v / 256 % 256 * 256 ≡ v
      word v h = omega arith

      wider : (j : ℕ) → (j < ent) ⊎ (ent + 32 ≤ j) → (j < ent + 26) ⊎ (ent + 32 ≤ j)
      wider j (inl p) = inl (omega arith)
      wider j (inr p) = inr p

      first :
          (i : ℕ)
          → i < 11
          → (if leb (ent + 12) (ent + i) && ltb (ent + i) (ent + 12 + 14)
              then 0
              else if ent + i == ent + 11
              then 32
              else if leb (ent + 0) (ent + i) && ltb (ent + i) (ent + 0 + 11)
              then name (ent + i - ent)
              else sec (ent + i))
            ≡ name i
      first i p = let at : ent + i - ent ≡ i = omega arith in rw at (ground arith)
