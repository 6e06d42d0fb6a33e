-- ===== src/Dirlist/Fields.antt =====
-- The attribute and the words of an entry, as dirlist.c writes them.
use rmdos.Base.{
  ℕ, ◌+◌, ◌*◌, ◌/◌, ◌%◌, ◌≤◌, ◌<◌, ◌≡◌, ◌⊎◌, arith, Buffer, buf_set, peek_word, poke_word,
}
use rmdos.Compare.Texts.{text_at}
use rmdos.Dirlist.Entry.{Entry, IsBytes}

-- The attribute and the four words of an entry, written to the row at `o`.
abbrev pub fields : Buffer → ℕ → ℕ → ℕ → ℕ → ℕ → ℕ → Buffer
fields b o a t d l h =
    poke_word
      (poke_word (poke_word (poke_word (buf_set b (o + 13) a) (o + 14) t) (o + 16) d) (o + 18) l)
      (o + 20) h

pub word_lt : (b : Buffer) (i : ℕ) → IsBytes b → peek_word b i < 65536
word_lt b i bytes = omega (arith, bytes i, bytes (i + 1))

-- The bytes of a word.
word_bytes : (v : ℕ) → v < 65536 → v % 256 + v / 256 % 256 * 256 ≡ v
word_bytes v h = omega arith

module _ (b : Buffer) (o a t d l h : ℕ) where
  pub fields_outside : (j : ℕ) → (j < o + 13) ⊎ (o + 22 ≤ j) → fields b o a t d l h j ≡ b j
  fields_outside j p = ground arith

  pub fields_attr : a < 256 → fields b o a t d l h (o + 13) ≡ a
  fields_attr p = ground arith

  pub fields_time : t < 65536 → peek_word (fields b o a t d l h) (o + 14) ≡ t
  fields_time p = ground (arith, word_bytes t p)

  pub fields_date : d < 65536 → peek_word (fields b o a t d l h) (o + 16) ≡ d
  fields_date p = ground (arith, word_bytes d p)

  pub fields_low : l < 65536 → peek_word (fields b o a t d l h) (o + 18) ≡ l
  fields_low p = ground (arith, word_bytes l p)

  pub fields_high : h < 65536 → peek_word (fields b o a t d l h) (o + 20) ≡ h
  fields_high p = ground (arith, word_bytes h p)

  pub fields-IsBytes : IsBytes b → IsBytes (fields b o a t d l h)
  fields-IsBytes p j = ground (arith, p j)

-- The entry that the disk transfer area holds after a search.
abbrev pub found_entry : Buffer → Entry
found_entry dta = record {
  name = text_at 13 30 dta;
  attr = dta 21;
  time = peek_word dta 22;
  date = peek_word dta 24;
  size_low = peek_word dta 26;
  size_high = peek_word dta 28;
}
