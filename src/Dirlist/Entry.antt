-- ===== src/Dirlist/Entry.antt =====
-- A directory entry as a value, and the order of entries that the keys of dirlist.c ask for.
use rmdos.Base.{
  ℕ, zero, suc, ◌+◌, ◌<◌, Bool, true, false, List, [], ◌∷◌, ◌≡◌, refl, ◌==◌, if◌then◌else◌, Buffer,
  peek_word, length,
}
use rmdos.Compare.{Sign, same, flip, or_next, sign_of}
use rmdos.Compare.Laws.{IsOrder, flip-IsOrder, on-IsOrder, or_next-IsOrder, sign_of-IsOrder}
use rmdos.Compare.Texts.{text_at, compare_texts, compare_texts-IsOrder}
use rmdos.Dirlist.{Dir, dir_ent_off, dirent_bit}

pub record Entry : Type 0 where
  pub name : List ℕ
  pub attr : ℕ
  pub time : ℕ
  pub date : ℕ
  pub size_low : ℕ
  pub size_high : ℕ

-- Entries with the same parts are the same.
pub entry_eq :
    (x y : Entry)
    → x.name ≡ y.name
    → x.attr ≡ y.attr
    → x.time ≡ y.time
    → x.date ≡ y.date
    → x.size_low ≡ y.size_low
    → x.size_high ≡ y.size_high
    → x ≡ y
entry_eq x y n a t d l h =
    λ i. record { name = n i; attr = a i; time = t i; date = d i; size_low = l i; size_high = h i }

-- The entry in a row of the table.
abbrev pub entry : Buffer → ℕ → Entry
entry pool k = record {
  name = text_at 13 (dir_ent_off k) pool;
  attr = pool (dir_ent_off k + 13);
  time = peek_word pool (dir_ent_off k + 14);
  date = peek_word pool (dir_ent_off k + 16);
  size_low = peek_word pool (dir_ent_off k + 18);
  size_high = peek_word pool (dir_ent_off k + 20);
}

abbrev pub IsBytes : Buffer → Type 0
IsBytes b = (j : ℕ) → b j < 256

-- The NUL of a name stands in its 13 bytes.
abbrev pub IsNamed : Buffer → ℕ → Type 0
IsNamed pool k = length (text_at 13 (dir_ent_off k) pool) < 13

-- The extension of a name: what stands behind its first dot.
abbrev pub ext_of : List ℕ → List ℕ
ext_of [] = []
ext_of (c ∷ cs) = if c == 46 then cs else ext_of cs

-- Directories come first.
abbrev pub rank : Entry → ℕ
rank e = if dirent_bit e.attr == 0 then 1 else 0

-- The order of a key: by name (78, N), by extension and name (69, E), by date and time (68, D), by
-- size (83, S), directories first (71, G); any other key tells no entries apart.
abbrev pub key_order : ℕ → Entry → Entry → Sign
key_order key x y =
    if key == 78
    then compare_texts x.name y.name
    else if key == 69
    then or_next (compare_texts (ext_of x.name) (ext_of y.name)) (compare_texts x.name y.name)
    else if key == 68
    then or_next (sign_of x.date y.date) (sign_of x.time y.time)
    else if key == 83
    then or_next (sign_of x.size_high y.size_high) (sign_of x.size_low y.size_low)
    else if key == 71
    then sign_of (rank x) (rank y)
    else same

-- The order of `left` keys from `i` on, the first that tells two entries apart deciding and a
-- key that is to be reversed turned round, and of the names at last.
abbrev pub keys_order : ℕ → ℕ → Dir → Entry → Entry → Sign
keys_order zero i d x y = compare_texts x.name y.name
keys_order (suc left) i d x y =
    or_next (if d.revs i == 0 then key_order (d.keys i) x y else flip (key_order (d.keys i) x y))
      (keys_order left (i + 1) d x y)

by_name : IsOrder (λ (x y : Entry). compare_texts x.name y.name)
by_name = on-IsOrder (λ (e : Entry). e.name) compare_texts compare_texts-IsOrder

by_word : (f : Entry → ℕ) → IsOrder (λ (x y : Entry). sign_of (f x) (f y))
by_word f = on-IsOrder f sign_of sign_of-IsOrder

by_words :
    (f g : Entry → ℕ)
    → IsOrder (λ (x y : Entry). or_next (sign_of (f x) (f y)) (sign_of (g x) (g y)))
by_words f g = or_next-IsOrder _ _ (by_word f) (by_word g)

none_apart : IsOrder (λ (x y : Entry). same)
none_apart = record { flips = λ x y. refl; trans = λ x y z h k. refl }

chosen :
    (b : Bool) (c d : Entry → Entry → Sign)
    → IsOrder c
    → IsOrder d
    → IsOrder (λ x y. if b then c x y else d x y)
chosen true c d o q = o
chosen false c d o q = q

key_order-IsOrder : (key : ℕ) → IsOrder (key_order key)
key_order-IsOrder key = chosen (key == 78) _ _ by_name (
    chosen (key == 69) _ _
      (or_next-IsOrder _ _
        (on-IsOrder (λ (e : Entry). ext_of e.name) compare_texts compare_texts-IsOrder) by_name)
      (chosen (key == 68) _ _ (by_words (λ e. e.date) (λ e. e.time)) (
        chosen (key == 83) _ _ (by_words (λ e. e.size_high) (λ e. e.size_low))
          (chosen (key == 71) _ _ (by_word rank) none_apart))))

pub keys_order-IsOrder : (left i : ℕ) (d : Dir) → IsOrder (keys_order left i d)
keys_order-IsOrder zero i d = by_name
keys_order-IsOrder (suc left) i d =
    or_next-IsOrder _ _
      (chosen (d.revs i == 0) _ _ (key_order-IsOrder (d.keys i))
        (flip-IsOrder _ (key_order-IsOrder (d.keys i))))
      (keys_order-IsOrder left (i + 1) d)
