-- ===== src/Dirlist/Stored.antt =====
-- `dir_store_dta` of dirlist.c: a found entry goes into the table.
use rmdos.Base.{
  ℕ, zero, suc, ◌+◌, ◌*◌, ◌≤◌, ◌<◌, false, ◌≡◌, ◌≢◌, ◌⊎◌, inl, inr, refl, sym, ap, ◌∙◌, arith, ltb,
  leb, ◌==◌, Buffer, buf_set, peek_word, Bool-cases,
}
use rmdos.Compare.Texts.{text_at, text_at_same}
use rmdos.Dirlist.{Dir, dir_ent_off, dir_max_ents, clear_name, store_name, dir_store_dta}
use rmdos.Dirlist.Entry.{entry_eq, entry, IsBytes}
use rmdos.Dirlist.Sorted.{entry_same}
use rmdos.Dirlist.Fields.{
  fields, word_lt, fields_outside, fields_attr, fields_time, fields_date, fields_low, fields_high,
  fields-IsBytes, found_entry,
}

clear_name-outside :
    (left i off : ℕ) (b : Buffer) (j : ℕ)
    → (j < off + i) ⊎ (off + i + left ≤ j)
    → clear_name left i off b j ≡ b j
unfolding clear_name
clear_name-outside zero i off b j p = refl
clear_name-outside (suc left) i off b j p =
    clear_name-outside left (i + 1) off _ j (ground arith) ∙ ground arith

clear_name-IsBytes : (left i off : ℕ) (b : Buffer) → IsBytes b → IsBytes (clear_name left i off b)
unfolding clear_name
clear_name-IsBytes zero i off b p = p
clear_name-IsBytes (suc left) i off b p =
    clear_name-IsBytes left (i + 1) off _ (λ j. ground (arith, p j))

store_name-outside :
    (left i off : ℕ) (dta b : Buffer) (j : ℕ)
    → (j < off + i) ⊎ (off + i + left ≤ j)
    → store_name left i off dta b j ≡ b j
unfolding store_name
store_name-outside zero i off dta b j p = refl
store_name-outside (suc left) i off dta b j p = elim (Bool-cases (dta (30 + i) == 0)) [
  | inl e ↦ rw e (clear_name-outside (suc left) i off _ j p ∙ ground arith)
  | inr e ↦ rw e (store_name-outside left (i + 1) off dta _ j (ground arith) ∙ ground arith)
]

store_name-IsBytes :
    (left i off : ℕ) (dta b : Buffer) → IsBytes b → IsBytes (store_name left i off dta b)
unfolding store_name
store_name-IsBytes zero i off dta b p = p
store_name-IsBytes (suc left) i off dta b p = elim (Bool-cases (dta (30 + i) == 0)) [
  | inl e ↦ rw e (clear_name-IsBytes (suc left) i off _ (λ j. ground (arith, p j)))
  | inr e ↦ rw e (store_name-IsBytes left (i + 1) off dta _ (λ j. ground (arith, p j)))
]

store_name-text :
    (left i off : ℕ) (dta b : Buffer)
    → IsBytes dta
    → text_at left (off + i) (store_name left i off dta b) ≡ text_at left (30 + i) dta
unfolding store_name
store_name-text zero i off dta b p = refl
store_name-text (suc left) i off dta b p =
    let c = dta (30 + i) in
    let next : off + (i + 1) ≡ off + i + 1 = omega arith in
    let next' : 30 + (i + 1) ≡ 30 + i + 1 = omega arith in
    elim (Bool-cases (c == 0)) [
      | inl e ↦ rw e (
          ground (
            arith,
            clear_name-outside left (i + 1) off (buf_set (buf_set b (off + i) c) (off + i) 0)
                (off + i) (inl (omega arith)),
          ))
      | inr e ↦
          let here =
            store_name-outside left (i + 1) off dta (buf_set b (off + i) c) (off + i)
              (inl (omega arith)) in
          let rest = store_name-text left (i + 1) off dta (buf_set b (off + i) c) p in
          rw e (ground (arith, p (30 + i)))
    ]

store_name-entry :
    (off : ℕ) (dta b : Buffer) (a t d l h : ℕ)
    → IsBytes dta
    → text_at 13 off (fields (store_name 13 0 off dta b) off a t d l h) ≡ text_at 13 30 dta
store_name-entry off dta b a t d l h p =
    let start : off + 0 ≡ off = omega arith in
    text_at_same 13 off off (fields (store_name 13 0 off dta b) off a t d l h)
      (store_name 13 0 off dta b)
      (λ j q.
        fields_outside (store_name 13 0 off dta b) off a t d l h (off + j) (inl (omega arith)))
    ∙ ap (λ (k : ℕ). text_at 13 k (store_name 13 0 off dta b)) (sym start)
    ∙ store_name-text 13 0 off dta b p

-- What `dir_store_dta` does with room in the table.
pub record Stored (d r : Dir) : Type 0 where
  pub bytes : IsBytes r.pool
  pub count : r.nent ≡ d.nent + 1
  pub stored : entry r.pool d.nent ≡ found_entry d.dta
  pub others :
      (j : ℕ) → (j < dir_ent_off d.nent) ⊎ (dir_ent_off d.nent + 22 ≤ j) → r.pool j ≡ d.pool j
  pub kept : (k : ℕ) → k ≢ d.nent → entry r.pool k ≡ entry d.pool k

-- With fewer than 256 entries, `dir_store_dta` adds the entry that the search found, writes to no
-- byte but the first 22 of its row and leaves every other entry as it was; with 256 it does nothing.
pub dir_store_dta-Stored :
    (d : Dir)
    → IsBytes d.dta
    → IsBytes d.pool
    → ((d.nent < dir_max_ents) × Stored d (dir_store_dta d))
      ⊎ ((dir_max_ents ≤ d.nent) × (dir_store_dta d ≡ d))
unfolding dir_store_dta
dir_store_dta-Stored d dta pool = elim (Bool-cases (leb dir_max_ents d.nent)) [
  | inl full ↦ inr (ground arith, rw full refl)
  | inr low ↦ let few : d.nent < dir_max_ents = ground arith in inl (few, room few)
]
  where
    apart : (k n q : ℕ) → q < 24 → k ≢ n → (k * 24 + q < n * 24) ⊎ (n * 24 + 22 ≤ k * 24 + q)
    apart k i q p ne = elim (Bool-cases (ltb k i)) [
      | inl e ↦ inl (ground arith)
      | inr e ↦ inr (ground arith)
    ]

    wider : (o j : ℕ) → (j < o) ⊎ (o + 22 ≤ j) → (j < o + 13) ⊎ (o + 22 ≤ j)
    wider o j (inl p) = inl (omega arith)
    wider o j (inr p) = inr p

    wider' : (o j : ℕ) → (j < o) ⊎ (o + 22 ≤ j) → (j < o + 0) ⊎ (o + 0 + 13 ≤ j)
    wider' o j (inl p) = inl (omega arith)
    wider' o j (inr p) = inr (omega arith)

    room : d.nent < dir_max_ents → Stored d (dir_store_dta d)
    room h =
        let off = dir_ent_off d.nent in
        let b = store_name 13 0 off d.dta d.pool in
        let t = word_lt d.dta 22 dta in
        let g = word_lt d.dta 24 dta in
        let l = word_lt d.dta 26 dta in
        let m = word_lt d.dta 28 dta in
        let r =
          fields b off (d.dta 21) (peek_word d.dta 22) (peek_word d.dta 24) (peek_word d.dta 26)
            (peek_word d.dta 28) in
        let outside : (j : ℕ) → (j < off) ⊎ (off + 22 ≤ j) → r j ≡ d.pool j = λ j p.
          fields_outside b off _ _ _ _ _ j (wider off j p)
          ∙ store_name-outside 13 0 off d.dta d.pool j (wider' off j p) in
        let not_full : leb dir_max_ents d.nent ≡ false = ground arith in
        rw not_full (record {
          bytes = fields-IsBytes b off _ _ _ _ _ (store_name-IsBytes 13 0 off d.dta d.pool pool);
          count = refl;
          stored =
              entry_eq _ (found_entry d.dta) (store_name-entry off d.dta d.pool _ _ _ _ _ dta)
                (fields_attr b off _ _ _ _ _ (dta 21)) (fields_time b off _ _ _ _ _ t)
                (fields_date b off _ _ _ _ _ g) (fields_low b off _ _ _ _ _ l)
                (fields_high b off _ _ _ _ _ m);
          others = outside;
          kept = λ k ne.
              entry_same r d.pool k k (λ q p. outside (dir_ent_off k + q) (apart k d.nent q p ne));
        })
