-- ===== src/Dirlist/Loaded.antt =====
-- `dir_load_dta` of dirlist.c: an entry comes out of the table; and what `dir_store_dta` keeps.
use rmdos.Base.{
  ℕ, zero, suc, ◌+◌, ◌-◌, ◌≤◌, ◌<◌, ◌≡◌, ◌&&◌, inl, inr, refl, ap, ◌∙◌, arith, ltb, leb, ◌==◌,
  if◌then◌else◌, Buffer, buf_set, peek_word, Bool-cases, length,
}
use rmdos.Compare.Texts.{text_at, text_at_same}
use rmdos.Dirlist.{Dir, dir_ent_off, dir_max_ents, dir_store_dta, load_name, dir_load_dta}
use rmdos.Dirlist.Entry.{Entry, entry_eq, entry, IsBytes}
use rmdos.Dirlist.Sorted.{IsTable}
use rmdos.Dirlist.Fields.{
  fields, word_lt, fields_outside, fields_attr, fields_time, fields_date, fields_low, fields_high,
  found_entry,
}
use rmdos.Dirlist.Stored.{Stored, dir_store_dta-Stored}

added_below :
    (d : Dir) → IsBytes d.dta → IsBytes d.pool → d.nent < dir_max_ents → Stored d (dir_store_dta d)
added_below d p q h = elim (dir_store_dta-Stored d p q) [
  | inl (few, s) ↦ s
  | inr (many, e) ↦ absurd (omega arith)
]

unchanged_from :
    (d : Dir) → IsBytes d.dta → IsBytes d.pool → dir_max_ents ≤ d.nent → dir_store_dta d ≡ d
unchanged_from d p q h = elim (dir_store_dta-Stored d p q) [
  | inl (few, s) ↦ absurd (omega arith)
  | inr (many, e) ↦ e
]

load_name-byte :
    (left i off : ℕ) (pool b : Buffer) (j : ℕ)
    → IsBytes pool
    → load_name left i off pool b j
      ≡ (if leb (30 + i) j && ltb j (30 + i + left) then pool (off + (j - 30)) else b j)
unfolding load_name
load_name-byte zero i off pool b j p = ground arith
load_name-byte (suc left) i off pool b j p =
    let rest = load_name-byte left (i + 1) off pool (buf_set b (30 + i) (pool (off + i))) j p in
    elim (Bool-cases (j == 30 + i)) [
      | inl e ↦
          let at : off + (j - 30) ≡ off + i = ground arith in
          rest ∙ rw at (ground (arith, p (off + i)))
      | inr e ↦ rest ∙ ground arith
    ]

load_name-IsBytes :
    (left i off : ℕ) (pool b : Buffer) → IsBytes b → IsBytes (load_name left i off pool b)
unfolding load_name
load_name-IsBytes zero i off pool b p = p
load_name-IsBytes (suc left) i off pool b p =
    load_name-IsBytes left (i + 1) off pool _ (λ j. ground (arith, p j))

load_name-entry :
    (off : ℕ) (pool b : Buffer) (a t d l h : ℕ)
    → IsBytes pool
    → text_at 13 30 (fields (load_name 13 0 off pool b) 8 a t d l h) ≡ text_at 13 off pool
load_name-entry off pool b a t d l h p =
    text_at_same 13 30 off (fields (load_name 13 0 off pool b) 8 a t d l h) pool (λ j q.
      fields_outside (load_name 13 0 off pool b) 8 a t d l h (30 + j) (inr (omega arith))
      ∙ load_name-byte 13 0 off pool b (30 + j) p
      ∙ inside j q)
  where
    inside :
        (j : ℕ)
        → j < 13
        → (if leb (30 + 0) (30 + j) && ltb (30 + j) (30 + 0 + 13)
            then pool (off + (30 + j - 30))
            else b (30 + j))
          ≡ pool (off + j)
    inside j q = ground arith

-- `dir_load_dta` puts an entry of the table where a search would have left it, and changes nothing
-- of the table.
pub dir_load_dta-found_entry :
    (idx : ℕ) (d : Dir)
    → IsBytes d.pool
    → (found_entry (dir_load_dta idx d).dta ≡ entry d.pool idx)
      × ((dir_load_dta idx d).pool ≡ d.pool)
unfolding dir_load_dta
dir_load_dta-found_entry idx d p =
    let off = dir_ent_off idx in
    let b = load_name 13 0 off d.pool d.dta in
    let a = d.pool (off + 13) in
    let t = peek_word d.pool (off + 14) in
    let g = peek_word d.pool (off + 16) in
    let l = peek_word d.pool (off + 18) in
    let h = peek_word d.pool (off + 20) in
    (
      entry_eq _ (entry d.pool idx) (load_name-entry off d.pool d.dta a t g l h p)
          (fields_attr b 8 a t g l h (p (off + 13)))
          (fields_time b 8 a t g l h (word_lt d.pool (off + 14) p))
          (fields_date b 8 a t g l h (word_lt d.pool (off + 16) p))
          (fields_low b 8 a t g l h (word_lt d.pool (off + 18) p))
          (fields_high b 8 a t g l h (word_lt d.pool (off + 20) p)),
      refl,
    )

-- With fewer than 256 entries, what `dir_store_dta` put in the table comes back with
-- `dir_load_dta`, whatever the transfer area holds by then.
pub dir_load_dta-dir_store_dta :
    (d : Dir) (dta : Buffer)
    → IsBytes d.dta
    → IsBytes d.pool
    → d.nent < dir_max_ents
    → let r = record (dir_store_dta d) { dta = dta } in
      found_entry (dir_load_dta d.nent r).dta ≡ found_entry d.dta
dir_load_dta-dir_store_dta d dta p q h =
    let s = added_below d p q h in
    let (loaded, _) =
      dir_load_dta-found_entry d.nent (record (dir_store_dta d) { dta = dta }) s.bytes in
    loaded ∙ s.stored

-- A table stays one whose names are ended when `dir_store_dta` adds an entry whose name is.
pub dir_store_dta-IsTable :
    (d : Dir)
    → IsBytes d.dta
    → length (text_at 13 30 d.dta) < 13
    → IsTable d.nent d.pool
    → IsTable (dir_store_dta d).nent (dir_store_dta d).pool
dir_store_dta-IsTable d p ended t = elim (Bool-cases (leb dir_max_ents d.nent)) [
  | inl full ↦ rw (unchanged_from d p t.bytes (ground arith)) t
  | inr low ↦
      let s = added_below d p t.bytes (ground arith) in
      record {
        bytes = s.bytes;
        named = λ k q. elim (Bool-cases (k == d.nent)) [
          | inl e ↦
              let here : k ≡ d.nent = ground arith in
              rw (here, ap (λ (x : Entry). length x.name) s.stored) ended
          | inr e ↦
              rw (ap (λ (x : Entry). length x.name) (s.kept k (ground arith)))
                (t.named k (ground (arith, s.count)))
        ];
      }
]
