-- ===== src/Edit/Search.antt =====
-- The search of edit.c: `find_at`, and `do_find` once the pattern is there.
use rmdos.Base.{
  ℕ, zero, suc, ◌+◌, ◌-◌, ◌≤◌, ◌<◌, Bool, true, false, Option, none, some, ◌≡◌, ◌⊎◌, inl, inr, refl,
  sym, ◌∙◌, arith, ltb, ◌==◌, if◌then◌else◌, Bool-cases, ==→≡, ==→≢,
}
use rmdos.Runtime.{toupper_ch}
use rmdos.Edit.{Editor, ensure_view}

abbrev ci_eq : ℕ → ℕ → Bool
ci_eq a b = toupper_ch a == toupper_ch b

-- The inner loop at `j`, with `left` bytes of the pattern to go: is its end reached?
matches_from : Editor → ℕ → ℕ → ℕ → Bool
matches_from s i zero j = true
matches_from s i (suc left) j =
    if ci_eq (s.text (i + j)) (s.find_pat j) then matches_from s i left (j + 1) else false

-- The outer loop at `i`, with the rounds left until `i + find_len` passes the end.
find_at_in : Editor → ℕ → ℕ → Option ℕ
find_at_in s zero i = none
find_at_in s (suc left) i =
    let rest = find_at_in s left (i + 1) in if matches_from s i s.find_len 0 then some i else rest

-- `none` is the -1 of the source.
pub find_at : Editor → ℕ → Option ℕ
find_at s start =
    if ltb s.find_len 1 then none else find_at_in s (s.text_len + 1 - (start + s.find_len)) start

abbrev or_else : Option ℕ → Option ℕ → Option ℕ
or_else none b = b
or_else (some a) b = some a

abbrev to_match : Editor → Option ℕ → Editor
to_match s none = s
to_match s (some at) = record s { cursor = at }

-- The end of `do_find`, which `redraw` closes; the flag is `prompt`. Of `redraw` the model keeps
-- `ensure_view`, its one change of the editor's state.
pub search_on : Bool → Editor → Editor
search_on prompt s =
    ensure_view
      (to_match s (or_else (find_at s (s.cursor + (if prompt then 0 else 1))) (find_at s 0)))

-- The pattern stands at offset `i` of the text, up to the case of its letters.
abbrev pub MatchesAt : Editor → ℕ → Type 0
MatchesAt s i = (j : ℕ) → j < s.find_len → toupper_ch (s.text (i + j)) ≡ toupper_ch (s.find_pat j)

matches_from_sound :
    (s : Editor) (i left j k : ℕ)
    → matches_from s i left j ≡ true
    → j ≤ k
    → k < j + left
    → toupper_ch (s.text (i + k)) ≡ toupper_ch (s.find_pat k)
unfolding matches_from
matches_from_sound s i zero j k h p q = absurd (omega arith)
matches_from_sound s i (suc left) j k h p q = ground (arith, matches_from_sound s i left (j + 1) k)

matches_from_complete :
    (s : Editor) (i left j : ℕ)
    → ((k : ℕ) → j ≤ k → k < j + left → toupper_ch (s.text (i + k)) ≡ toupper_ch (s.find_pat k))
    → matches_from s i left j ≡ true
unfolding matches_from
matches_from_complete s i zero j h = refl
matches_from_complete s i (suc left) j h =
    ground (
      arith,
      h j,
      matches_from_complete s i left (j + 1) (λ k p q. h k (omega arith) (omega arith)),
    )

-- The first place from `start` on where the pattern stands, or that there is none.
abbrev pub FindsFirst : Editor → ℕ → Option ℕ → Type 0
FindsFirst s start none = (i : ℕ) → start ≤ i → i + s.find_len ≤ s.text_len → ¬ MatchesAt s i
FindsFirst s start (some i) =
    (start ≤ i)
    × (i + s.find_len ≤ s.text_len)
    × MatchesAt s i
    × ((k : ℕ) → start ≤ k → k < i → ¬ MatchesAt s k)

not_here : (s : Editor) (i : ℕ) → matches_from s i s.find_len 0 ≡ false → ¬ MatchesAt s i
not_here s i missed m =
    cc (missed, matches_from_complete s i s.find_len 0 (λ k p q. m k (omega arith)))

not_either :
    (s : Editor) (i k : ℕ)
    → ¬ MatchesAt s i
    → i ≤ k
    → (i + 1 ≤ k → ¬ MatchesAt s k)
    → ¬ MatchesAt s k
not_either s i k away le later = elim (Bool-cases (k == i)) [
  | inl e ↦ rw (==→≡ k i e) away
  | inr e ↦ later (ground (arith, ==→≢ k i e))
]

FindsFirst-later :
    (s : Editor) (i : ℕ)
    → ¬ MatchesAt s i
    → (r : Option ℕ) → FindsFirst s (i + 1) r
    → FindsFirst s i r
FindsFirst-later s i away none f = λ k p q. not_either s i k away p (λ later. f k later q)
FindsFirst-later s i away (some r) (le, fits, at, first) =
    (omega arith, fits, at, λ k p q. not_either s i k away p (λ later. first k later q))

find_at_in-FindsFirst :
    (s : Editor) (left i : ℕ)
    → (i + left + s.find_len ≡ s.text_len + 1) ⊎ ((left ≡ 0) × (s.text_len < i + s.find_len))
    → FindsFirst s i (find_at_in s left i)
unfolding find_at_in
find_at_in-FindsFirst s zero i h = λ k p q m. absurd (omega (arith, h))
find_at_in-FindsFirst s (suc left) i (inr h) = absurd (omega arith)
find_at_in-FindsFirst s (suc left) i (inl h) = elim (Bool-cases (matches_from s i s.find_len 0)) [
  | inl found ↦ rw found (
    omega arith,
    omega arith,
    λ j p. matches_from_sound s i s.find_len 0 j found (omega arith) (omega arith),
    λ k p q. absurd (omega arith),
  )
  | inr missed ↦ rw missed (
      FindsFirst-later s i (not_here s i missed) (find_at_in s left (i + 1))
        (find_at_in-FindsFirst s left (i + 1) (inl (omega arith))))
]

past_end :
    (e len start n : ℕ)
    → e ≡ start + n
    → (start + (len + 1 - e) + n ≡ len + 1) ⊎ ((len + 1 - e ≡ 0) × (len < start + n))
past_end e len start n h = elim (Bool-cases (ltb len e)) [
  | inl past ↦ inr (ground arith, ground arith)
  | inr fits ↦ inl (ground arith)
]

-- `find_at` gives the first offset from `start` on at which the pattern stands within the text,
-- letter case aside, and gives none exactly when there is no such offset or no pattern.
pub find_at-FindsFirst :
    (s : Editor) (start : ℕ)
    → (0 < s.find_len → FindsFirst s start (find_at s start))
      × (s.find_len ≡ 0 → find_at s start ≡ none)
unfolding find_at
find_at-FindsFirst s start = (
  λ p.
      let e : ltb s.find_len 1 ≡ false = ground arith in
      rw e (
        find_at_in-FindsFirst s _ start
          (past_end (start + s.find_len) s.text_len start s.find_len refl)),
  λ e. ground arith,
)

none≢some : {i : ℕ} → none ≡ some i → ⊥
none≢some e = cc

find_at-le : (s : Editor) (start i : ℕ) → find_at s start ≡ some i → i ≤ s.text_len
find_at-le s start i e = elim (Bool-cases (s.find_len == 0)) [
  | inl none_given ↦
      let f = (find_at-FindsFirst s start).1 (ground arith) in absurd (none≢some (sym f ∙ e))
  | inr given ↦
      let f = (find_at-FindsFirst s start).0 (ground arith) in omega (arith, (rw e at f).1)
]

-- The search moves the cursor, within the text, and else only what is shown.
pub search_on_moves :
    (prompt : Bool) (s : Editor)
    → s.cursor ≤ s.text_len
    → (c : ℕ) × (search_on prompt s ≡ ensure_view (record s { cursor = c })) × (c ≤ s.text_len)
unfolding search_on
search_on_moves prompt s h =
    by_result (find_at s (s.cursor + (if prompt then 0 else 1))) refl (find_at s 0) refl
  where
    by_result :
        (a : Option ℕ)
        → find_at s (s.cursor + (if prompt then 0 else 1)) ≡ a
        → (b : Option ℕ) → find_at s 0 ≡ b
        → (c : ℕ) × (ensure_view (to_match s (or_else a b)) ≡ ensure_view (record s { cursor = c }))
          × (c ≤ s.text_len)
    by_result none ea none eb = (s.cursor, refl, h)
    by_result none ea (some b) eb = (b, refl, find_at-le s _ b eb)
    by_result (some a) ea b eb = (a, refl, find_at-le s _ a ea)

-- Without any bound on the cursor.
pub search_on_only :
    (prompt : Bool) (s : Editor)
    → (c : ℕ) × (search_on prompt s ≡ ensure_view (record s { cursor = c }))
unfolding search_on
search_on_only prompt s =
    by_result (or_else (find_at s (s.cursor + (if prompt then 0 else 1))) (find_at s 0))
  where
    by_result :
        (o : Option ℕ)
        → (c : ℕ) × (ensure_view (to_match s o) ≡ ensure_view (record s { cursor = c }))
    by_result none = (s.cursor, refl)
    by_result (some c) = (c, refl)
