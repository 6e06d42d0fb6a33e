-- ===== src/Sort/Whole.antt =====
-- The whole of sort.c: what it prints for a file.
use rmdos.Base.{
  length-take, take, ℕ, zero, suc, ◌+◌, ◌≤◌, ◌<◌, false, List, [], ◌∷◌, ◌++◌, ◌≡◌, refl, ap, ◌∙◌,
  sym, inl, inr, arith, ◌==◌, Buffer, Bool-cases, length, zeroed,
}
use Prim.{Unit}
use mathlib.Core.Path.{ap₂}
use mathlib.Core.List.{map}
use rmdos.Compare.{is_more}
use rmdos.Compare.Texts.{length-until_nul, text_at_longer, compare_texts}
use rmdos.Exchange.Order.{Rearranges}
use rmdos.Sort.{Sorter, line_off, max_lines, read_lines, sort_lines, print_lines, sort_main}
use rmdos.Sort.Sorted.{line, sort_lines-IsSorted}
use rmdos.Sort.Text.{kept, take_lines, lines_from, lines_to}
use rmdos.Sort.Lines.{Reads}
use rmdos.Sort.Reading.{AreBytes, read_lines-HasRead}

abbrev AreShort : List (List ℕ) → Type 0
AreShort [] = Unit
AreShort (x ∷ xs) = (length x ≤ 39) × AreShort xs

kept-AreShort : (n : ℕ) (xs : List (List ℕ)) → AreShort (take_lines n (map kept xs))
kept-AreShort zero xs = tt
kept-AreShort (suc n) [] = tt
kept-AreShort (suc n) (x ∷ xs) =
    (omega (arith, length-until_nul (take 39 x), length-take 39 x), kept-AreShort n xs)

last-AreShort :
    (xs : List (List ℕ)) (x : List ℕ) → AreShort (xs ++ x ∷ []) → AreShort xs × (length x ≤ 39)
last-AreShort [] x (h, k) = (tt, h)
last-AreShort (y ∷ ys) x (h, k) = let (a, b) = last-AreShort ys x k in ((h, a), b)

line_short :
    (n k : ℕ) (pool : Buffer) → AreShort (lines_to n pool) → k < n → length (line pool k) ≤ 39
line_short zero k pool h p = elim p [ ]
line_short (suc n) k pool h p =
    let (before, here) = last-AreShort (lines_to n pool) (line pool n) h in
    elim (Bool-cases (k == n)) [
      | inl e ↦ let same_row : k ≡ n = ground arith in rw same_row here
      | inr e ↦ line_short n k pool before (ground arith)
    ]

-- The rows `i`, `i + 1`, … with their line ends, `left` of them.
abbrev pub printed : ℕ → ℕ → (ℕ → List ℕ) → List ℕ
printed zero i row = []
printed (suc left) i row = row i ++ (13 ∷ 10 ∷ printed left (i + 1) row)

print_lines-printed :
    (left i : ℕ) (pool : Buffer)
    → ((k : ℕ) → k < i + left → length (line pool k) ≤ 39)
    → print_lines left i pool ≡ printed left i (line pool)
unfolding print_lines
print_lines-printed zero i pool h = refl
print_lines-printed (suc left) i pool h =
    ap₂ (λ (a b : List ℕ). a ++ (13 ∷ 10 ∷ b))
      (text_at_longer 40 960 (line_off i) pool (omega arith) (omega (arith, h i)))
      (print_lines-printed left (i + 1) pool (λ k p. h k (omega arith)))

nothing_read_yet : Reads (record { pool = zeroed; nlines = 0; linelen = 0 }) []
nothing_read_yet = record {
  bytes = λ j. omega arith;
  few = omega arith;
  full = λ e. refl;
  short = omega arith;
  begun = λ h. refl;
  len = λ h. refl;
}

abbrev pub at : List (List ℕ) → ℕ → List ℕ
at [] k = []
at (x ∷ xs) zero = x
at (x ∷ xs) (suc k) = at xs k

at_before :
    (xs : List (List ℕ)) (x : List ℕ) (k : ℕ) → k < length xs → at (xs ++ x ∷ []) k ≡ at xs k
at_before [] x k h = elim h [ ]
at_before (y ∷ ys) x zero h = refl
at_before (y ∷ ys) x (suc k) h = at_before ys x k (omega arith)

at_last : (xs : List (List ℕ)) (x : List ℕ) (k : ℕ) → k ≡ length xs → at (xs ++ x ∷ []) k ≡ x
at_last [] x zero e = refl
at_last [] x (suc k) e = absurd (omega arith)
at_last (y ∷ ys) x zero e = absurd (omega arith)
at_last (y ∷ ys) x (suc k) e = at_last ys x k (omega arith)

length_snoc : (xs : List (List ℕ)) (x : List ℕ) → length (xs ++ x ∷ []) ≡ suc (length xs)
length_snoc [] x = refl
length_snoc (y ∷ ys) x = ap suc (length_snoc ys x)

length-lines_to : (n : ℕ) (pool : Buffer) → length (lines_to n pool) ≡ n
length-lines_to zero pool = refl
length-lines_to (suc n) pool =
    length_snoc (lines_to n pool) (line pool n) ∙ ap suc (length-lines_to n pool)

at-lines_to : (n : ℕ) (pool : Buffer) (k : ℕ) → k < n → at (lines_to n pool) k ≡ line pool k
at-lines_to zero pool k h = elim h [ ]
at-lines_to (suc n) pool k h =
    let l = length-lines_to n pool in
    elim (Bool-cases (k == n)) [
      | inl e ↦
          let same_row : k ≡ n = ground arith in
          at_last (lines_to n pool) (line pool n) k (same_row ∙ sym l)
          ∙ ap (line pool) (sym same_row)
      | inr e ↦
          at_before (lines_to n pool) (line pool n) k (ground arith)
          ∙ at-lines_to n pool k (ground arith)
    ]

as_lines :
    (n : ℕ) (pool : Buffer) (xs : List (List ℕ)) (row : ℕ → List ℕ)
    → lines_to n pool ≡ xs
    → Rearranges n (line pool) row
    → Rearranges n (at xs) row
as_lines n pool xs row e r = record {
  σ = r.σ;
  inside = r.inside;
  injective = r.injective;
  moved = λ k h.
      r.moved k h
      ∙ sym (at-lines_to n pool (r.σ k) (r.inside k h))
      ∙ ap (λ (l : List (List ℕ)). at l (r.σ k)) e;
}

-- What sort.c takes from its input: the first 24 lines, of each its first 39 bytes up to a NUL.
abbrev pub taken : List ℕ → List (List ℕ)
taken input = take_lines max_lines (map kept (lines_from input []))

-- For the bytes of any input, `sort_main` prints as many rows as it takes lines from the input
-- (24 lines at most, each cut off after 39 bytes and at a NUL), each with CR and LF behind it. The
-- rows are these lines in another order, each line once, and no row is above a later one in the
-- alphabetical order of bytes.
pub sort_main-IsSorted :
    (input : List ℕ)
    → AreBytes input
    → (row : ℕ → List ℕ) × (sort_main input ≡ printed (length (taken input)) 0 row)
      × Rearranges (length (taken input)) (at (taken input)) row
      × ((a b : ℕ)
          → a < b
          → b < length (taken input)
          → is_more (compare_texts (row a) (row b)) ≡ false)
unfolding sort_main
sort_main-IsSorted input b =
    let s : Sorter = read_lines input (record { pool = zeroed; nlines = 0; linelen = 0 }) in
    let read =
      read_lines-HasRead input [] (record { pool = zeroed; nlines = 0; linelen = 0 }) b
        nothing_read_yet in
    let (count, rows, sorted) = sort_lines-IsSorted s read.bytes read.few in
    let short : (k : ℕ) → k < s.nlines → length (line s.pool k) ≤ 39 = λ k p.
      line_short s.nlines k s.pool (rw (read.lines) (kept-AreShort max_lines (lines_from input [])))
        p in
    let number : length (taken input) ≡ s.nlines =
      ap length (sym read.lines) ∙ length-lines_to s.nlines s.pool in
    (
      line (sort_lines s).pool,
      rw (number, count)
          (print_lines-printed s.nlines 0 (sort_lines s).pool (λ k p.
            rw (rows.moved k (omega arith)) (short (rows.σ k) (rows.inside k (omega arith))))),
      rw number (as_lines s.nlines s.pool (taken input) _ read.lines rows),
      λ x y p q. sorted x y p (omega (arith, number)),
    )
