-- ===== src/Sort/Sorted.antt =====
-- `sort_lines` of sort.c orders the lines.
use rmdos.Base.{
  ℕ, ◌+◌, ◌*◌, ◌≤◌, ◌<◌, false, List, ◌≡◌, refl, ap, ◌∙◌, inl, inr, ◌⊎◌, ◌≢◌, arith, ltb, ◌==◌,
  if◌then◌else◌, Buffer, Bool-cases,
}
use mathlib.Core.Path.{ap₂}
use rmdos.Compare.{is_more}
use rmdos.Compare.Texts.{
  text_at, compare_texts, compare_texts-IsOrder, compare_from-texts, text_at_same,
}
use rmdos.Exchange.{Table}
use rmdos.Exchange.Bytes.{swap_bytes_lt}
use rmdos.Exchange.Rows.{swap_bytes-view}
use rmdos.Exchange.Order.{Rearranges, exchange_sort-IsSorted}
use rmdos.Sort.{Sorter, line_off, line_max, max_lines, line_cmp, line_swap, sort_lines}

-- The text of a line.
abbrev pub line : Buffer → ℕ → List ℕ
line pool k = text_at line_max (line_off k) pool

row_text :
    (pool : Buffer) (off : ℕ) → text_at line_max 0 (λ i. pool (off + i)) ≡ text_at line_max off pool
row_text pool off =
    text_at_same line_max 0 off (λ i. pool (off + i)) pool (λ j p. ap pool (omega arith))

line_cmp-texts :
    (pool : Buffer) (a b : ℕ) → line_cmp pool a b ≡ compare_texts (line pool a) (line pool b)
unfolding line_cmp
line_cmp-texts pool a b =
    compare_from-texts line_max 0 (λ i. pool (line_off a + i)) (λ i. pool (line_off b + i))
    ∙ ap₂ compare_texts (row_text pool (line_off a)) (row_text pool (line_off b))

abbrev pub IsBytes : Buffer → Type 0
IsBytes pool = (j : ℕ) → pool j < 256

line_swap-line :
    (i j k : ℕ) (pool : Buffer)
    → IsBytes pool
    → i < j
    → line (line_swap i j pool) k
      ≡ (if k == i then line pool j else if k == j then line pool i else line pool k)
unfolding line_swap
line_swap-line i j k pool bytes h =
    swap_bytes-view line_max line_off line apart (λ i j p. omega arith)
      (λ x y k m e. text_at_same 40 (line_off k) (line_off m) x y e) i j k pool bytes h
  where
    apart : (k i q : ℕ) → q < 40 → k ≢ i → (k * 40 + q < i * 40) ⊎ (i * 40 + 40 ≤ k * 40 + q)
    apart k i q p ne = elim (Bool-cases (ltb k i)) [
      | inl e ↦ inl (ground arith)
      | inr e ↦ inr (ground arith)
    ]

sort_table : Table Buffer (List ℕ)
sort_table = record {
  limit = max_lines;
  IsFine = IsBytes;
  view = line;
  above = λ x y. is_more (compare_texts x y);
  exceeds = λ pool i j. is_more (line_cmp pool i j);
  exchange = line_swap;
  exceeds_view = λ pool i j fine x y. ap is_more (line_cmp-texts pool i j);
  exchange-IsFine = λ i j pool fine x y k.
      unfold line_swap in swap_bytes_lt 40 (line_off i) (line_off j) pool (omega arith) fine k;
  exchange_view = λ i j k pool fine x y z. line_swap-line i j k pool fine x;
  above_asym = λ x y h. ground (arith, compare_texts-IsOrder.flips x y);
  above_trans = compare_texts-IsOrder.trans;
}

-- With at most 24 lines of bytes, `sort_lines` keeps the number of lines and the lines themselves,
-- each of them once, and puts them in the alphabetical order of their bytes.
pub sort_lines-IsSorted :
    (s : Sorter)
    → IsBytes s.pool
    → s.nlines ≤ max_lines
    → let r = sort_lines s in
      (r.nlines ≡ s.nlines)
      × Rearranges s.nlines (line s.pool) (line r.pool)
      × ((a b : ℕ)
          → a < b
          → b < s.nlines
          → is_more (compare_texts (line r.pool a) (line r.pool b)) ≡ false)
unfolding sort_lines sort_table
sort_lines-IsSorted s bytes few =
    let (fine, rows, sorted) = exchange_sort-IsSorted sort_table s.nlines s.pool few bytes in
    (refl, rows, sorted)
