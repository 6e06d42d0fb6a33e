-- ===== src/Sort/Examples.antt =====
-- SORT.COM on the lines "B" and "A".
use rmdos.Base.{ℕ, ◌<◌, false, List, [], ◌∷◌, ◌≡◌, arith, Buffer, if◌then◌else◌, ◌==◌}
use rmdos.Compare.{is_more}
use rmdos.Compare.Texts.{compare_texts}
use rmdos.Exchange.Order.{Rearranges}
use rmdos.Sort.{Sorter, sort_lines, sort_main}
use rmdos.Sort.Whole.{at, printed, sort_main-IsSorted}

abbrev input : List ℕ
input = 66 ∷ 10 ∷ 65 ∷ 13 ∷ 10 ∷ []

abbrev pool : Buffer
pool = λ j. if j == 0 then 66 else if j == 40 then 65 else 0

abbrev two_lines : Sorter
two_lines = record { pool = pool; nlines = 2; linelen = 0 }

sort_main-IsSorted_example :
    (row : ℕ → List ℕ) × (sort_main input ≡ printed 2 0 row)
    × Rearranges 2 (at ((66 ∷ []) ∷ (65 ∷ []) ∷ [])) row
    × ((a b : ℕ) → a < b → b < 2 → is_more (compare_texts (row a) (row b)) ≡ false)
unfolding rmdos.Sort.Text.lines_from
sort_main-IsSorted_example =
    sort_main-IsSorted input
      (omega arith, (omega arith, (omega arith, (omega arith, (omega arith, tt)))))
