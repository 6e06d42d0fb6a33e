-- ===== src/Sort.antt =====
-- SORT.COM, firmware/src/main/dos/sort.c: the lines of a file, in alphabetical order.
pub mod Text
pub mod Lines
pub mod Reading
pub mod Sorted
pub mod Whole
mod Examples
use rmdos.Base.{
  ℕ, zero, suc, ◌+◌, ◌-◌, ◌*◌, ◌<◌, Bool, true, false, ◌&&◌, List, [], ◌∷◌, ◌++◌, ltb, leb, ◌==◌,
  if◌then◌else◌, Buffer, buf_set, zeroed,
}
use rmdos.Compare.{Sign, is_more, compare_from}
use rmdos.Compare.Texts.{text_at}
use rmdos.Exchange.{swap_bytes, exchange_sort}

abbrev pub line_max : ℕ
line_max = 40

abbrev pub max_lines : ℕ
max_lines = 24

-- The globals: the lines, each in a row of `line_max` bytes and ended by a NUL.
pub record Sorter : Type 0 where
  pub pool : Buffer
  pub nlines : ℕ
  pub linelen : ℕ

abbrev pub line_off : ℕ → ℕ
line_off idx = idx * 40

pub line_cmp : Buffer → ℕ → ℕ → Sign
line_cmp pool a b =
    compare_from line_max 0 (λ i. pool (line_off a + i)) (λ i. pool (line_off b + i))

pub line_swap : ℕ → ℕ → Buffer → Buffer
line_swap a b pool = swap_bytes line_max 0 (line_off a) (line_off b) pool

pub finish_line : Sorter → Sorter
finish_line s = if leb max_lines s.nlines then record s { linelen = 0 } else record s {
  pool = buf_set s.pool (line_off s.nlines + s.linelen) 0;
  nlines = s.nlines + 1;
  linelen = 0;
}

pub ingest : ℕ → Sorter → Sorter
unfolding finish_line
ingest c s =
    if c == 13
    then s
    else if c == 10
    then finish_line s
    else if ltb s.linelen (line_max - 1) && ltb s.nlines max_lines
    then record s {
      pool = buf_set s.pool (line_off s.nlines + s.linelen) c;
      linelen = s.linelen + 1;
    }
    else s

-- The loop that reads, on the bytes that `dos_read` gives before its first 0 or -1, and what
-- follows it.
pub read_lines : List ℕ → Sorter → Sorter
read_lines [] s = if ltb 0 s.linelen then finish_line s else s
read_lines (c ∷ cs) s = read_lines cs (ingest c s)

pub sort_lines : Sorter → Sorter
unfolding line_cmp line_swap
sort_lines s = record s {
  pool = exchange_sort (λ pool i j. is_more (line_cmp pool i j)) line_swap s.nlines s.pool;
}

-- The loop that prints, at row `i` with `left` to go. Its inner loop runs to a NUL, for as many
-- bytes as the pool has.
pub print_lines : ℕ → ℕ → Buffer → List ℕ
print_lines zero i pool = []
print_lines (suc left) i pool =
    text_at 960 (line_off i) pool ++ (13 ∷ 10 ∷ print_lines left (i + 1) pool)

-- The program on the bytes of its input; the result is its output.
pub sort_main : List ℕ → List ℕ
unfolding read_lines sort_lines print_lines
sort_main input =
    let s = sort_lines (read_lines input (record { pool = zeroed; nlines = 0; linelen = 0 })) in
    print_lines s.nlines 0 s.pool
