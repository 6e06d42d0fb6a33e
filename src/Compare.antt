-- ===== src/Compare.antt =====
-- The three-way comparisons of the tools: a result below, equal to or above 0, and the loop that
-- compares two C strings, which line_cmp of firmware/src/main/dos/sort.c and dir_name_cmp and
-- dir_ext_cmp of firmware/src/main/dos/inc/dirlist.c write out.
pub mod Texts
pub mod Laws
use rmdos.Base.{ℕ, zero, suc, ◌+◌, Bool, true, false, ltb, ◌==◌, if◌then◌else◌, Buffer}

-- The -1, 0 and 1 of a comparison.
pub data Sign : Type 0 where
  less same more : Sign

-- `r > 0`
abbrev pub is_more : Sign → Bool
is_more less = false
is_more same = false
is_more more = true

-- `0 - r`
abbrev pub flip : Sign → Sign
flip less = more
flip same = same
flip more = less

-- `if (r != 0) return r;`
abbrev pub or_next : Sign → Sign → Sign
or_next less r = less
or_next same r = r
or_next more r = more

-- `if (a < b) return -1; return 1;` behind a test for equality.
abbrev pub sign_of : ℕ → ℕ → Sign
sign_of a b = if a == b then same else if ltb a b then less else more

-- The loop at `i`, with `left` bytes to go.
pub compare_from : ℕ → ℕ → Buffer → Buffer → Sign
compare_from zero i x y = same
compare_from (suc left) i x y =
    let rest = compare_from left (i + 1) x y in
    if x i == y i then (if x i == 0 then same else rest) else sign_of (x i) (y i)
