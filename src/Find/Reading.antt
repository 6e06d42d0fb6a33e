-- ===== src/Find/Reading.antt =====
-- The loop of find.c that reads, and what FIND prints and returns.
use rmdos.Base.{
  ℕ, suc, ◌<◌, Bool, true, false, not, List, [], ◌∷◌, ◌++◌, ◌≡◌, ◌⊎◌, inl, inr, refl, arith, ltb,
  ◌==◌, if◌then◌else◌, Bool-cases, length,
}
use mathlib.Core.List.{map}
use rmdos.Runtime.{print_num}
use rmdos.Find.{Find, flush_line, read_byte, read_bytes, Input, Exit, search, msg_err}
use rmdos.Find.Lines.{Query, Report, report_line, report, text_lines, kept, Reads, flush_line-Reads}
use rmdos.Find.Bytes.{AreBytes, byte_read, byte_read-Reads}

-- A line that the end of the text ends.
abbrev last_line : List ℕ → List (List ℕ)
last_line [] = []
last_line (x ∷ xs) = (x ∷ xs) ∷ []

-- The state after the text: the report on the lines that ended, and on the last one.
record HasRead (q : Query) (r : Report) (ended all : List (List ℕ)) (s : Find) : Type 0 where
  cur : List ℕ
  now : Report
  reads : Reads q s now cur
  ended_lines : report q (map kept ended) r ≡ now
  all_lines : report q (map kept all) r ≡ report q (map kept (last_line cur)) now

after_line :
    (q : Query) (r : Report) (cur : List ℕ) (ended all : List (List ℕ)) (s : Find)
    → HasRead q (report_line q (kept cur) r) ended all s
    → HasRead q r (cur ∷ ended) (cur ∷ all) s
after_line q r cur ended all s h = record {
  cur = h.cur;
  now = h.now;
  reads = h.reads;
  ended_lines = h.ended_lines;
  all_lines = h.all_lines;
}

read_cr :
    (c : ℕ) (cr : Bool) (s : Find) → (c == 13) ≡ true → read_byte c cr s ≡ (true, flush_line s)
unfolding read_byte
read_cr c cr s e = rw e refl

read_lf :
    (c : ℕ) (cr : Bool) (s : Find)
    → (c == 13) ≡ false
    → (c == 10) ≡ true
    → read_byte c cr s ≡ (false, if not cr then flush_line s else s)
unfolding read_byte
read_lf c cr s e lf = rw (e, lf) refl

read_other :
    (c : ℕ) (cr : Bool) (s : Find)
    → (c == 13) ≡ false
    → (c == 10) ≡ false
    → read_byte c cr s ≡ (false, byte_read c s)
unfolding read_byte byte_read
read_other c cr s e no_lf = elim (Bool-cases (ltb s.linelen 126)) [
  | inl room ↦ rw (e, no_lf, room) refl
  | inr full ↦ rw (e, no_lf, full) refl
]

read_bytes-HasRead :
    (q : Query) (cs : List ℕ) (cr : Bool) (s : Find) (r : Report) (cur : List ℕ)
    → length q.string < 64
    → AreBytes cs
    → Reads q s r cur
    → HasRead q r (text_lines true cs cr cur) (text_lines false cs cr cur) (read_bytes cs cr s)
unfolding read_bytes text_lines
read_bytes-HasRead q [] cr s r [] short b w = record {
  cur = [];
  now = r;
  reads = w;
  ended_lines = refl;
  all_lines = refl;
}
read_bytes-HasRead q [] cr s r (x ∷ xs) short b w = record {
  cur = x ∷ xs;
  now = r;
  reads = w;
  ended_lines = refl;
  all_lines = refl;
}
read_bytes-HasRead q (c ∷ cs) cr s r cur short (byte, b) w =
    next (Bool-cases (c == 13)) (Bool-cases (c == 10)) (Bool-cases cr) (read_bytes-HasRead q cs)
  where
    next :
        ((c == 13) ≡ true) ⊎ ((c == 13) ≡ false)
        → ((c == 10) ≡ true) ⊎ ((c == 10) ≡ false)
        → (cr ≡ true) ⊎ (cr ≡ false)
        → ((cr : Bool) (s : Find) (r : Report) (cur : List ℕ)
            → length q.string < 64
            → AreBytes cs
            → Reads q s r cur
            → HasRead q r
                (text_lines true cs cr cur)
                (text_lines false cs cr cur)
                (read_bytes cs cr s))
        → HasRead q r
            (text_lines true (c ∷ cs) cr cur)
            (text_lines false (c ∷ cs) cr cur)
            (read_bytes (c ∷ cs) cr s)
    next (inl e) lf k rest =
        rw (read_cr c cr s e, e)
          (after_line q r cur _ _ _
            (rest true (flush_line s) _ [] short b (flush_line-Reads q s r cur short w)))
    next (inr e) (inl lf) (inl after) rest =
        rw (read_lf c cr s e lf, e, lf, after) (rest false s r cur short b w)
    next (inr e) (inl lf) (inr first) rest =
        rw (read_lf c cr s e lf, e, lf, first)
          (after_line q r cur _ _ _
            (rest false (flush_line s) _ [] short b (flush_line-Reads q s r cur short w)))
    next (inr e) (inr no_lf) k rest =
        rw (read_other c cr s e no_lf, e, no_lf)
          (rest false (byte_read c s) r (cur ++ c ∷ []) short b
            (byte_read-Reads q c s r cur byte w))

-- What FIND is to return and print, of a text and of whether reading it `fails` at its end.
abbrev pub answer : Query → Bool → Report → Exit
answer q fails r =
    if fails
    then record { code = 2; out = r.out ++ msg_err }
    else (let total = if q.counting then print_num r.count ++ (13 ∷ 10 ∷ []) else [] in
        record { code = if r.any then 0 else 1; out = r.out ++ total })

abbrev pub nothing_found : Report
nothing_found = record { any = false; count = 0; number = 0; out = [] }

answer_of :
    (q : Query) (s : Find) (r : Report) (cur : List ℕ)
    → Reads q s r cur
    → record {
      code = if s.found then 0 else 1;
      out = s.out ++ (if s.opt_c then print_num s.match_count ++ (13 ∷ 10 ∷ []) else []);
    }
      ≡ answer q false r
answer_of q s r cur w = rw (w.found, w.out, w.opt_c, w.match_count) refl

some_stored : (k l : ℕ) → l ≡ (if ltb (suc k) 126 then suc k else 126) → (l == 0) ≡ false
some_stored k l e = ground arith

-- The last line, which no byte ended.
finished :
    (q : Query) (s : Find) (r : Report) (cur : List ℕ)
    → length q.string < 64
    → Reads q s r cur
    → (let e = if not (s.linelen == 0) then flush_line s else s in
        record {
          code = if e.found then 0 else 1;
          out = e.out ++ (if e.opt_c then print_num e.match_count ++ (13 ∷ 10 ∷ []) else []);
        })
      ≡ answer q false (report q (map kept (last_line cur)) r)
finished q s r [] short w =
    let none : (s.linelen == 0) ≡ true = rw (w.len) refl in rw none (answer_of q s r [] w)
finished q s r (x ∷ xs) short w =
    let some : (s.linelen == 0) ≡ false = some_stored (length xs) s.linelen w.len in
    rw (some) (answer_of q (flush_line s) _ [] (flush_line-Reads q s r (x ∷ xs) short w))

-- From a state that has read nothing, with the needle's NUL within its 64 bytes, on the bytes that
-- a file gives before its end or an error, `search` returns and prints the report on the file's
-- lines, each cut off after 126 bytes and at a NUL: the lines that have the needle in them, or with
-- /V those that do not, with their numbers (/N) or only their count (/C), and 0 or 1 by whether
-- there is one; after an error it returns 2 and prints the report on the lines that had ended, and
-- the message.
pub search-answer :
    (q : Query) (input : Input) (s : Find)
    → length q.string < 64
    → AreBytes input.bytes
    → Reads q s nothing_found []
    → search input s
      ≡ answer q input.fails
          (report q (map kept (text_lines input.fails input.bytes false [])) nothing_found)
unfolding search
search-answer q input s short b w =
    go (Bool-cases input.fails)
      (read_bytes-HasRead q input.bytes false s nothing_found [] short b w)
  where
    go :
        (input.fails ≡ true) ⊎ (input.fails ≡ false)
        → HasRead q nothing_found
            (text_lines true input.bytes false [])
            (text_lines false input.bytes false [])
            (read_bytes input.bytes false s)
        → search input s
          ≡ answer q input.fails
              (report q (map kept (text_lines input.fails input.bytes false [])) nothing_found)
    go (inl fails) h = rw (fails, h.ended_lines, h.reads.out) refl
    go (inr whole) h = rw (whole, h.all_lines) (finished q _ h.now h.cur short h.reads)
