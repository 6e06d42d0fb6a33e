-- ===== src/Find/Lines.antt =====
-- What FIND reports, line by line, and the loop of find.c that reads.
use rmdos.Base.{
  ℕ, ◌+◌, ◌<◌, Bool, true, false, not, List, [], ◌∷◌, ◌++◌, ◌≡◌, inl, inr, refl, ap, ◌∙◌, arith,
  ltb, ◌==◌, if◌then◌else◌, w16, buf_set, Bool-cases, length, slice, slice_same, take, length-take,
}
use mathlib.Core.Path.{ap₂}
use rmdos.Compare.Texts.{c_text, c_text-slice, until_nul, length-until_nul}
use rmdos.Runtime.{print_num}
use rmdos.Find.{Find, line_has_needle, flush_line}
use rmdos.Find.Match.{has, upper, line_has_needle-has}

-- The switches and the string to find.
pub record Query : Type 0 where
  pub without : Bool
  pub counting : Bool
  pub numbering : Bool
  pub string : List ℕ

pub record Report : Type 0 where
  pub any : Bool
  pub count : ℕ
  pub number : ℕ
  pub out : List ℕ

-- Whether a line is one of those asked for.
abbrev pub is_selected : Query → List ℕ → Bool
is_selected q line =
    let there = has (upper q.string) (upper line) in if q.without then not there else there

-- The report on one more line. Numbers are words.
abbrev pub report_line : Query → List ℕ → Report → Report
report_line q line r =
    let number = w16 (r.number + 1) in
    let numbered = if q.numbering then print_num number ++ (58 ∷ []) else [] in
    let printed = if q.counting then [] else numbered ++ (line ++ (13 ∷ 10 ∷ [])) in
    if is_selected q line
    then record { any = true; count = w16 (r.count + 1); number = number; out = r.out ++ printed }
    else record r { number = number }

abbrev pub report : Query → List (List ℕ) → Report → Report
report q [] r = r
report q (line ∷ lines) r = report q lines (report_line q line r)

-- The lines of a text, where `cr` says whether a CR stands before it and `cur` is what the line has
-- so far: a CR, an LF or a CR and an LF end a line, and the end of the text ends one that is not
-- empty unless reading `fails`.
unfoldable pub text_lines : Bool → List ℕ → Bool → List ℕ → List (List ℕ)
text_lines fails [] cr [] = []
text_lines fails [] cr (x ∷ xs) = if fails then [] else (x ∷ xs) ∷ []
text_lines fails (c ∷ cs) cr cur =
    let ended = cur ∷ text_lines fails cs (c == 13) [] in
    let more = text_lines fails cs false (cur ++ c ∷ []) in
    let skipped = text_lines fails cs false cur in
    if c == 13 then ended else if c == 10 then (if not cr then ended else skipped) else more

-- What is kept of a line: 126 bytes at most, up to a NUL.
abbrev pub kept : List ℕ → List ℕ
kept xs = until_nul (take 126 xs)

-- A state that has the answer `r` and the bytes `cur` of a line.
pub record Reads (q : Query) (s : Find) (r : Report) (cur : List ℕ) : Type 0 where
  pub needle : c_text 64 s.needle ≡ q.string
  pub opt_v : s.opt_v ≡ q.without
  pub opt_c : s.opt_c ≡ q.counting
  pub opt_n : s.opt_n ≡ q.numbering
  pub found : s.found ≡ r.any
  pub match_count : s.match_count ≡ r.count
  pub line_number : s.line_number ≡ r.number
  pub out : s.out ≡ r.out
  pub begun : slice s.linebuf 0 s.linelen ≡ take 126 cur
  pub len : s.linelen ≡ (if ltb (length cur) 126 then length cur else 126)

few_stored : (l n : ℕ) → l ≡ (if ltb n 126 then n else 126) → l < 127
few_stored l n e = ground arith

pub flush_line-Reads :
    (q : Query) (s : Find) (r : Report) (cur : List ℕ)
    → length q.string < 64
    → Reads q s r cur
    → Reads q (flush_line s) (report_line q (kept cur) r) []
unfolding flush_line
flush_line-Reads q s r cur short w =
    let linebuf = buf_set s.linebuf s.linelen 0 in
    let few : s.linelen < 127 = few_stored s.linelen (length cur) w.len in
    let line : c_text 128 linebuf ≡ kept cur =
      c_text-slice s.linelen 128 linebuf (omega arith) (ground arith)
      ∙ ap until_nul (slice_same linebuf s.linebuf 0 s.linelen (λ j p. ground arith) ∙ w.begun) in
    let fits : length (c_text 128 linebuf) < 128 =
      omega (arith, ap length line, length-until_nul (take 126 cur), length-take 126 cur) in
    let there : line_has_needle s.needle linebuf ≡ has (upper q.string) (upper (kept cur)) =
      line_has_needle-has s.needle linebuf (omega (arith, ap length w.needle)) fits
      ∙ ap₂ (λ (a b : List ℕ). has (upper a) (upper b)) w.needle line in
    let chosen : (let h = line_has_needle s.needle linebuf in if s.opt_v then not h else h)
        ≡ is_selected q (kept cur) =
      rw (there, w.opt_v) refl in
    elim (Bool-cases (is_selected q (kept cur))) [
      | inl e ↦
          rw (chosen ∙ e, e)
            (record {
              needle = w.needle;
              opt_v = w.opt_v;
              opt_c = w.opt_c;
              opt_n = w.opt_n;
              found = refl;
              match_count = ap (λ (n : ℕ). w16 (n + 1)) w.match_count;
              line_number = ap (λ (n : ℕ). w16 (n + 1)) w.line_number;
              out = rw (w.opt_c, w.opt_n, w.line_number, w.out, line) refl;
              begun = refl;
              len = refl;
            })
      | inr e ↦
          rw (chosen ∙ e, e)
            (record {
              needle = w.needle;
              opt_v = w.opt_v;
              opt_c = w.opt_c;
              opt_n = w.opt_n;
              found = w.found;
              match_count = w.match_count;
              line_number = ap (λ (n : ℕ). w16 (n + 1)) w.line_number;
              out = w.out;
              begun = refl;
              len = refl;
            })
    ]
