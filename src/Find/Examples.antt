-- ===== src/Find/Examples.antt =====
-- FIND /N "b" on the lines "AB" and "C".
use rmdos.Base.{
  ◌<◌, true, false, [], ◌∷◌, ◌≡◌, refl, arith, Buffer, if◌then◌else◌, ◌==◌, length, zeroed,
}
use mathlib.Core.List.{map}
use rmdos.Compare.Texts.{c_text}
use rmdos.Runtime.Args.{Args}
use rmdos.Runtime.Args.Words.{Holds}
use rmdos.Find.Ends.{read_arguments-length}
use rmdos.Find.{Find, Input, at_start, read_arguments, no_options, search}
use rmdos.Find.Lines.{Query, Reads, report, kept, text_lines}
use rmdos.Find.Reading.{answer, nothing_found, search-answer}

abbrev letter_b : Buffer
letter_b = λ j. if j == 0 then 98 else 0

abbrev line : Buffer
line = λ j. if j == 0 then 65 else if j == 1 then 66 else 0

abbrev query : Query
query = record { without = false; counting = false; numbering = true; string = 98 ∷ [] }

abbrev input : Input
input = record { bytes = 65 ∷ 66 ∷ 13 ∷ 10 ∷ 67 ∷ []; fails = false }

abbrev state : Find
state = record at_start { needle = letter_b; opt_n = true }

state-Reads : Reads query state nothing_found []
state-Reads = record {
  needle = unfold c_text in refl;
  opt_v = refl;
  opt_c = refl;
  opt_n = refl;
  found = refl;
  match_count = refl;
  line_number = refl;
  out = refl;
  begun = refl;
  len = refl;
}

search-answer_example :
    search input state
    ≡ answer query false
        (report query (map kept (text_lines false input.bytes false [])) nothing_found)
search-answer_example =
    search-answer query input state (omega arith)
      (omega arith, (omega arith, (omega arith, (omega arith, (omega arith, tt))))) state-Reads

letter_b-fits : length (c_text 64 letter_b) < 64
unfolding c_text
letter_b-fits = omega arith

letter_b-some : 0 < length (c_text 64 letter_b)
unfolding c_text
letter_b-some = omega arith

line-fits : length (c_text 128 line) < 128
unfolding c_text
line-fits = omega arith

abbrev args : Args
args = record { mem = λ j. if j == 129 then 98 else if j == 130 then 13 else 0; arg_ptr = 129 }

args-Holds : Holds (98 ∷ []) args.mem 129
args-Holds = (refl, omega arith, refl, refl)

read_arguments-length_example :
    read_arguments 2 128 zeroed args no_options ≡ read_arguments 128 128 zeroed args no_options
read_arguments-length_example =
    read_arguments-length 2 128 128 (98 ∷ []) zeroed args no_options args-Holds (omega arith)
      (omega arith) (omega arith)
