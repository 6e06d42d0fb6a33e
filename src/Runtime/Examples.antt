-- ===== src/Runtime/Examples.antt =====
-- The command line ` "a b"`, and the number 10.
use rmdos.Base.{ℕ, false, List, [], ◌∷◌, ◌≡◌, refl, arith, Buffer, if◌then◌else◌, ◌==◌, zeroed}
use rmdos.Runtime.{print_num}
use rmdos.Runtime.Numbers.{value, AreDigits, is_nil, print_num-value}
use rmdos.Runtime.Args.{Args, args_token_quoted}
use rmdos.Runtime.Args.Words.{Holds}
use rmdos.Runtime.Args.Tokens.{TakesQuoted, args_token_quoted-TakesQuoted}

abbrev line : List ℕ
line = 32 ∷ 34 ∷ 97 ∷ 32 ∷ 98 ∷ 34 ∷ []

abbrev memory : Buffer
memory = λ j.
    if j == 129
    then 32
    else if j == 130
    then 34
    else if j == 131
    then 97
    else if j == 132
    then 32
    else if j == 133
    then 98
    else if j == 134
    then 34
    else if j == 135
    then 13
    else 0

abbrev args : Args
args = record { mem = memory; arg_ptr = 129 }

line-Holds : Holds line memory 129
line-Holds = (
  refl,
  omega arith,
  refl,
  (
    refl,
    omega arith,
    refl,
    (
      refl,
      omega arith,
      refl,
      (refl, omega arith, refl, (refl, omega arith, refl, (refl, omega arith, refl, refl))),
    ),
  ),
)

args_token_quoted-TakesQuoted_example :
    TakesQuoted (97 ∷ 32 ∷ 98 ∷ []) [] 64 args zeroed (args_token_quoted 128 64 zeroed args)
args_token_quoted-TakesQuoted_example =
    args_token_quoted-TakesQuoted line 128 64 args zeroed line-Holds (omega arith) (omega arith)

print_num-value_example :
    (value 0 (print_num 10) ≡ 10) × AreDigits (print_num 10) × (is_nil (print_num 10) ≡ false)
print_num-value_example = print_num-value 10 (omega arith)
