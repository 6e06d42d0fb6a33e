-- ===== src/Command/Percent/Examples.antt =====
-- The command "%A%", with an empty environment.
use rmdos.Base.{refl, arith, [], ◌∷◌, zeroed, Buffer}
use rmdos.Strings.{lit}
use rmdos.Command.Env.{Sys}
use rmdos.Command.Batch.Within.{Within}
use rmdos.Command.Percent.{percent_from}
use rmdos.Command.Percent.Inside.{percent_from-Within}

abbrev sys : Sys
sys = record { mem = zeroed; psp = 0; env_paras = 32 }

abbrev command : Buffer
command = lit (37 ∷ 65 ∷ 37 ∷ [])

percent_from-Within_example : Within 81 zeroed (percent_from 10 sys command 0 0 zeroed zeroed)
percent_from-Within_example =
    percent_from-Within 10 sys command 0 0 zeroed zeroed zeroed (omega arith) (λ j h. refl)
