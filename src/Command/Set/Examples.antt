-- ===== src/Command/Set/Examples.antt =====
-- `SET A=1`.
use rmdos.Base.{refl, arith, [], ◌∷◌, zeroed}
use rmdos.Strings.{lit}
use Prim.{tt}
use rmdos.Command.Env.{Sys}
use rmdos.Command.Set.{do_set}
use rmdos.Command.Set.Stored.{Sets, do_set-Sets}

abbrev sys : Sys
sys = record { mem = zeroed; psp = 0; env_paras = 32 }

do_set-Sets_example :
    Sets
      (65 ∷ [])
      (49 ∷ [])
      (λ n. 8)
      40
      sys
      (do_set (λ n. 8) 40 (lit (65 ∷ 61 ∷ 49 ∷ [])) 0 zeroed sys)
do_set-Sets_example =
    do_set-Sets 65 [] (49 ∷ []) (λ n. 8) 40 (lit (65 ∷ 61 ∷ 49 ∷ [])) 0 zeroed sys refl
      (omega arith, tt)
      (
        refl,
        omega arith,
        omega arith,
        (refl, omega arith, omega arith, (refl, omega arith, omega arith, refl)),
      )
      (omega arith)
