-- ===== src/Command/Startup/Examples.antt =====
-- The tail ` /E:512`.
use rmdos.Base.{◌≡◌, refl, inl, [], ◌∷◌, Buffer, zeroed, arith}
use rmdos.Strings.{lit}
use rmdos.Command.Env.{clamped_paras}
use rmdos.Command.Startup.{parse_startup_tail}
use rmdos.Command.Startup.Paras.{clamped_paras-parse_startup_tail}

abbrev asks_512 : Buffer
asks_512 = lit (32 ∷ 47 ∷ 69 ∷ 58 ∷ 53 ∷ 49 ∷ 50 ∷ [])

clamped_paras-parse_startup_tail_example :
    (clamped_paras (parse_startup_tail 8 7 asks_512 zeroed).env_paras ≡ 16)
    × (clamped_paras (parse_startup_tail 8 0 asks_512 zeroed).env_paras ≡ 32)
clamped_paras-parse_startup_tail_example =
    clamped_paras-parse_startup_tail 8 7 1 asks_512 zeroed (omega arith) (omega arith)
      (λ j h. ground arith) (inl refl) (inl refl)
