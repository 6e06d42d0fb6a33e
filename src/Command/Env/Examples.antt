-- ===== src/Command/Env/Examples.antt =====
-- The environment "A=1", "B=2", in which B becomes 7.
use rmdos.Base.{
  ℕ, ◌+◌, ◌-◌, ◌≡◌, ◌≢◌, inl, refl, arith, List, [], ◌∷◌, some, ◌==◌, if◌then◌else◌, Buffer, zeroed,
}
use rmdos.Strings.{At, lit, same_name}
use Prim.{tt}
use rmdos.Runtime.{toupper_ch}
use rmdos.Command.Env.{Sys, base, env_seg, env_put, env_copy_var}
use rmdos.Command.Env.Block.{Block, size, lookup}
use rmdos.Command.Env.Put.{put, Renewed, env_put-Renewed}
use rmdos.Command.Env.Lookup.{Answers}
use rmdos.Command.Env.Names.{given}
use rmdos.Command.Env.Shown.{env_copy_var-env_put}

abbrev strings : List (List ℕ)
strings = (65 ∷ 61 ∷ 49 ∷ []) ∷ (66 ∷ 61 ∷ 50 ∷ []) ∷ []

-- The environment stands in segment 1, the PSP in segment 0.
abbrev memory : Buffer
memory = λ j. if j == 44 then 1 else lit (65 ∷ 61 ∷ 49 ∷ 0 ∷ 66 ∷ 61 ∷ 50 ∷ []) (j - 16)

abbrev sys : Sys
sys = record { mem = memory; psp = 0; env_paras = 32 }

abbrev name_b : Buffer
name_b = lit (66 ∷ [])

abbrev value_7 : Buffer
value_7 = lit (55 ∷ [])

abbrev alloc : ℕ → ℕ
alloc n = 8

some_seg : env_seg sys ≢ 0
unfolding env_seg
some_seg = omega arith

seg_1 : env_seg sys ≡ 1
unfolding env_seg
seg_1 = refl

name_text : At (66 ∷ []) name_b 0
name_text = (refl, omega arith, omega arith, refl)

value_text : At (55 ∷ []) value_7 0
value_text = (refl, omega arith, omega arith, refl)

block : Block strings sys.mem (base (env_seg sys))
unfolding env_seg
block = (
  omega arith,
  (
    refl,
    omega arith,
    omega arith,
    (refl, omega arith, omega arith, (refl, omega arith, omega arith, refl)),
  ),
  (
    omega arith,
    (
      refl,
      omega arith,
      omega arith,
      (refl, omega arith, omega arith, (refl, omega arith, omega arith, refl)),
    ),
    refl,
  ),
)

behind : At [] sys.mem (base (env_seg sys) + size strings)
unfolding env_seg
behind = refl

env_put-Renewed_example :
    Renewed (put (66 ∷ []) (55 ∷ []) strings) [] 8 sys (env_put alloc 40 name_b (some value_7) sys)
env_put-Renewed_example =
    env_put-Renewed strings (66 ∷ []) (55 ∷ []) [] alloc 40 name_b (some value_7) sys 8 some_seg
      refl (omega arith) (omega arith) name_text value_text block behind (omega arith)
      (inl (omega (arith, seg_1))) (inl (omega arith))

-- The name is asked for as "b".
env_copy_var-env_put_example :
    Answers
      (if same_name (98 ∷ []) (66 ∷ []) then given (55 ∷ []) else lookup (98 ∷ []) strings)
      16
      zeroed
      (env_copy_var 40 (env_put alloc 40 name_b (some value_7) sys) (lit (98 ∷ [])) 16 zeroed)
unfolding toupper_ch
env_copy_var-env_put_example =
    env_copy_var-env_put strings (66 ∷ []) (55 ∷ []) [] alloc 40 name_b (some value_7) sys 8
      some_seg refl (omega arith) (omega arith) name_text value_text block behind (omega arith)
      (inl (omega (arith, seg_1))) (inl (omega arith)) (98 ∷ []) (lit (98 ∷ [])) 16 zeroed
      (omega arith, tt) (omega arith, tt) (refl, omega arith, omega arith, refl) 40 (omega arith)
      (omega arith)
