-- ===== src/Runtime/Args/Words.antt =====
-- The text of a command line and its words; what `args_skip` of dos.c makes of it.
use rmdos.Base.{
  ℕ, zero, suc, ◌+◌, ◌<◌, Bool, true, false, not, List, [], ◌∷◌, ◌≡◌, inl, inr, refl, arith,
  if◌then◌else◌, Buffer, Bool-cases, length,
}
use rmdos.Runtime.Args.{Args, Skip, is_blank, is_end, args_skip}

-- The rest of the command line is the text `t`: its bytes stand from `arg_ptr` on, none of them a
-- CR or a NUL, and one of these behind them.
abbrev pub Holds : List ℕ → Buffer → ℕ → Type 0
Holds [] mem p = is_end (mem p) ≡ true
Holds (c ∷ cs) mem p = (mem p ≡ c) × (c < 256) × (is_end c ≡ false) × Holds cs mem (p + 1)

abbrev pub without_blanks : List ℕ → List ℕ
without_blanks [] = []
without_blanks (c ∷ cs) = if is_blank c then without_blanks cs else c ∷ cs

abbrev pub is_nil : List ℕ → Bool
is_nil [] = true
is_nil (c ∷ cs) = false

-- A text up to the first byte at which a word stops, and from there on.
abbrev pub up_to : (ℕ → Bool) → List ℕ → List ℕ
up_to stops [] = []
up_to stops (c ∷ cs) = if stops c then [] else c ∷ up_to stops cs

abbrev pub from : (ℕ → Bool) → List ℕ → List ℕ
from stops [] = []
from stops (c ∷ cs) = if stops c then c ∷ cs else from stops cs

-- The text that is left behind the blanks.
pub record Skipped (left : List ℕ) (a : Args) (r : Skip) : Type 0 where
  pub mem : r.args.mem ≡ a.mem
  pub rest : Holds left a.mem r.args.arg_ptr
  pub any : r.any ≡ not (is_nil left)

pub args_skip-Skipped :
    (t : List ℕ) (fuel : ℕ) (a : Args)
    → Holds t a.mem a.arg_ptr
    → length t < fuel
    → Skipped (without_blanks t) a (args_skip fuel a)
unfolding args_skip
args_skip-Skipped t zero a h f = elim f [ ]
args_skip-Skipped [] (suc fuel) a h f =
    let none : is_blank (a.mem a.arg_ptr) ≡ false = ground arith in
    rw (none) (record { mem = refl; rest = h; any = ground arith })
args_skip-Skipped (c ∷ cs) (suc fuel) a (e, b, n, h) f = elim (Bool-cases (is_blank c)) [
  | inl blank ↦
      let r = args_skip-Skipped cs fuel (record a { arg_ptr = a.arg_ptr + 1 }) h (omega arith) in
      rw (e, blank) (record { mem = r.mem; rest = r.rest; any = r.any })
  | inr other ↦ rw (e, other, n) (record { mem = refl; rest = (e, b, n, h); any = refl })
]
