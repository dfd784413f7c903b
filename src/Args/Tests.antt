-- ===== src/Args/Tests.antt =====
-- Runs of the command lines, and the theorems of this part at concrete inputs.
use Prim.Native.Char.{code}
use Prim.Native.String.{String}
use soper.Common.{ℕ, ◌≡◌, List, [], ◌∷◌, pos, negsuc, arith, refl}
use soper.Args.{atoi, to_u8, Checked, accepted, check_args, Rush, run, check_rush}
use soper.Args.Numerals.{numeral, check_args-numeral}

-- The codes of an ASCII text.
abbrev codes : String → List ℕ
codes String.[] = []
codes (String.◌∷◌ c s) = code c ∷ codes s

abbrev line : String → String → List (List ℕ)
line a b = codes "miner" ∷ codes a ∷ codes b ∷ []

atoi_runs :
    (atoi (codes " 42x") ≡ pos 42) × (atoi (codes "-7") ≡ negsuc 6) × (atoi (codes "x") ≡ pos 0)
unfolding atoi
atoi_runs = (refl, refl, refl)

check_args_runs :
    (check_args (line "5" "3") ≡ accepted 5 3)
    × (check_args (line "61" "3") ≡ Checked.bad_seconds)
    × (check_args (line "5" "10") ≡ Checked.bad_threads)
    × (check_args (line "257" "-253") ≡ accepted 1 3)
unfolding check_args to_u8 atoi
check_args_runs = (refl, refl, refl, refl)

atoi_257 : atoi (codes "257") ≡ pos 257
unfolding atoi
atoi_257 = refl

atoi_3 : atoi (codes "3") ≡ pos 3
unfolding atoi
atoi_3 = refl

abbrev rush_line : List (List ℕ)
rush_line = codes "mrush" ∷ codes "4150" ∷ codes "2" ∷ codes "3" ∷ []

check_rush_runs :
    (check_rush rush_line ≡ run (pos 4150) (pos 2) (pos 3))
    × (check_rush (codes "mrush" ∷ codes "-1" ∷ codes "2" ∷ codes "3" ∷ []) ≡ Rush.bad_target)
    × (check_rush (codes "mrush" ∷ []) ≡ Rush.usage)
unfolding check_rush atoi
check_rush_runs = (refl, refl, refl)

check_args-numeral_example :
    check_args (codes "miner" ∷ numeral 45 ∷ numeral 7 ∷ []) ≡ accepted 45 7
check_args-numeral_example =
    check_args-numeral (codes "miner") 45 7 (omega arith) (omega arith) (omega arith) (omega arith)
