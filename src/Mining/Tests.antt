-- ===== src/Mining/Tests.antt =====
-- A round of one thread that hits at once, and the theorems of this part at concrete inputs.
use soper.Common.{ℕ, ◌<◌, ◌≡◌, arith, refl}
use soper.Pow.{pow_hash}
use soper.Mining.{Crew, Reach, begin, pick, turn, created, done, work_step}
use soper.Mining.Slices.{covered}
use soper.Mining.Outcome.{mined, Reach-mined}
use soper.Mining.Steps.{Reach-finish}

-- The hash of 0 is 4150: the thread finds it, stores it and raises the flag.
abbrev hit_at_once : Crew
hit_at_once = turn 1 4150 (turn 1 4150 (turn 1 4150 (created 1 7) 0) 0) 0

hit_at_once-reach : Reach 1 4150 7 hit_at_once
hit_at_once-reach = pick 0 (omega arith) (pick 0 (omega arith) (pick 0 (omega arith) begin))

hit_at_once-done : (j : ℕ) → j < 1 → hit_at_once.pc j ≡ done
unfolding turn work_step pow_hash
hit_at_once-done j h = ground arith

hit_at_once_result : hit_at_once.shared.solution ≡ 0
unfolding turn work_step pow_hash
hit_at_once_result = refl

Reach-mined_example : hit_at_once.shared.solution ≡ mined 1 4150 7
Reach-mined_example = Reach-mined (omega arith) hit_at_once-reach hit_at_once-done

Reach-finish_example :
    (c : Crew) × Reach 3 4150 7 c
    × ((j : ℕ) → j < 3 → c.pc j ≡ done)
    × (c.shared.solution ≡ mined 3 4150 7)
Reach-finish_example = Reach-finish {n = 3} {t = 4150} {old = 7} (omega arith) begin

-- Seven threads leave the candidates 99997667 and 99997668 out.
covered_runs : (covered 7 ≡ 99997667) × (covered 9 ≡ 99997668)
covered_runs = (refl, refl)
