-- ===== src/Rush/Protocol/Tests.antt =====
-- The theorems of this part at concrete inputs.
use soper.Common.{◌≡◌, List, [], ◌∷◌, ◌++◌, Bool, true, false, some, none, refl}
use soper.Rush.{miner, success, invalidated}
use soper.Rush.Protocol.{
  MinerPc, MonitorPc, opened, run, wait_line, finished, abnormal, successful, failed, exit_status,
}
use soper.Rush.Protocol.Ends.{accepts, run-miner, run-ends}

wait_line_runs :
    (wait_line (some (exit_status success)) ≡ finished 0 successful)
    × (wait_line (some (exit_status invalidated)) ≡ finished 1 failed)
    × (wait_line none ≡ abnormal)
unfolding wait_line
wait_line_runs = (refl, refl, refl)

-- The monitor reads twice before the miner has written.
abbrev early : List Bool
early = false ∷ false ∷ true ∷ []

abbrev to_the_end :
    (more : List Bool) × ((run 3 (early ++ more) (opened 2 4150)).monitor ≡ MonitorPc.ended)
to_the_end = run-ends 2 3 4150 early

run-miner_example :
    let s = run 3 (early ++ to_the_end.0) (opened 2 4150) in
    (accepts s.printed ≡ (miner 2 3 4150).0) × (s.miner ≡ MinerPc.ended (miner 2 3 4150).1)
run-miner_example = run-miner 2 3 4150 (early ++ to_the_end.0) to_the_end.1
