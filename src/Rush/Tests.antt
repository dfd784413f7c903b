-- ===== src/Rush/Tests.antt =====
-- The theorems of this part at concrete inputs.
use soper.Common.{ℕ, ◌<◌, ◌≤◌, ◌≡◌, arith, refl, true, false}
use soper.Pow.{pow_hash}
use soper.Pow.Solve.{preimage}
use soper.Mining.{Crew, Reach, begin, done}
use soper.Mining.Slices.{covered}
use soper.Mining.Outcome.{mined}
use soper.Mining.Steps.{Reach-finish}
use soper.Rush.Agree.{threads-Reach}
use soper.Rush.{Globals, threads, answer, success, miner}
use soper.Rush.Main.{Calls, run_main, wait_status}
use soper.Rush.Rounds.{chain, Covered, miner-chain}

in_slices : Covered 3 2 4150
unfolding preimage
in_slices = omega arith

miner-chain_example : miner 2 3 4150 ≡ (chain 2 4150, success)
miner-chain_example = miner-chain 2 3 4150 (omega arith) in_slices

-- The solution of 64312683 is the candidate 99997668, which no three threads search.
out_of_slices : covered 3 ≤ preimage 64312683
unfolding preimage
out_of_slices = omega arith

-- The pair of a round whose solution is such a target.
abbrev stale : Globals
stale = record { pipe_data = record { target = 93966963; solution = 64312683 }; magic_flag = false }

stale-answer : answer stale.pipe_data ≡ true
unfolding answer pow_hash
stale-answer = refl

abbrev no_failure : Calls
no_failure = record {
  monitor_pipe = true;
  miner_pipe = true;
  fork_miner = true;
  fork_monitor = true;
  create_waits = true;
  join_waits = true;
}

no_failure_status : (run_main no_failure).status ≡ 0
unfolding run_main wait_status
no_failure_status = refl

abbrev fresh : Globals
fresh = record { pipe_data = record { target = 0; solution = 7 }; magic_flag = false }

-- Three threads of the network's miner that have returned.
abbrev returned :
    (c : Crew) × Reach 3 4150 7 c
    × ((j : ℕ) → j < 3 → c.pc j ≡ done)
    × (c.shared.solution ≡ mined 3 4150 7)
returned = Reach-finish {n = 3} {t = 4150} {old = 7} (omega arith) begin

threads-Reach_example : (threads 3 4150 3 fresh).pipe_data.solution ≡ returned.0.shared.solution
threads-Reach_example =
    let (c, r, all, e) = returned in threads-Reach fresh (omega arith) refl r all
