-- ===== src/Rush.antt =====
-- The miner and the monitor of P1/Ejercicio13 over their two pipes (miner.c, monitor.c).
-- The threads of a round appear in the order in which they are created; `Mining` has every schedule
-- of such threads.
pub mod Search
pub mod Agree
pub mod Rounds
pub mod Main
pub mod Pipes
pub mod Protocol
mod Tests
use soper.Common.{
  ℕ, zero, suc, ◌+◌, ◌-◌, List, [], ◌∷◌, Bool, true, false, ◌==◌, if◌then◌else◌, eqb_ℤ, pos,
}
use soper.Pow.{pow_hash}
use soper.Mining.{MinerData, miner_data}

-- `PipeData`
pub record PipeData : Type 0 where
  pub target : ℕ
  pub solution : ℕ

-- The globals of the miner.
pub record Globals : Type 0 where
  pub pipe_data : PipeData
  pub magic_flag : Bool

-- The loop of `work` with `k` rounds left. On a hit the result of the hash is the target.
pub work_from : ℕ → ℕ → ℕ → Globals → Globals
work_from zero i target g = g
work_from (suc k) i target g =
    let rest = work_from k (i + 1) target g in
    if g.magic_flag
    then g
    else (if eqb_ℤ (pow_hash (pos i)) (pos target)
        then record { pipe_data = record { target = target; solution = i }; magic_flag = true }
        else rest)

pub work : MinerData → Globals → Globals
work d g = work_from (d.end - d.start) d.start d.target g

-- The first `j` of the `nthreads` threads.
pub threads : ℕ → ℕ → ℕ → Globals → Globals
threads nthreads target zero g = g
threads nthreads target (suc j) g =
    work (miner_data nthreads target j) (threads nthreads target j g)

-- The answer of the monitor to what it reads from the pipe.
unfoldable pub answer : PipeData → Bool
answer p = eqb_ℤ (pow_hash (pos p.solution)) (pos p.target)

-- How `miner` ends.
pub data Exit : Type 0 where
  success invalidated : Exit

-- The rounds of `miner`: what the monitor accepts, in order, and the end.
unfoldable pub rounds_from : ℕ → ℕ → ℕ → Globals → List PipeData × Exit
rounds_from nthreads zero target g = ([], success)
rounds_from nthreads (suc k) target g =
    let g' = threads nthreads target nthreads g in
    let p = g'.pipe_data in
    let rest = rounds_from nthreads k p.solution (record g' { magic_flag = false }) in
    if answer p then (p ∷ rest.0, rest.1) else ([], invalidated)

-- `miner` with at least one round, as `main` calls it; the globals start at 0.
unfoldable pub miner : ℕ → ℕ → ℕ → List PipeData × Exit
miner rounds nthreads target =
    rounds_from nthreads rounds target
      (record { pipe_data = record { target = 0; solution = 0 }; magic_flag = false })
