-- ===== src/Mining.antt =====
-- The mining threads of one round: `work`, `MinerData` and the thread loop of `main`
-- (Proyecto/launch/miner_launch.c, Proyecto/includes/miner.h).
-- Candidates, targets and solutions are C's `long`s that are never negative: they are products of
-- counts, hashes of such candidates, or candidates.
pub mod Slices
pub mod Threads
pub mod Outcome
pub mod Steps
mod Tests
use soper.Common.{
  ℕ, ◌+◌, ◌-◌, ◌*◌, ◌/◌, ◌<◌, Bool, true, false, ltb, ◌==◌, if◌then◌else◌, eqb_ℤ, pos,
}
use soper.Pow.{pow_limit, pow_hash}

-- `MinerData`
pub record MinerData : Type 0 where
  pub start : ℕ
  pub end : ℕ
  pub target : ℕ

-- The globals that the threads of one process share.
pub record Shared : Type 0 where
  pub solution : ℕ  -- _solution
  pub magic_flag : Bool

-- Where a thread stands in `work`. One step makes at most one access to the globals.
pub data Pc : Type 0 where
  check : (i : ℕ) → Pc  -- the test of the loop, and the read of `magic_flag`
  store : (i : ℕ) → Pc  -- before `_solution = i`
  raise : Pc  -- before `magic_flag = 1`
  done : Pc  -- returned

-- `miner_data[j]` as the loop of `main` fills it in.
abbrev pub slice_width : ℕ → ℕ
slice_width nthreads = (pow_limit - 1) / nthreads

abbrev pub miner_data : ℕ → ℕ → ℕ → MinerData
miner_data nthreads target j = record {
  start = j * slice_width nthreads;
  end = (j + 1) * slice_width nthreads;
  target = target;
}

-- One step of `work`.
unfoldable pub work_step : MinerData → Shared → Pc → Shared × Pc
work_step d s (check i) = (
  s,
  (if ltb i d.end
      then (if s.magic_flag
          then done
          else (if eqb_ℤ (pow_hash (pos i)) (pos d.target) then store i else check (i + 1)))
      else done),
)
work_step d s (store i) = (record s { solution = i }, raise)
work_step d s raise = (record s { magic_flag = true }, done)
work_step d s done = (s, done)

-- All threads of the process.
pub record Crew : Type 0 where
  pub shared : Shared
  pub pc : ℕ → Pc

abbrev pub update : (ℕ → Pc) → ℕ → Pc → ℕ → Pc
update f j p k = if j == k then p else f k

-- Thread `j` takes a step.
unfoldable pub turn : ℕ → ℕ → Crew → ℕ → Crew
turn nthreads target c j =
    let (s, p) = work_step (miner_data nthreads target j) c.shared (c.pc j) in
    record { shared = s; pc = update c.pc j p }

-- `magic_flag = 0`, and the threads created. `old` is the `_solution` that an earlier round left.
abbrev pub created : ℕ → ℕ → Crew
created nthreads old = record {
  shared = record { solution = old; magic_flag = false };
  pc = λ j. check (j * slice_width nthreads);
}

-- The threads in any order.
pub data Reach (nthreads target old : ℕ) : Crew → Type 0 where
  begin : Reach nthreads target old (created nthreads old)
  pick :
      {c : Crew} (j : ℕ)
      → j < nthreads
      → Reach nthreads target old c
      → Reach nthreads target old (turn nthreads target c j)
