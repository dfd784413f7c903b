-- ===== src/Voting/Start/Main.antt =====
-- `main` of P2/voting.c after its checks: the semaphores, the children and the file of the pids.
pub mod Orphans
mod Tests
use soper.Common.{ℕ, List, [], Bool, true, false, Option, none, some, ◌&&◌, if◌then◌else◌}
use soper.Voting.Start.{Forked, started, stopped, fork_from}

-- Whether the calls succeed, and what the calls of `fork` return.
pub record Calls : Type 0 where
  pub sigactions : Bool  -- all four
  pub calloc : Bool
  pub open_sem_en : Bool
  pub open_sem_candida : Bool
  pub forks : List (Option ℕ)
  pub open_pids : Bool
  pub write_pids : Bool

-- What `main` leaves when it returns 1, or comes to `pause`: the children that still run, and
-- `sem_en`, which is created with 0.
pub record Outcome : Type 0 where
  pub pauses : Bool
  pub children : List ℕ
  pub sem_en : ℕ

abbrev pub returns_1 : List ℕ → Outcome
returns_1 children = record { pauses = false; children = children; sem_en = 0 }

-- The file of the pids, behind the loop of `fork`.
unfoldable pub write_file : Calls → Forked → Outcome
write_file c (stopped children) = returns_1 []
write_file c (started pid) =
    if c.open_pids
    then (if c.write_pids
        then record { pauses = true; children = pid; sem_en = 1 }
        else returns_1 pid)
    else returns_1 pid

unfoldable pub start_voting : Calls → Outcome
unfolding write_file
start_voting c =
    if c.sigactions
    then (if c.calloc
        then (if c.open_sem_en
            then (if c.open_sem_candida then write_file c (fork_from c.forks []) else returns_1 [])
            else returns_1 [])
        else returns_1 [])
    else returns_1 []
