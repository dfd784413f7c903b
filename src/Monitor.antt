-- ===== src/Monitor.antt =====
-- The checker and the monitor of the miners' blocks (Proyecto/launch/monitor_launch.c). The ring and
-- its semaphores are `Buffer` at BUFFER_LENGTH slots and `uint8_t` counters.
pub mod Delivery
pub mod Verdict
pub mod Service
pub mod Shutdown
pub mod Program
mod Tests
use soper.Common.{
  ℕ, ◌+◌, ◌%◌, List, [], ◌∷◌, Bool, true, false, ◌==◌, if◌then◌else◌, u8, u8_dec, not,
}
use soper.Network.{Block, System}
use soper.Buffer.{State, Reach}
use soper.Report.{Report, wallets_from}

-- BUFFER_LENGTH, and the range of the counters
abbrev pub buffer_length : ℕ
buffer_length = 10

abbrev pub counter_range : ℕ
counter_range = 256

-- The states of the checker and one monitor over the shared memory.
abbrev pub Reachable : List Block → State Block → Type 0
Reachable = Reach buffer_length counter_range

-- `_system->monitor_up`, set before the loop of `comprobador` and cleared behind it.
unfoldable pub announce : ℕ → System → System
announce up s = record s { monitor_up = up }

-- `shmem->using++` of a monitor that attaches.
unfoldable pub attach : ℕ → ℕ
attach using = u8 (using + 1)

-- What `comprobador` does when `mq_receive` fails.
pub record Abort : Type 0 where
  pub destroyed : Bool  -- the semaphores and both shared memories
  pub using : ℕ
  pub reports_error : Bool
  pub exit_code : ℕ

-- EINTR on Linux
abbrev pub eintr : ℕ
eintr = 4

-- The test at the end is the assignment `errno = EINTR`, so it looks at EINTR.
unfoldable pub receive_failed : ℕ → ℕ → Abort
receive_failed using errno =
    let errno' : ℕ = eintr in
    let code : ℕ = if not (errno' == 0) then 0 else 1 in
    record {
      destroyed = using == 1;
      using = u8_dec using;
      reports_error = errno' == 0;
      exit_code = code;
    }

-- One turn of the loop of `monitor` after the block is copied: the report, and `num_miners`, which
-- keeps its value from the turn before unless every vote is favorable.
unfoldable pub monitor_report : ℕ → Block → Report × ℕ
unfolding wallets_from
monitor_report old b =
    let num_miners = if b.favorable_votes == b.total_votes then b.total_votes else old in
    (
      record {
        id = b.id;
        winner = b.winner;
        target = b.target;
        solution = b.solution;
        votes = b.favorable_votes;
        out_of = num_miners;
        validated = b.favorable_votes == num_miners;
        wallets = wallets_from b.miners num_miners 0;
      },
      num_miners,
    )

-- The loop over the blocks that are read, until the shutdown.
unfoldable pub monitor_loop : ℕ → List Block → List Report
monitor_loop num_miners [] = []
monitor_loop num_miners (b ∷ bs) =
    let (r, num_miners') = monitor_report num_miners b in r ∷ monitor_loop num_miners' bs
