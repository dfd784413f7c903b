-- ===== src/Rush/Pipes.antt =====
-- Which process holds which end of the two pipes of P1/Ejercicio13/mrush.c.
use native.Mathlib.Omega.{arith}
use soper.Common.{ℕ, ◌+◌, Bool, true, if◌then◌else◌, ◌≡◌}
use soper.Rush.Main.{
  Ends, Calls, no_ends, close_monitor_read, close_monitor_write, close_miner_read,
  close_miner_write, close_all, miner_ends, monitor_ends, Processes, wait_status, run_main,
}

-- How many of the three processes hold an end.
abbrev pub holders : (Ends → Bool) → Processes → ℕ
holders end p =
    (if end p.parent then 1 else 0)
    + ((if end p.miner then 1 else 0) + (if end p.monitor then 1 else 0))

-- On every path the parent holds no end of a pipe when it waits or exits.
pub run_main-parent : (c : Calls) → (run_main c).parent ≡ no_ends
unfolding run_main close_all close_monitor_read close_monitor_write close_miner_read
    close_miner_write
run_main-parent c = ground arith

-- When `main` ends with success each end of each pipe was held by exactly one process: the miner
-- wrote `minerPipe` and read `monitorPipe`, and the monitor held the two other ends.
pub run_main-ends :
    (c : Calls)
    → (run_main c).status ≡ 0
    → (((run_main c).miner.miner_write ≡ true) × ((run_main c).miner.monitor_read ≡ true))
      × (((holders (λ e. e.miner_write) (run_main c) ≡ 1)
            × (holders (λ e. e.miner_read) (run_main c) ≡ 1))
          × ((holders (λ e. e.monitor_write) (run_main c) ≡ 1)
              × (holders (λ e. e.monitor_read) (run_main c) ≡ 1)))
unfolding run_main wait_status close_all miner_ends monitor_ends close_monitor_read
    close_monitor_write close_miner_read close_miner_write
run_main-ends c h = ground arith
