-- ===== src/Rush/Main.antt =====
-- The start of P1/Ejercicio13/mrush.c: its two pipes, its two processes and the descriptors that
-- each of the three holds. Whether a system call succeeds is an argument.
use soper.Common.{ℕ, Bool, true, false, if◌then◌else◌}

-- Which of the four descriptors a process holds.
pub record Ends : Type 0 where
  pub monitor_read : Bool
  pub monitor_write : Bool
  pub miner_read : Bool
  pub miner_write : Bool

-- The calls of `main` from the first `pipe`, in order.
pub record Calls : Type 0 where
  pub monitor_pipe : Bool
  pub miner_pipe : Bool
  pub fork_miner : Bool
  pub fork_monitor : Bool
  pub create_waits : Bool  -- both `pthread_create`
  pub join_waits : Bool  -- both `pthread_join`

abbrev pub no_ends : Ends
no_ends = record {
  monitor_read = false;
  monitor_write = false;
  miner_read = false;
  miner_write = false;
}

abbrev pub all_ends : Ends
all_ends = record {
  monitor_read = true;
  monitor_write = true;
  miner_read = true;
  miner_write = true;
}

unfoldable pub close_monitor_read : Ends → Ends
close_monitor_read e = record e { monitor_read = false }

unfoldable pub close_monitor_write : Ends → Ends
close_monitor_write e = record e { monitor_write = false }

unfoldable pub close_miner_read : Ends → Ends
close_miner_read e = record e { miner_read = false }

unfoldable pub close_miner_write : Ends → Ends
close_miner_write e = record e { miner_write = false }

-- The three processes when `main` is through: its exit status, and what they hold. A process that
-- was never forked holds nothing.
pub record Processes : Type 0 where
  pub status : ℕ
  pub parent : Ends
  pub miner : Ends  -- while `miner` runs
  pub monitor : Ends  -- while `monitor` runs

unfoldable pub close_all : Ends → Ends
unfolding close_monitor_read close_monitor_write close_miner_read close_miner_write
close_all e = close_miner_write (close_miner_read (close_monitor_write (close_monitor_read e)))

-- What the process of `miner` holds after its two calls of `close`.
unfoldable pub miner_ends : Ends → Ends
miner_ends e = close_miner_read (close_monitor_write e)

-- What the process of `monitor` holds after its two calls of `close`.
unfoldable pub monitor_ends : Ends → Ends
monitor_ends e = close_miner_write (close_monitor_read e)

-- The waits of the parent.
unfoldable pub wait_status : Calls → ℕ
wait_status c = if c.create_waits then (if c.join_waits then 0 else 1) else 1

-- `main` after its checks.
unfoldable pub run_main : Calls → Processes
run_main c =
    if c.monitor_pipe
    then (if c.miner_pipe
        then (if c.fork_miner
            then (if c.fork_monitor
                then record {
                  status = wait_status c;
                  parent = close_all all_ends;
                  miner = miner_ends all_ends;
                  monitor = monitor_ends all_ends;
                }
                else record {
                  status = 1;
                  parent = close_all all_ends;
                  miner = miner_ends all_ends;
                  monitor = no_ends;
                })
            else record {
              status = 1;
              parent = close_all all_ends;
              miner = no_ends;
              monitor = no_ends;
            })
        else record {
          status = 1;
          parent =
              close_monitor_write
                (close_monitor_read (record all_ends { miner_read = false; miner_write = false }));
          miner = no_ends;
          monitor = no_ends;
        })
    else record { status = 1; parent = no_ends; miner = no_ends; monitor = no_ends }
