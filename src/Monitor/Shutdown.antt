-- ===== src/Monitor/Shutdown.antt =====
-- The loops of `comprobador` and `monitor` with SIGINT (Proyecto/launch/monitor_launch.c). Each process
-- has its own `shutdown`. The handler is installed without SA_RESTART, so that a signal ends a
-- `sem_wait` or an `mq_receive` that waits; their results are not looked at, except that of
-- `mq_receive`. `sem_destroy` is taken to leave the semaphores as they are.
pub mod Following
mod Printing
pub mod Prefix
pub mod Overrun
pub mod Missed
mod Tests
use soper.Common.{ℕ, zero, suc, ◌+◌, ◌≡◌, List, [], ◌∷◌, ◌++◌, Bool, true, false, some}
use soper.Network.{Block}
use soper.Report.{Report}
use soper.Buffer.{Ring, write, read}
use soper.Monitor.{buffer_length, counter_range, monitor_report}

-- Where `comprobador` stands.
pub data Checker : Type 0 where
  head : Checker  -- at the test of `while`
  receive : Checker  -- before `mq_receive`, or waiting in it
  want_empty : Block → Checker
  want_mutex : Block → Checker
  writing : Block → Checker
  leave : Checker  -- before `sem_post(gym_mutex)`
  post_fill : Checker
  closing : Checker  -- behind the loop
  failed : Checker  -- it has left by `exit` since `mq_receive` failed

-- Where `monitor` stands, with `read_block`.
pub data Monitor : Type 0 where
  head : Monitor
  want_fill : Monitor
  want_mutex : Monitor
  reading : Monitor
  leave : Block → Monitor
  post_empty : Block → Monitor
  test : Block → Monitor  -- before `if(shutdown) break`
  report : Block → Monitor  -- before the block is printed
  ended : Monitor

-- `written` are the blocks that the checker has written into the ring, and `shown` those that the
-- monitor has printed, as `printed`; the program keeps no such lists.
pub record World : Type 0 where
  pub ring : Ring Block
  pub gym_mutex : ℕ
  pub gym_empty : ℕ
  pub gym_fill : ℕ
  pub checker : Checker
  pub checker_down : Bool
  pub monitor : Monitor
  pub monitor_down : Bool
  pub num_miners : ℕ
  pub written : List Block
  pub shown : List Block
  pub printed : List Report

abbrev pub opened : List Block → World
opened blocks = record {
  ring = record { blocks = blocks; reading = 0; writing = 0 };
  gym_mutex = 1;
  gym_empty = buffer_length;
  gym_fill = 0;
  checker = Checker.head;
  checker_down = false;
  monitor = Monitor.head;
  monitor_down = false;
  num_miners = 0;
  written = [];
  shown = [];
  printed = [];
}

-- `wakes` are the signals that end a wait, and `signal_checker` and `signal_monitor` those that come
-- at any other moment, also just before a wait.
pub data Step (s : World) : World → Type 0 where
  go_on :
      s.checker ≡ Checker.head
      → s.checker_down ≡ false
      → Step s (record s { checker = Checker.receive })
  close :
      s.checker ≡ Checker.head
      → s.checker_down ≡ true
      → Step s (record s { checker = Checker.closing })
  receive :
      (b : Block)
      → s.checker ≡ Checker.receive
      → Step s (record s { checker = Checker.want_empty b })
  take_empty :
      (b : Block) (e : ℕ)
      → s.checker ≡ Checker.want_empty b
      → s.gym_empty ≡ suc e
      → Step s (record s { checker = Checker.want_mutex b; gym_empty = e })
  checker_lock :
      (b : Block) (e : ℕ)
      → s.checker ≡ Checker.want_mutex b
      → s.gym_mutex ≡ suc e
      → Step s (record s { checker = Checker.writing b; gym_mutex = e })
  write_block :
      (b : Block)
      → s.checker ≡ Checker.writing b
      → Step s (record s {
        ring = write buffer_length counter_range b s.ring;
        checker = Checker.leave;
        written = s.written ++ (b ∷ []);
      })
  checker_unlock :
      s.checker ≡ Checker.leave
      → Step s (record s { checker = Checker.post_fill; gym_mutex = s.gym_mutex + 1 })
  post_fill :
      s.checker ≡ Checker.post_fill
      → Step s (record s { checker = Checker.head; gym_fill = s.gym_fill + 1 })
  wakes_receive :
      s.checker ≡ Checker.receive
      → Step s (record s { checker = Checker.failed; checker_down = true })
  wakes_empty :
      (b : Block)
      → s.checker ≡ Checker.want_empty b
      → s.gym_empty ≡ 0
      → Step s (record s { checker = Checker.want_mutex b; checker_down = true })
  wakes_checker_lock :
      (b : Block)
      → s.checker ≡ Checker.want_mutex b
      → s.gym_mutex ≡ 0
      → Step s (record s { checker = Checker.writing b; checker_down = true })
  signal_checker : Step s (record s { checker_down = true })
  look :
      s.monitor ≡ Monitor.head
      → s.monitor_down ≡ false
      → Step s (record s { monitor = Monitor.want_fill })
  stop :
      s.monitor ≡ Monitor.head
      → s.monitor_down ≡ true
      → Step s (record s { monitor = Monitor.ended })
  take_fill :
      (e : ℕ)
      → s.monitor ≡ Monitor.want_fill
      → s.gym_fill ≡ suc e
      → Step s (record s { monitor = Monitor.want_mutex; gym_fill = e })
  monitor_lock :
      (e : ℕ)
      → s.monitor ≡ Monitor.want_mutex
      → s.gym_mutex ≡ suc e
      → Step s (record s { monitor = Monitor.reading; gym_mutex = e })
  read_block :
      (b : Block)
      → s.monitor ≡ Monitor.reading
      → (read buffer_length counter_range s.ring).0 ≡ some b
      → Step s (record s {
        ring = (read buffer_length counter_range s.ring).1;
        monitor = Monitor.leave b;
      })
  monitor_unlock :
      (b : Block)
      → s.monitor ≡ Monitor.leave b
      → Step s (record s { monitor = Monitor.post_empty b; gym_mutex = s.gym_mutex + 1 })
  post_empty :
      (b : Block)
      → s.monitor ≡ Monitor.post_empty b
      → Step s (record s { monitor = Monitor.test b; gym_empty = s.gym_empty + 1 })
  break :
      (b : Block)
      → s.monitor ≡ Monitor.test b
      → s.monitor_down ≡ true
      → Step s (record s { monitor = Monitor.ended })
  keep :
      (b : Block)
      → s.monitor ≡ Monitor.test b
      → s.monitor_down ≡ false
      → Step s (record s { monitor = Monitor.report b })
  print :
      (b : Block)
      → s.monitor ≡ Monitor.report b
      → Step s (record s {
        monitor = Monitor.head;
        num_miners = (monitor_report s.num_miners b).1;
        shown = s.shown ++ (b ∷ []);
        printed = s.printed ++ ((monitor_report s.num_miners b).0 ∷ []);
      })
  wakes_fill :
      s.monitor ≡ Monitor.want_fill
      → s.gym_fill ≡ 0
      → Step s (record s { monitor = Monitor.want_mutex; monitor_down = true })
  wakes_monitor_lock :
      s.monitor ≡ Monitor.want_mutex
      → s.gym_mutex ≡ 0
      → Step s (record s { monitor = Monitor.reading; monitor_down = true })
  signal_monitor : Step s (record s { monitor_down = true })

pub data Reach (blocks : List Block) : World → Type 0 where
  begin : Reach blocks (opened blocks)
  next : {s t : World} → Reach blocks s → Step s t → Reach blocks t
