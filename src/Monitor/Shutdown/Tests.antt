-- ===== src/Monitor/Shutdown/Tests.antt =====
-- The theorems of this part at concrete inputs: a monitor that waits at once, and one that reads a
-- block and is signalled while it waits for the next.
use soper.Common.{
  ℕ, zero, suc, ◌+◌, ◌≤◌, ◌≡◌, List, [], ◌∷◌, ◌++◌, true, false, refl, arith, replicate, length,
  length-append,
}
use soper.Miners.{blank}
use soper.Network.{Block, raw_block}
use soper.Buffer.{read, write}
use soper.Monitor.{buffer_length, monitor_loop}
use soper.Monitor.Shutdown.{
  Checker, Monitor, World, Step, Reach, begin, next, go_on, receive, take_empty, checker_lock,
  write_block, checker_unlock, post_fill, look, take_fill, monitor_lock, read_block, monitor_unlock,
  post_empty, keep, print, wakes_fill,
}
use soper.Monitor.Shutdown.Prefix.{printed_first}
use soper.Monitor.Shutdown.Overrun.{overrun}
use soper.Monitor.Shutdown.Missed.{missed, is_signal}

abbrev old : Block
old = raw_block (replicate 100 blank)

abbrev sent : Block
sent = record old { id = 4; num_voters = 2; total_votes = 2; favorable_votes = 2 }

abbrev blocks : List Block
blocks = replicate 10 old

-- The monitor waits, and nothing has been sent.
abbrev waits : (s : World) × Reach blocks s
waits = (_, next begin (look refl refl))

missed_example :
    (t : World) × Reach blocks t
    × (t.checker ≡ Checker.closing)
    × (t.monitor_down ≡ true)
    × (t.monitor ≡ Monitor.want_fill)
    × ((v : World) (st : Step t v) → is_signal st ≡ true)
missed_example = missed waits.1 refl refl refl

-- The checker is at its test, the monitor waits, and `n` slots are empty.
record Waits (n : ℕ) (s : World) : Type 0 where
  reach : Reach blocks s
  checker : s.checker ≡ Checker.head
  checker_down : s.checker_down ≡ false
  monitor : s.monitor ≡ Monitor.want_fill
  monitor_down : s.monitor_down ≡ false
  gym_mutex : s.gym_mutex ≡ 1
  gym_empty : s.gym_empty ≡ n
  few : length s.written + n ≤ 20

-- The checker passes a block on.
passes : (b : Block) (n : ℕ) {s : World} → Waits (suc n) s → (t : World) × Waits n t
passes b n {s} w = (
  _,
  record {
    reach =
        next
          (next
            (next
              (next
                (next (next (next w.reach (go_on w.checker w.checker_down)) (receive b refl))
                  (take_empty b n refl w.gym_empty))
                (checker_lock b 0 refl w.gym_mutex))
              (write_block b refl))
            (checker_unlock refl))
          (post_fill refl);
    checker = refl;
    checker_down = w.checker_down;
    monitor = w.monitor;
    monitor_down = w.monitor_down;
    gym_mutex = refl;
    gym_empty = refl;
    few = omega (arith, length-append s.written (b ∷ []), w.few);
  },
)

fills : (n : ℕ) {s : World} → Waits n s → (t : World) × Waits 0 t
fills zero w = (_, w)
fills (suc n) w = fills n (passes sent n w).1

abbrev filled : (t : World) × Waits 0 t
filled = fills 10 (record {
  reach = waits.1;
  checker = refl;
  checker_down = refl;
  monitor = refl;
  monitor_down = refl;
  gym_mutex = refl;
  gym_empty = refl;
  few = omega arith;
})

-- The checker waits with one block more.
abbrev full : World
full = record filled.0 { checker = Checker.want_empty old }

full-Reach : Reach blocks full
full-Reach =
    next (next filled.1.reach (go_on filled.1.checker filled.1.checker_down)) (receive old refl)

overrun_example :
    (t : World) × Reach blocks t
    × (t.shown ≡ full.shown ++ (old ∷ []))
    × (t.written ≡ full.written ++ (old ∷ []))
    × (length full.written ≡ length full.shown + buffer_length)
    × (t.monitor_down ≡ false)
overrun_example =
    overrun old full-Reach refl filled.1.checker_down filled.1.monitor_down refl filled.1.monitor
      filled.1.gym_empty (omega (arith, filled.1.few))

-- One block is read and printed, and the monitor is signalled while it waits for the next: it reads a
-- slot in which nothing was written, and ends.
abbrev signalled : (s : World) × Reach blocks s
unfolding write read
signalled = (
  _,
  next
      (next
        (next
          (next
            (next
              (next
                (next
                  (next
                    (next
                      (next
                        (next
                          (next
                            (next
                              (next
                                (next
                                  (next (next (next waits.1 (go_on refl refl)) (receive sent refl))
                                    (take_empty sent 9 refl refl))
                                  (checker_lock sent 0 refl refl))
                                (write_block sent refl))
                              (checker_unlock refl))
                            (post_fill refl))
                          (take_fill 0 refl refl))
                        (monitor_lock 0 refl refl))
                      (read_block sent refl refl))
                    (monitor_unlock sent refl))
                  (post_empty sent refl))
                (keep sent refl refl))
              (print sent refl))
            (look refl refl))
          (wakes_fill refl refl))
        (monitor_lock 0 refl refl))
      (read_block old refl refl),
)

printed_first_example :
    (rest : List Block) × (signalled.0.written ≡ signalled.0.shown ++ rest)
    × (signalled.0.printed ≡ monitor_loop 0 signalled.0.shown)
unfolding signalled
printed_first_example = printed_first signalled.1 refl refl (omega arith)

signalled_result : signalled.0.shown ≡ sent ∷ []
unfolding signalled
signalled_result = refl
