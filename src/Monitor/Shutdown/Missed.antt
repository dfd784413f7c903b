-- ===== src/Monitor/Shutdown/Missed.antt =====
-- SIGINT that comes between the test of `shutdown` and the wait behind it.
use soper.Common.{◌≡◌, List, Bool, true, false, refl}
use soper.Network.{Block}
use soper.Monitor.Shutdown.{
  Checker, Monitor, World, Step, Reach, next, go_on, close, receive, take_empty, checker_lock,
  write_block, checker_unlock, post_fill, wakes_receive, wakes_empty, wakes_checker_lock,
  signal_checker, look, stop, take_fill, monitor_lock, read_block, monitor_unlock, post_empty,
  break, keep, print, wakes_fill, wakes_monitor_lock, signal_monitor,
}

unfoldable pub is_signal : {s t : World} → Step s t → Bool
is_signal (wakes_receive at) = true
is_signal (wakes_empty b at e) = true
is_signal (wakes_checker_lock b at e) = true
is_signal signal_checker = true
is_signal (wakes_fill at e) = true
is_signal (wakes_monitor_lock at e) = true
is_signal signal_monitor = true
is_signal _ = false

-- The checker has returned, and the monitor waits for a block.
only_signals :
    {s t : World} (st : Step s t)
    → s.checker ≡ Checker.closing
    → s.monitor ≡ Monitor.want_fill
    → s.gym_fill ≡ 0
    → is_signal st ≡ true
unfolding is_signal
only_signals (go_on at up) c m f = absurd (cc (at, c))
only_signals (close at down) c m f = absurd (cc (at, c))
only_signals (receive b at) c m f = absurd (cc (at, c))
only_signals (take_empty b e at e') c m f = absurd (cc (at, c))
only_signals (checker_lock b e at e') c m f = absurd (cc (at, c))
only_signals (write_block b at) c m f = absurd (cc (at, c))
only_signals (checker_unlock at) c m f = absurd (cc (at, c))
only_signals (post_fill at) c m f = absurd (cc (at, c))
only_signals (look at up) c m f = absurd (cc (at, m))
only_signals (stop at down) c m f = absurd (cc (at, m))
only_signals (take_fill e at e') c m f = absurd (cc (e', f))
only_signals (monitor_lock e at e') c m f = absurd (cc (at, m))
only_signals (read_block b at e) c m f = absurd (cc (at, m))
only_signals (monitor_unlock b at) c m f = absurd (cc (at, m))
only_signals (post_empty b at) c m f = absurd (cc (at, m))
only_signals (break b at down) c m f = absurd (cc (at, m))
only_signals (keep b at up) c m f = absurd (cc (at, m))
only_signals (print b at) c m f = absurd (cc (at, m))
only_signals _ c m f = refl

-- From every state in which all blocks have been read, the checker is at its test and the monitor
-- just before its wait, a state can be reached in which SIGINT has come to both, the checker has
-- returned, and the monitor, which has seen nothing of its signal, waits for a block: nothing can
-- happen there but a further signal.
pub missed :
    {blocks : List Block} {s : World}
    → Reach blocks s
    → s.checker ≡ Checker.head
    → s.monitor ≡ Monitor.want_fill
    → s.gym_fill ≡ 0
    → (t : World) × Reach blocks t
      × (t.checker ≡ Checker.closing)
      × (t.monitor_down ≡ true)
      × (t.monitor ≡ Monitor.want_fill)
      × ((v : World) (st : Step t v) → is_signal st ≡ true)
missed r c m f = (
  _,
  next (next (next r signal_checker) signal_monitor) (close c refl),
  refl,
  refl,
  m,
  λ v st. only_signals st refl m f,
)
