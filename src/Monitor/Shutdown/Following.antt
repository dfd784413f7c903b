-- ===== src/Monitor/Shutdown/Following.antt =====
-- The loops of Proyecto/launch/monitor_launch.c until a signal comes: they are those of `Buffer`.
use soper.Common.{
  ◌≡◌, List, [], ◌∷◌, ◌++◌, false, Option, some, map, append-nil, arith, refl, ap, sym, ◌∙◌,
}
use mathlib.Core.List.{map-append}
use soper.Network.{Block}
use soper.Buffer
use soper.Buffer.{Writer, Reader, read}
use soper.Monitor.{buffer_length, counter_range, Reachable}
use soper.Monitor.Shutdown.{
  Checker, Monitor, World, opened, Step, Reach, begin, next, go_on, close, receive, take_empty,
  checker_lock, write_block, checker_unlock, post_fill, wakes_receive, wakes_empty,
  wakes_checker_lock, signal_checker, look, stop, take_fill, monitor_lock, read_block,
  monitor_unlock, post_empty, break, keep, print, wakes_fill, wakes_monitor_lock, signal_monitor,
}

-- Where the writer of `Buffer` stands; the places behind the loop have none.
abbrev pub writer_at : Checker → Writer Block
writer_at Checker.head = Writer.receive
writer_at Checker.receive = Writer.receive
writer_at (Checker.want_empty b) = Writer.want_empty b
writer_at (Checker.want_mutex b) = Writer.want_mutex b
writer_at (Checker.writing b) = Writer.writing b
writer_at Checker.leave = Writer.leave
writer_at Checker.post_fill = Writer.post_fill
writer_at Checker.closing = Writer.receive
writer_at Checker.failed = Writer.receive

abbrev pub reader_at : Monitor → Reader
reader_at Monitor.head = Reader.want_fill
reader_at Monitor.want_fill = Reader.want_fill
reader_at Monitor.want_mutex = Reader.want_mutex
reader_at Monitor.reading = Reader.reading
reader_at (Monitor.leave b) = Reader.leave
reader_at (Monitor.post_empty b) = Reader.post_empty
reader_at (Monitor.test b) = Reader.want_fill
reader_at (Monitor.report b) = Reader.want_fill
reader_at Monitor.ended = Reader.want_fill

-- The block that the monitor has read and not printed.
abbrev pub held : Monitor → List Block
held (Monitor.leave b) = b ∷ []
held (Monitor.post_empty b) = b ∷ []
held (Monitor.test b) = b ∷ []
held (Monitor.report b) = b ∷ []
held _ = []

-- A state of `Buffer` that is the same, but for the flags and what is printed.
pub record Same (u : Buffer.State Block) (s : World) : Type 0 where
  pub ring : u.ring ≡ s.ring
  pub gym_mutex : u.gym_mutex ≡ s.gym_mutex
  pub gym_empty : u.gym_empty ≡ s.gym_empty
  pub gym_fill : u.gym_fill ≡ s.gym_fill
  pub writer : u.writer ≡ writer_at s.checker
  pub reader : u.reader ≡ reader_at s.monitor
  pub sent : u.sent ≡ s.written
  pub got : u.got ≡ map some (s.shown ++ held s.monitor)

-- Without a signal the world follows a state of `Buffer`.
abbrev pub Follows : List Block → World → Type 0
Follows blocks s = (u : Buffer.State Block) × Reachable blocks u × Same u s

read_got :
    {got : List (Option Block)} {x : Option Block} (shown : List Block) {m : Monitor} {b : Block}
    → got ≡ map some (shown ++ held m)
    → m ≡ Monitor.reading
    → x ≡ some b
    → got ++ (x ∷ []) ≡ map some (shown ++ (b ∷ []))
read_got shown {b} g at e = rw (g, at, e, append-nil shown) (sym (map-append some shown (b ∷ [])))

print_got :
    {got : List (Option Block)} (shown : List Block) {m : Monitor} {b : Block}
    → got ≡ map some (shown ++ held m)
    → m ≡ Monitor.report b
    → got ≡ map some ((shown ++ (b ∷ [])) ++ [])
print_got shown {b} g at = rw (g, at) (ap (map some) (sym (append-nil (shown ++ (b ∷ [])))))

Step-Follows :
    {blocks : List Block} {s t : World}
    → Step s t
    → t.checker_down ≡ false
    → t.monitor_down ≡ false
    → Follows blocks s
    → Follows blocks t
Step-Follows (go_on at up) c m (u, r, f) = (u, r, ground arith)
Step-Follows (close at down) c m w = absurd (cc)
Step-Follows {s} (receive b at) c m (u, r, f) =
    (_, Buffer.next r (Buffer.receive b (f.writer ∙ ap writer_at at)), ground arith)
Step-Follows (take_empty b e at e') c m (u, r, f) = (
  _,
  Buffer.next r (Buffer.take_empty b e (f.writer ∙ ap writer_at at) (f.gym_empty ∙ e')),
  ground arith,
)
Step-Follows (checker_lock b e at e') c m (u, r, f) = (
  _,
  Buffer.next r (Buffer.writer_lock b e (f.writer ∙ ap writer_at at) (f.gym_mutex ∙ e')),
  ground arith,
)
Step-Follows (write_block b at) c m (u, r, f) =
    (_, Buffer.next r (Buffer.write_block b (f.writer ∙ ap writer_at at)), ground arith)
Step-Follows (checker_unlock at) c m (u, r, f) =
    (_, Buffer.next r (Buffer.writer_unlock (f.writer ∙ ap writer_at at)), ground arith)
Step-Follows (post_fill at) c m (u, r, f) =
    (_, Buffer.next r (Buffer.post_fill (f.writer ∙ ap writer_at at)), ground arith)
Step-Follows (wakes_receive at) c m w = absurd (cc)
Step-Follows (wakes_empty b at e) c m w = absurd (cc)
Step-Follows (wakes_checker_lock b at e) c m w = absurd (cc)
Step-Follows signal_checker c m w = absurd (cc)
Step-Follows (look at up) c m (u, r, f) = (u, r, ground arith)
Step-Follows (stop at down) c m w = absurd (cc)
Step-Follows (take_fill e at e') c m (u, r, f) = (
  _,
  Buffer.next r (Buffer.take_fill e (f.reader ∙ ap reader_at at) (f.gym_fill ∙ e')),
  ground arith,
)
Step-Follows (monitor_lock e at e') c m (u, r, f) = (
  _,
  Buffer.next r (Buffer.reader_lock e (f.reader ∙ ap reader_at at) (f.gym_mutex ∙ e')),
  ground arith,
)
Step-Follows {s} (read_block b at e) c m (u, r, f) = (
  _,
  Buffer.next r (Buffer.read_block (f.reader ∙ ap reader_at at)),
  record {
    ring = ap (λ x. (read buffer_length counter_range x).1) f.ring;
    gym_mutex = f.gym_mutex;
    gym_empty = f.gym_empty;
    gym_fill = f.gym_fill;
    writer = f.writer;
    reader = refl;
    sent = f.sent;
    got = read_got s.shown f.got at (ap (λ x. (read buffer_length counter_range x).0) f.ring ∙ e);
  },
)
Step-Follows (monitor_unlock b at) c m (u, r, f) =
    (_, Buffer.next r (Buffer.reader_unlock (f.reader ∙ ap reader_at at)), ground arith)
Step-Follows (post_empty b at) c m (u, r, f) =
    (_, Buffer.next r (Buffer.post_empty (f.reader ∙ ap reader_at at)), ground arith)
Step-Follows (break b at down) c m w = absurd (cc)
Step-Follows (keep b at up) c m (u, r, f) = (u, r, ground arith)
Step-Follows {s} (print b at) c m (u, r, f) = (
  u,
  r,
  record {
    ring = f.ring;
    gym_mutex = f.gym_mutex;
    gym_empty = f.gym_empty;
    gym_fill = f.gym_fill;
    writer = f.writer;
    reader = f.reader ∙ ap reader_at at;
    sent = f.sent;
    got = print_got s.shown f.got at;
  },
)
Step-Follows (wakes_fill at e) c m w = absurd (cc)
Step-Follows (wakes_monitor_lock at e) c m w = absurd (cc)
Step-Follows signal_monitor c m w = absurd (cc)

pub checker_up : {s t : World} → Step s t → t.checker_down ≡ false → s.checker_down ≡ false
checker_up (wakes_receive at) c = absurd (cc)
checker_up (wakes_empty b at e) c = absurd (cc)
checker_up (wakes_checker_lock b at e) c = absurd (cc)
checker_up signal_checker c = absurd (cc)
checker_up _ c = c

pub monitor_up : {s t : World} → Step s t → t.monitor_down ≡ false → s.monitor_down ≡ false
monitor_up (wakes_fill at e) m = absurd (cc)
monitor_up (wakes_monitor_lock at e) m = absurd (cc)
monitor_up signal_monitor m = absurd (cc)
monitor_up _ m = m

opened-Follows : (blocks : List Block) → Follows blocks (opened blocks)
opened-Follows blocks = (_, Buffer.begin, ground arith)

pub Reach-Follows :
    {blocks : List Block} {s : World}
    → Reach blocks s
    → s.checker_down ≡ false
    → s.monitor_down ≡ false
    → Follows blocks s
Reach-Follows {blocks} begin c m = opened-Follows blocks
Reach-Follows (next r st) c m =
    Step-Follows st c m (Reach-Follows r (checker_up st c) (monitor_up st m))
