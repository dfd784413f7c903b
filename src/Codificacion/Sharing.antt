-- ===== src/Codificacion/Sharing.antt =====
-- The checker and any number of monitors over one shared memory: `comprobador` from its loop on and
-- `monitor` (P3/Codificacion/monitor.c), with `using`, which says who destroys the semaphores. A
-- protected part is one step here, since `gym_mutex` keeps the other processes out of it.
pub mod Counts
pub mod Phases
pub mod Reads
pub mod Invariant
pub mod End
mod Tests
use soper.Common.{
  ℕ, suc, ◌+◌, ◌%◌, ◌^◌, ◌≡◌, List, [], ◌∷◌, ◌++◌, Bool, true, false, ◌&&◌, ◌||◌, Option, none,
  some, get_elem?, set, replicate, ◌==◌, if◌then◌else◌, ℤ, pos, eqb_ℤ, to_int, ◌+ℤ◌, negsuc,
}
use soper.Buffer.{Ring, write, read}
use soper.Codificacion.{Block, Entry, check, stop, minus_one}

-- BUFFER_LENGTH, and the range in which the counters do not overflow
abbrev pub slots : ℕ
slots = 6

abbrev pub counter_range : ℕ
counter_range = 2 ^ 31

-- Where `comprobador` stands in its loop.
pub data Checker : Type 0 where
  receive : Checker  -- before `mq_receive`
  want_empty : Block → Checker  -- before `sem_wait(gym_empty)`
  want_mutex : Block → Checker  -- before `sem_wait(gym_mutex)`
  post_fill : Block → Checker  -- before `sem_post(gym_fill)`
  ended : Checker

-- Where a monitor stands.
pub data Monitor : Type 0 where
  outside : Monitor  -- before `using++`
  want_fill : Monitor  -- before `sem_wait(gym_fill)`
  want_mutex : Monitor  -- before `sem_wait(gym_mutex)` of the loop
  post_empty : Monitor  -- before `sem_post(gym_empty)`, to go on
  closing : Monitor  -- before `sem_post(gym_empty)`, having read the mark of the end
  finished : Monitor

-- The shared memory, less `gym_mutex`. `destroyed` is whether a process has destroyed the semaphores.
pub record Shared : Type 0 where
  pub ring : Ring Entry
  pub gym_empty : ℕ
  pub gym_fill : ℕ
  pub using : ℤ
  pub destroyed : Bool

-- `received`, `sent` and `got` are the messages received (the newest first), the entries written and
-- what has been read; the program keeps no such lists.
pub record State : Type 0 where
  pub shared : Shared
  pub checker : Checker
  pub monitors : List Monitor
  pub received : List Block
  pub sent : List Entry
  pub got : List (Option Entry)

-- A process that leaves: the last one destroys the semaphores, another one counts itself off.
unfoldable pub resign : Shared → Shared
resign m =
    if eqb_ℤ m.using (pos 1)
    then record m { destroyed = true }
    else record m { using = m.using +ℤ negsuc 0 }

-- When `mq_receive` fails, `using` is counted down in either case.
unfoldable pub abort : Shared → Shared
abort m = record m { destroyed = m.destroyed || eqb_ℤ m.using (pos 1); using = m.using +ℤ negsuc 0 }

unfoldable pub slot_flag : Option Entry → ℕ
slot_flag none = 0
slot_flag (some e) = e.flag

-- The entry that `comprobador` writes for a message; the mark of the end leaves the slot's flag.
unfoldable pub entry_for : Block → Ring Entry → Entry
entry_for b r =
    if b.end == 1 then stop (slot_flag (get_elem? r.blocks (r.writing % slots))) else check b

-- Behind the mark `writing` is counted up once more if other processes go on.
unfoldable pub skip_write : Shared → Shared
skip_write m =
    if eqb_ℤ m.using (pos 1)
    then m
    else record m { ring = record m.ring { writing = (m.ring.writing + 1) % counter_range } }

unfoldable pub skip_read : Shared → Shared
skip_read m =
    if eqb_ℤ m.using (pos 1)
    then m
    else record m { ring = record m.ring { reading = (m.ring.reading + 1) % counter_range } }

-- The protected part of `comprobador`.
unfoldable pub put : Block → Shared → Shared
put b m =
    let m' = record m { ring = write slots counter_range (entry_for b m.ring) m.ring } in
    if b.end == 1 then resign (skip_write m') else m'

-- The test of `monitor` for the mark of the end.
unfoldable pub is_stop : Option Entry → Bool
is_stop none = false
is_stop (some e) = eqb_ℤ (to_int e.target) minus_one && eqb_ℤ (to_int e.solution) minus_one

-- The protected part of `monitor`: what it reads, and the memory afterwards.
unfoldable pub get : Shared → Option Entry × Shared
get m =
    let (e, r) = read slots counter_range m.ring in
    let m' = record m { ring = r } in (e, if is_stop e then resign (skip_read m') else m')

-- Where the checker goes behind `sem_post(gym_fill)`, and a monitor behind its protected part.
unfoldable pub after_put : Block → Checker
after_put b = if b.end == 1 then ended else receive

unfoldable pub after_get : Option Entry → Monitor
after_get e = if is_stop e then closing else post_empty

-- The memory after `sem_init`, with `n` monitors yet to come.
abbrev pub opened : List Entry → ℕ → State
opened blocks n = record {
  shared = record {
    ring = record { blocks = blocks; reading = 0; writing = 0 };
    gym_empty = slots;
    gym_fill = 0;
    using = pos 0;
    destroyed = false;
  };
  checker = receive;
  monitors = replicate n outside;
  received = [];
  sent = [];
  got = [];
}

abbrev pub with_checker : Checker → Shared → State → State
with_checker c m s = record s { checker = c; shared = m }

abbrev pub with_monitor : ℕ → Monitor → Shared → State → State
with_monitor i p m s = record s { monitors = set s.monitors i p; shared = m }

-- One step of one process.
pub data Step (s : State) : State → Type 0 where
  take :
      (b : Block)
      → s.checker ≡ receive
      → Step s (record s { checker = want_empty b; received = b ∷ s.received })
  receive_failed : s.checker ≡ receive → Step s (with_checker ended (abort s.shared) s)
  wait_empty :
      (b : Block) (e : ℕ)
      → s.checker ≡ want_empty b
      → s.shared.gym_empty ≡ suc e
      → Step s (with_checker (Checker.want_mutex b) (record s.shared { gym_empty = e }) s)
  put_entry :
      (b : Block)
      → s.checker ≡ Checker.want_mutex b
      → Step s (record s {
        checker = post_fill b;
        shared = put b s.shared;
        sent = s.sent ++ (entry_for b s.shared.ring ∷ []);
      })
  post :
      (b : Block)
      → s.checker ≡ post_fill b
      → Step s (with_checker (after_put b) (record s.shared { gym_fill = s.shared.gym_fill + 1 }) s)
  attach :
      (i : ℕ)
      → get_elem? s.monitors i ≡ some outside
      → Step s (with_monitor i want_fill (record s.shared { using = s.shared.using +ℤ pos 1 }) s)
  wait_fill :
      (i e : ℕ)
      → get_elem? s.monitors i ≡ some want_fill
      → s.shared.gym_fill ≡ suc e
      → Step s (with_monitor i Monitor.want_mutex (record s.shared { gym_fill = e }) s)
  get_entry :
      (i : ℕ)
      → get_elem? s.monitors i ≡ some Monitor.want_mutex
      → Step s (record s {
        monitors = set s.monitors i (after_get (get s.shared).0);
        shared = (get s.shared).1;
        got = s.got ++ ((get s.shared).0 ∷ []);
      })
  go_on :
      (i : ℕ)
      → get_elem? s.monitors i ≡ some post_empty
      → Step s (with_monitor i want_fill (record s.shared { gym_empty = s.shared.gym_empty + 1 }) s)
  close :
      (i : ℕ)
      → get_elem? s.monitors i ≡ some closing
      → Step s (with_monitor i finished (record s.shared { gym_empty = s.shared.gym_empty + 1 }) s)

pub data Reach (s : State) : State → Type 0 where
  here : Reach s s
  next : {t u : State} → Reach s t → Step t u → Reach s u
