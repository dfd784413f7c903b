-- ===== src/Monitor/Service.antt =====
-- One run of the checker as the winners of the rounds see it: `monitor_up`, the message queue of
-- MAX_MSG blocks, and how `comprobador` ends (Proyecto/launch/monitor_launch.c, `send_queue` and the
-- end of a won round in Proyecto/launch/miner_launch.c).
mod Tests
use soper.Common.{
  ℕ, ◌≡◌, ◌≢◌, ◌≤◌, ◌<◌, ◌⊎◌, inl, inr, List, [], ◌∷◌, ◌++◌, length, length-append, arith, refl, ap,
  sym, ◌∙◌,
}
use soper.Network.{Block}

-- MAX_MSG
abbrev pub max_msg : ℕ
max_msg = 9

-- Where `comprobador` stands, from `mq_open` on.
pub data Checker : Type 0 where
  waiting : Checker  -- the memory of the miners does not exist yet
  receiving : Checker  -- in its loop
  failed : Checker  -- `mq_receive` has failed, and it has left by `exit`
  closed : Checker  -- it has returned

-- `queue` is the queue that the winners hold; it lives as long as one of them does. `received` are the
-- blocks that the checker has taken from it and `lost` those whose `mq_send` was interrupted; the
-- program keeps no such lists.
pub record Service : Type 0 where
  pub checker : Checker
  pub monitor_up : ℕ
  pub queue : List Block
  pub received : List Block
  pub lost : List Block

abbrev pub opened : Service
opened = record { checker = waiting; monitor_up = 0; queue = []; received = []; lost = [] }

-- A step of the checker, or the part of a won round that serves the monitor. `mq_send` waits while
-- the queue is full; a signal to the winner ends it, since the handlers are installed without
-- SA_RESTART, and the block is lost.
pub data Step (s : Service) : Service → Type 0 where
  find_system : s.checker ≡ waiting → Step s (record s { checker = receiving; monitor_up = 1 })
  interrupt : s.checker ≡ waiting → Step s (record s { checker = closed })
  receive :
      (b : Block) (q : List Block)
      → s.checker ≡ receiving
      → s.queue ≡ b ∷ q
      → Step s (record s { queue = q; received = s.received ++ (b ∷ []) })
  receive_failed : s.checker ≡ receiving → Step s (record s { checker = failed })
  stop : s.checker ≡ receiving → Step s (record s { checker = closed; monitor_up = 0 })
  send :
      (b : Block)
      → s.monitor_up ≡ 1
      → length s.queue < max_msg
      → Step s (record s { queue = s.queue ++ (b ∷ []) })
  send_interrupted :
      (b : Block)
      → s.monitor_up ≡ 1
      → length s.queue ≡ max_msg
      → Step s (record s { lost = s.lost ++ (b ∷ []) })
  skip : s.monitor_up ≢ 1 → Step s s

pub data Reach (s : Service) : Service → Type 0 where
  here : Reach s s
  next : {t u : Service} → Reach s t → Step t u → Reach s u

-- What `monitor_up` is while the checker stands somewhere: it stays 1 after a failure.
abbrev pub up_at : Checker → ℕ
up_at waiting = 0
up_at receiving = 1
up_at failed = 1
up_at closed = 0

pub record Inv (s : Service) : Type 0 where
  pub up : s.monitor_up ≡ up_at s.checker
  pub fits : length s.queue ≤ max_msg

Step-Inv : {s t : Service} → Step s t → Inv s → Inv t
Step-Inv (find_system e) v = record { up = refl; fits = v.fits }
Step-Inv (interrupt e) v = record { up = v.up ∙ ap up_at e; fits = v.fits }
Step-Inv (receive b q e h) v = record { up = v.up; fits = omega (arith, ap length h, v.fits) }
Step-Inv (receive_failed e) v = record { up = v.up ∙ ap up_at e; fits = v.fits }
Step-Inv (stop e) v = record { up = refl; fits = v.fits }
Step-Inv {s} (send b e h) v = record {
  up = v.up;
  fits = omega (arith, length-append s.queue (b ∷ []));
}
Step-Inv (send_interrupted b e h) v = record { up = v.up; fits = v.fits }
Step-Inv (skip h) v = v

-- Wherever the checker stands: `monitor_up` is 1 exactly while it receives or after it has failed,
-- and the queue holds at most MAX_MSG blocks.
pub Reach-Inv : {s : Service} → Reach opened s → Inv s
Reach-Inv here = record { up = refl; fits = omega arith }
Reach-Inv (next r st) = Step-Inv st (Reach-Inv r)

-- What the winners can still do when nobody reads the full queue: lose blocks.
record Dead (s t : Service) : Type 0 where
  checker : t.checker ≡ s.checker
  monitor_up : t.monitor_up ≡ s.monitor_up
  queue : t.queue ≡ s.queue
  received : t.received ≡ s.received
