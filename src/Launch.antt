-- ===== src/Launch.antt =====
-- The signal handler and the message queue of a miner (Proyecto/launch/miner_launch.c). Whether a
-- call of the queue succeeds is an argument.
pub mod Queue
mod Tests
use soper.Common.{
  ℕ, Bool, true, false, ◌==◌, ◌&&◌, if◌then◌else◌, List, [], ◌∷◌, Option, none, some, ℤ, pos,
  negsuc, eqb_ℤ,
}

pub data Signal : Type 0 where
  sigint : Signal
  sigusr1 : Signal
  sigusr2 : Signal
  sigalrm : Signal

-- The flags that the handler sets.
pub record Flags : Type 0 where
  pub sigusr1_received : Bool
  pub sigusr2_received : Bool
  pub shutdown : Bool

unfoldable pub signal_handler : Flags → Signal → Flags
signal_handler f sigint = record f { shutdown = true }
signal_handler f sigusr1 = record f { sigusr1_received = true }
signal_handler f sigusr2 = record f { sigusr2_received = true }
signal_handler f sigalrm = record f { shutdown = true }

-- The signals that arrive, in order.
unfoldable pub receive : Flags → List Signal → Flags
receive f [] = f
receive f (s ∷ ss) = receive (signal_handler f s) ss

-- What `mq_open` returns: -1, or a descriptor.
unfoldable pub mq_open_result : Option ℕ → ℤ
mq_open_result none = negsuc 0
mq_open_result (some fd) = pos fd

-- `mq_send` fails on a descriptor that is not open, and if the call fails by itself.
unfoldable pub mq_send : ℤ → Bool → Bool
mq_send (pos fd) ok = ok
mq_send (negsuc e) ok = false

-- `send_queue`: the new `mq`, and whether the block was sent.
unfoldable pub send_queue : ℤ → Option ℕ → Bool → ℤ × Bool
send_queue mq opening ok =
    if eqb_ℤ mq (negsuc 1)
    then (if eqb_ℤ (mq_open_result opening) (negsuc 0)
        then (negsuc 0, false)
        else (mq_open_result opening, mq_send (mq_open_result opening) ok))
    else (mq, mq_send mq ok)

-- What one won round meets: `monitor_up`, and how the queue's calls end.
pub record Meets : Type 0 where
  pub monitor_up : ℕ
  pub opening : Option ℕ
  pub ok : Bool

-- The part of a won round that serves the monitor.
unfoldable pub offer : ℤ → Meets → ℤ × Bool
offer mq m = if m.monitor_up == 1 then send_queue mq m.opening m.ok else (negsuc 1, false)

-- The won rounds in order: `mq` after them, and which of the blocks were sent.
unfoldable pub offers : ℤ → List Meets → ℤ × List Bool
offers mq [] = (mq, [])
offers mq (m ∷ ms) =
    let (mq', sent) = offer mq m in let (last, rest) = offers mq' ms in (last, sent ∷ rest)
