-- ===== src/Launch/Queue.antt =====
-- What the flags and the queue of a miner hold after any signals and rounds.
use native.Mathlib.Omega.{arith}
use soper.Common.{
  ℕ, Bool, true, false, ◌||◌, ◌≡◌, List, [], ◌∷◌, map, All, ℤ, pos, negsuc, refl, some,
}
use soper.Launch.{
  Signal, sigint, sigusr1, sigusr2, sigalrm, Flags, signal_handler, receive, mq_open_result,
  mq_send, send_queue, Meets, offer, offers,
}

-- Whether a test holds of some signal that arrived.
abbrev pub among : (Signal → Bool) → List Signal → Bool
among test [] = false
among test (s ∷ ss) = test s || among test ss

abbrev pub ends : Signal → Bool
ends sigint = true
ends sigusr1 = false
ends sigusr2 = false
ends sigalrm = true

abbrev pub starts_round : Signal → Bool
starts_round sigint = false
starts_round sigusr1 = true
starts_round sigusr2 = false
starts_round sigalrm = false

abbrev pub starts_voting : Signal → Bool
starts_voting sigint = false
starts_voting sigusr1 = false
starts_voting sigusr2 = true
starts_voting sigalrm = false

-- After any signals, whatever their order, the miner shuts down exactly if it would before or if a
-- SIGINT or a SIGALRM was among them, and the other flags tell of SIGUSR1 and SIGUSR2 the same way.
pub receive_lem :
    (f : Flags) (ss : List Signal)
    → receive f ss ≡ record {
      sigusr1_received = f.sigusr1_received || among starts_round ss;
      sigusr2_received = f.sigusr2_received || among starts_voting ss;
      shutdown = f.shutdown || among ends ss;
    }
unfolding receive signal_handler
receive_lem f [] = ground arith
receive_lem f (sigint ∷ ss) = rw (receive_lem (signal_handler f sigint) ss) (ground arith)
receive_lem f (sigusr1 ∷ ss) = rw (receive_lem (signal_handler f sigusr1) ss) (ground arith)
receive_lem f (sigusr2 ∷ ss) = rw (receive_lem (signal_handler f sigusr2) ss) (ground arith)
receive_lem f (sigalrm ∷ ss) = rw (receive_lem (signal_handler f sigalrm) ss) (ground arith)

abbrev pub IsUp : Meets → Type 0
IsUp m = m.monitor_up ≡ 1

-- While the monitor is up, a queue that is open is kept, and each block is sent unless its own
-- `mq_send` fails.
pub offers-open :
    (fd : ℕ) (ms : List Meets) → All IsUp ms → offers (pos fd) ms ≡ (pos fd, map (λ m. m.ok) ms)
unfolding offers offer send_queue mq_send
offers-open fd [] h = refl
offers-open fd (m ∷ ms) (up, h) = rw (up, offers-open fd ms h)

-- A failed `mq_open` leaves -1, which is not -2: the queue is not opened again, and no block is sent
-- while the monitor stays up.
pub offers-stuck :
    (ms : List Meets) → All IsUp ms → offers (negsuc 0) ms ≡ (negsuc 0, map (λ m. false) ms)
unfolding offers offer send_queue mq_send
offers-stuck [] h = refl
offers-stuck (m ∷ ms) (up, h) = rw (up, offers-stuck ms h)

-- Only a round that is won while the monitor is down resets the queue: the next `mq_open` is then
-- made in the first round that finds the monitor up, and the blocks from there on are sent.
pub offers-again :
    (mq : ℤ) (down : Meets) (fd : ℕ) (m : Meets) (ms : List Meets)
    → down.monitor_up ≡ 0
    → m.opening ≡ some fd
    → All IsUp (m ∷ ms)
    → offers mq (down ∷ m ∷ ms) ≡ (pos fd, false ∷ map (λ m'. m'.ok) (m ∷ ms))
unfolding offers offer send_queue mq_send mq_open_result
offers-again mq down fd m ms off opened (up, h) = rw (off, up, opened, offers-open fd ms h)
