-- ===== src/Launch/Tests.antt =====
-- Signals and won rounds of one miner.
use soper.Common.{true, false, ◌≡◌, refl, List, [], ◌∷◌, some, none, negsuc, pos}
use soper.Launch.{
  Signal, sigint, sigusr2, Flags, Meets, offers, offer, send_queue, mq_send, mq_open_result,
}

abbrev no_flags : Flags
no_flags = record { sigusr1_received = false; sigusr2_received = false; shutdown = false }

abbrev voted_and_interrupted : List Signal
voted_and_interrupted = sigusr2 ∷ sigint ∷ sigusr2 ∷ []

abbrev sent_round : Meets
sent_round = record { monitor_up = 1; opening = some 4; ok = true }

abbrev lost_round : Meets
lost_round = record { monitor_up = 1; opening = some 5; ok = false }

abbrev down_round : Meets
down_round = record { monitor_up = 0; opening = none; ok = false }

-- A queue that could not be opened stays closed until a round is won while the monitor is down.
offers_runs :
    (offers (negsuc 0) (sent_round ∷ lost_round ∷ []) ≡ (negsuc 0, false ∷ false ∷ []))
    × (offers (negsuc 0) (down_round ∷ sent_round ∷ lost_round ∷ [])
        ≡ (pos 4, false ∷ true ∷ false ∷ []))
unfolding offers offer send_queue mq_send mq_open_result
offers_runs = (refl, refl)
