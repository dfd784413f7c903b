-- ===== src/Monitor/Verdict.antt =====
-- What the monitor prints, beside what the register writes of the same block.
use soper.Common.{ℕ, ◌≡◌, ◌≢◌, ◌↔◌, List, [], ◌∷◌, map, true, false, ◌==◌, arith, refl, All}
use soper.Network.{Block}
use soper.Register.{register_report}
use soper.Monitor.{monitor_report, monitor_loop, receive_failed}

-- A block that was accepted by all its voters is printed as the register writes it, whatever was
-- printed before.
pub monitor-register :
    (old : ℕ) (b : Block)
    → b.favorable_votes ≡ b.total_votes
    → monitor_report old b ≡ (register_report b, b.total_votes)
unfolding monitor_report register_report
monitor-register old b e = ground arith

-- Blocks that were accepted by all their voters, in a row, are printed as the register writes them,
-- whatever was printed before.
pub monitor_loop-register :
    (old : ℕ) (bs : List Block)
    → All (λ b. b.favorable_votes ≡ b.total_votes) bs
    → monitor_loop old bs ≡ map register_report bs
unfolding monitor_loop
monitor_loop-register old [] h = refl
monitor_loop-register old (b ∷ bs) h =
    rw (monitor-register old b h.0, monitor_loop-register b.total_votes bs h.1)

-- A rejected block is printed as validated exactly when its favorable votes are as many as the
-- votes of the last block that was printed as accepted; the register writes it as rejected.
pub monitor_rejected :
    (old : ℕ) (b : Block)
    → b.favorable_votes ≢ b.total_votes
    → ((monitor_report old b).0.validated ≡ (b.favorable_votes == old))
      × ((monitor_report old b).0.out_of ≡ old)
      × ((register_report b).validated ≡ false)
unfolding monitor_report register_report
monitor_rejected old b ne = ground arith

-- A failed `mq_receive` ends the checker with success and without a message, whatever the error.
pub receive_failed_lem :
    (using errno : ℕ)
    → ((receive_failed using errno).exit_code ≡ 0)
      × ((receive_failed using errno).reports_error ≡ false)
      × (((receive_failed using errno).destroyed ≡ true) ↔ (using ≡ 1))
unfolding receive_failed
receive_failed_lem using errno = ground arith
