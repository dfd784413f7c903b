-- ===== src/Network/Processes/Late.antt =====
-- A vote of Proyecto/launch/miner_launch.c that comes after its round is over.
use soper.Common.{ℕ, ◌≡◌, ◌≢◌, ◌≤◌, List, false, refl, sym, ◌∙◌, ap, ap₂, arith}
use soper.Miners.{Miner}
use soper.Network.{System, vote, tally, new_round, init_block, keep_waiting}
use soper.Network.Processes.{
  waiting, writing, renewing, voting, Process, World, update, signal_round, Reach, here, next,
  count, renew, cast_vote,
}
use soper.Network.Processes.Moves.{update_self, update_other}
use soper.Network.Processes.Waits.{Alone-phase, Reach-trans, waits_out, sends_on}

still_voting :
    (f : ℕ → Process) (i j : ℕ) (x : Process) (pids : List ℕ)
    → i ≢ j
    → (f j).phase ≡ voting
    → update (signal_round pids f) i x j ≡ f j
still_voting f i j x pids ne e = ground (arith, ne, e)

-- The vote on the block that the new round has just made.
vote-new_round :
    (raw : List Miner) (m : Miner) (own : ℕ) (s : System)
    → own ≢ 0
    → let t = vote own (new_round raw m s).0 in
      (t.last_block ≡ s.current_block)
      × (t.current_block.num_voters ≡ 0)
      × (t.current_block.total_votes ≡ 1)
      × (t.current_block.favorable_votes ≡ 0)
unfolding vote new_round init_block
vote-new_round raw m own s ne = ground (arith, ne)

renews :
    (w : World) (i j : ℕ) (raw : List Miner)
    → i ≢ j
    → (w.process i).phase ≡ renewing
    → (w.process j).phase ≡ voting
    → (v : World) × Reach w v
      × (v.system ≡ (new_round raw (w.process i).this_miner w.system).0)
      × (v.process j ≡ w.process j)
renews w i j raw ne ai aj =
    (_, next here (renew i raw ai), refl, still_voting w.process i j _ _ ne aj)

tallies :
    (w : World) (i j k : ℕ)
    → i ≢ j
    → (w.process i).phase ≡ waiting k
    → keep_waiting w.system.current_block k ≡ false
    → (v : World) × Reach w v
      × ((v.process i).phase ≡ writing)
      × (v.system ≡ (tally (w.process i).this_miner w.system).0)
      × (v.process j ≡ w.process j)
tallies w i j k ne ai stop = (
  _,
  next here (count i k ai stop),
  ap (λ y. y.phase) (update_self w.process i _),
  refl,
  update_other w.process i j _ ne,
)

-- Without the vote of `j` the winner ends its round.
ends_round :
    (w : World) (i j k : ℕ) (raw : List Miner)
    → i ≢ j
    → (w.process i).phase ≡ waiting k
    → k ≤ 5
    → (w.process j).phase ≡ voting
    → (v : World) × (m : Miner) × Reach w v
      × (v.system ≡ (new_round raw m (tally (w.process i).this_miner w.system).0).0)
      × (v.process j ≡ w.process j)
ends_round w i j k raw ne ai le aj =
    let (w1, l, a1, stop) = waits_out w i k ai le in
    let (w2, r2, p2, s2, e2) = tallies w1 i j l ne (Alone-phase a1) stop in
    let (w3, a3) = sends_on w2 i p2 in
    let same = a3.others j ne ∙ e2 ∙ a1.others j ne in
    let (w4, r4, s4, e4) = renews w3 i j raw ne (Alone-phase a3) (ap (λ y. y.phase) same ∙ aj) in
    (
      w4,
      (w3.process i).this_miner,
      Reach-trans (Reach-trans a1.reach r2) (Reach-trans a3.reach r4),
      s4
          ∙ ap (λ s. (new_round raw (w3.process i).this_miner s).0)
              (a3.system ∙ s2 ∙ ap₂ (λ y s. (tally y.this_miner s).0) a1.own a1.system),
      e4 ∙ same,
    )

-- The winner does not wait for ever: from every world in which it waits, after at most five naps, and
-- another miner has yet to vote, for a solution other than 0, a world can be reached in which the
-- loop of the winner has ended by its own test, the round is over without that vote, and the vote is
-- counted, as unfavorable, in the next block, which nobody has joined.
pub late_vote :
    (w : World) (i j k : ℕ) (raw : List Miner)
    → i ≢ j
    → (w.process i).phase ≡ waiting k
    → k ≤ 5
    → (w.process j).phase ≡ voting
    → (w.process j).solution ≢ 0
    → (v : World) × Reach w v
      × (v.system.last_block ≡ (tally (w.process i).this_miner w.system).0.current_block)
      × (v.system.current_block.num_voters ≡ 0)
      × (v.system.current_block.total_votes ≡ 1)
      × (v.system.current_block.favorable_votes ≡ 0)
late_vote w i j k raw ne ai le aj own =
    let (w1, m, r1, s1, e1) = ends_round w i j k raw ne ai le aj in
    let facts =
      vote-new_round raw m (w1.process j).solution (tally (w.process i).this_miner w.system).0
        (λ e. own (sym (ap (λ y. y.solution) e1) ∙ e)) in
    let moved = ap (vote (w1.process j).solution) s1 in
    (
      _,
      next r1 (cast_vote j (ap (λ y. y.phase) e1 ∙ aj)),
      ap (λ s. s.last_block) moved ∙ facts.0,
      ap (λ s. s.current_block.num_voters) moved ∙ facts.1,
      ap (λ s. s.current_block.total_votes) moved ∙ facts.2,
      ap (λ s. s.current_block.favorable_votes) moved ∙ facts.3,
    )
