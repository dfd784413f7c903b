-- ===== src/Pipeline.antt =====
-- From the rounds of the miners to the printed reports: what the winners of Proyecto/launch/
-- miner_launch.c write to their pipes and to the message queue, round after round, which
-- Proyecto/launch/monitor_launch.c passes on. The queue is taken to deliver messages of one priority
-- in the order in which they are sent.
pub mod Honest
pub mod Links
pub mod Histories
mod Tests
use soper.Common.{ℕ, List, [], ◌∷◌}
use soper.Miners.{Miner}
use soper.Network.{Block, System, publish, tally}
use soper.Network.Votes.{join_all, vote_all}
use soper.Network.Round.{run_round}

-- One round: what the new block's array holds before it is filled, the voters, the winner with its
-- solution, and the solutions that the others vote by.
pub record Round : Type 0 where
  pub raw : List Miner
  pub voters : List Miner
  pub winner : Miner
  pub solution : ℕ
  pub votes : List ℕ

-- `current_block` when the winner writes it to its pipe and sends it to the monitor.
unfoldable pub sent_block : Round → System → Block
sent_block r s =
    (tally r.winner
      (vote_all r.votes (publish r.winner r.solution (join_all r.voters s)).0)).0.current_block

abbrev pub after_round : Round → System → System
after_round r s = (run_round r.raw r.voters r.winner r.solution r.votes s).0

-- The blocks that are sent over the rounds, in order.
unfoldable pub sent_blocks : List Round → System → List Block
sent_blocks [] s = []
sent_blocks (r ∷ rs) s = sent_block r s ∷ sent_blocks rs (after_round r s)
