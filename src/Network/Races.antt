-- ===== src/Network/Races.antt =====
-- Two miners that both find `sigusr2_received` at 0 both take the winner's branch. What the second
-- one does after the first has started the next round.
use soper.Common.{ℕ, ◌+◌, ◌≡◌, List, false, i16, arith}
use soper.Miners.{Miner}
use soper.Network.{System, keep_waiting, tally, new_round}

-- When the first winner has started the next round, before any miner joins it, the second winner
-- stops waiting at once, is made the winner of the new block and gets a coin; the block that it
-- records as the last one holds the solution 0 and no vote, and 0 is the target that follows.
pub tally-new_round :
    (raw raw' : List Miner) (first second : Miner) (s : System) (voting : ℕ)
    → let s1 = (new_round raw first s).0 in
      let (s2, second') = tally second s1 in
      let s3 = (new_round raw' second' s2).0 in
      (keep_waiting s1.current_block voting ≡ false)
      × (second'.coins ≡ i16 (second.coins + 1))
      × (s3.last_block.winner ≡ second.pid)
      × (s3.last_block.target ≡ s.current_block.solution)
      × (s3.last_block.solution ≡ 0)
      × (s3.last_block.total_votes ≡ 0)
      × (s3.current_block.target ≡ 0)
unfolding new_round tally
tally-new_round raw raw' first second s voting = ground arith
