-- ===== src/Network/Signals.antt =====
-- Whom the loops around `kill` signal.
use soper.Common.{
  ℕ, zero, suc, ◌+◌, ◌<◌, ◌≤◌, ◌≡◌, List, [], ◌∷◌, take, drop, length, ◌==◌, refl, u8,
  if◌then◌else◌, arith, drop-cons,
}
use soper.Miners.{Miner, blank}
use soper.Miners.Delete.{active}
use soper.Network.{System, kill_from, publish, new_round, start_first_round}

-- The pids of the others, in the order of the list.
unfoldable pub others : ℕ → List Miner → List ℕ
others pid [] = []
others pid (m ∷ ms) = let rest = others pid ms in if m.pid == pid then rest else m.pid ∷ rest

kill_from_lem :
    (miners : List Miner) (pid k i : ℕ)
    → i + k ≤ length miners
    → i + k < 256
    → kill_from miners pid k i ≡ others pid (take k (drop i miners))
unfolding kill_from others
kill_from_lem miners pid zero i h b = refl
kill_from_lem miners pid (suc k) i h b =
    rw
      (
        wrap,
        drop-cons i miners blank (omega arith),
        kill_from_lem miners pid k (suc i) (omega arith) (omega arith),
      )
      (ground arith)
  where
    wrap : u8 (i + 1) ≡ suc i
    wrap = omega arith

pub kill_all :
    (miners : List Miner) (pid n : ℕ)
    → n ≤ length miners
    → n < 256
    → kill_from miners pid n 0 ≡ others pid (active miners n)
kill_all miners pid n h b = kill_from_lem miners pid n 0 (omega arith) (omega arith)

-- Publishing signals exactly the voters of the block other than the winner, and a new round (as
-- the first) exactly the miners of the system other than the one that starts it, each list in
-- order; the counts are at most the length of the array.
pub signals_lem :
    (raw : List Miner) (m : Miner) (x : ℕ) (s : System)
    → s.num_miners ≤ length s.miners
    → s.current_block.num_voters ≤ length s.current_block.miners
    → s.num_miners < 256
    → s.current_block.num_voters < 256
    → ((publish m x s).1 ≡ others m.pid (active s.current_block.miners s.current_block.num_voters))
      × ((new_round raw m s).1 ≡ others m.pid (active s.miners s.num_miners))
      × ((start_first_round raw m s).1 ≡ others m.pid (active s.miners s.num_miners))
unfolding publish new_round start_first_round
signals_lem raw m x s h hb n nb = (
  kill_all s.current_block.miners m.pid s.current_block.num_voters hb nb,
  kill_all s.miners m.pid s.num_miners h n,
  kill_all s.miners m.pid s.num_miners h n,
)
