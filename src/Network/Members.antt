-- ===== src/Network/Members.antt =====
-- Miners that register and leave.
use soper.Common.{
  ℕ, suc, ◌+◌, ◌<◌, ◌≤◌, ◌≡◌, ◌↔◌, [], ◌∷◌, ◌++◌, true, length, arith, refl, take-set, length-set,
}
use soper.Miners.{Miner, max_miners}
use soper.Miners.Find.{pid_at}
use soper.Miners.Delete.{active, remove_first, delete_miner-present}
use soper.Network.{System, register_miner, leave}

-- Below MAX_MINERS a miner that registers is added behind the others, and nothing else changes.
pub register_miner_lem :
    (m : Miner) (s : System)
    → length s.miners ≡ max_miners
    → s.num_miners < max_miners
    → let t = register_miner m s in
      (active t.miners t.num_miners ≡ active s.miners s.num_miners ++ (m ∷ []))
      × (t.num_miners ≡ suc s.num_miners)
      × (length t.miners ≡ max_miners)
      × (t.current_block ≡ s.current_block)
unfolding register_miner
register_miner_lem m s full h = (
  rw counted (take-set s.num_miners s.miners m (omega arith)),
  counted,
  omega (arith, length-set s.miners s.num_miners m),
  refl,
)
  where
    counted : (register_miner m s).num_miners ≡ suc s.num_miners
    counted = ground arith

-- A miner that leaves is taken off the list, of which the others keep their order; it is told to
-- destroy the shared memory exactly if it was the only one left. The miner is among the first
-- `num_miners`, at most MAX_MINERS.
pub leave_lem :
    (m : Miner) (s : System) (i : ℕ)
    → length s.miners ≡ max_miners
    → s.num_miners ≤ max_miners
    → i < s.num_miners
    → pid_at s.miners i ≡ m.pid
    → let (t, last) = leave m s in
      (active t.miners t.num_miners ≡ remove_first m.pid (active s.miners s.num_miners))
      × (t.num_miners + 1 ≡ s.num_miners)
      × ((last ≡ true) ↔ (t.num_miners ≡ 0))
unfolding leave
leave_lem m s i full few lt e =
    let d = delete_miner-present s.miners s.num_miners m.pid i (omega arith) (omega arith) lt e in
    (d.0, d.1, (λ h. ground (arith, d.1), λ h. ground (arith, d.1)))
