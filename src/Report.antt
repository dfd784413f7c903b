-- ===== src/Report.antt =====
-- What the register and the monitor print of a block: the fields, the vote and the wallets
-- (`_register` of Proyecto/srclib/miner.c, `monitor` of Proyecto/launch/monitor_launch.c).
-- A report is the values printed, in order; the fixed text between them is left out.
use soper.Common.{
  ℕ, zero, suc, ◌+◌, ◌≤◌, ◌<◌, ◌≡◌, refl, List, [], ◌∷◌, Bool, get_or, take, drop, length, u8,
  arith, drop-cons,
}
use soper.Miners.{Miner, blank}

pub record Report : Type 0 where
  pub id : ℕ
  pub winner : ℕ
  pub target : ℕ
  pub solution : ℕ
  pub votes : ℕ
  pub out_of : ℕ
  pub validated : Bool
  pub wallets : List Miner

-- The loop over the wallets, with `k` rounds left.
unfoldable pub wallets_from : List Miner → ℕ → ℕ → List Miner
wallets_from miners zero i = []
wallets_from miners (suc k) i = get_or miners i blank ∷ wallets_from miners k (u8 (i + 1))

wallets_from_lem :
    (miners : List Miner) (k i : ℕ)
    → i + k ≤ length miners
    → i + k < 256
    → wallets_from miners k i ≡ take k (drop i miners)
unfolding wallets_from
wallets_from_lem miners zero i h b = refl
wallets_from_lem miners (suc k) i h b = rw (
  wrap,
  drop-cons i miners blank (omega arith),
  wallets_from_lem miners k (suc i) (omega arith) (omega arith),
)
  where
    wrap : u8 (i + 1) ≡ suc i
    wrap = omega arith

pub wallets-take :
    (miners : List Miner) (n : ℕ)
    → n ≤ length miners
    → n < 256
    → wallets_from miners n 0 ≡ take n miners
wallets-take miners n h b = wallets_from_lem miners n 0 (omega arith) (omega arith)
