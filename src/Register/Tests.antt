-- ===== src/Register/Tests.antt =====
-- The theorems of this part at concrete inputs.
use soper.Common.{◌≡◌, [], ◌∷◌, replicate, true, refl}
use soper.Miners.{Miner, blank}
use soper.Network.{Block, raw_block}
use soper.Register.{block, closed, failed, register_report, success, register_loop}

abbrev ann : Miner
ann = record { pid = 11; coins = 3 }

abbrev old : Block
old = raw_block (replicate 100 blank)

abbrev mined_block : Block
mined_block = record (raw_block (ann ∷ [])) {
  id = 4;
  target = 4150;
  num_voters = 1;
  total_votes = 1;
  favorable_votes = 1;
}

register_report_runs :
    ((register_report mined_block).validated ≡ true)
    × ((register_report mined_block).wallets ≡ ann ∷ [])
unfolding register_report
register_report_runs = (refl, refl)

-- A read that fails reports the block before again.
failed_runs :
    register_loop old (failed ∷ block mined_block ∷ closed ∷ [])
    ≡ (register_report old ∷ register_report mined_block ∷ [], success)
unfolding register_loop
failed_runs = refl
