-- ===== src/Miners/Tests.antt =====
-- Runs of the array of miners, and the theorems of this part at concrete inputs.
use soper.Common.{zero, suc, ◌+◌, ◌≡◌, List, [], ◌∷◌, ◌++◌, arith, refl}
use soper.Miners.{Miner, blank, find_from, find_miner_index, shift_from, delete_miner}
use soper.Miners.Find.{IsAbsent}
use soper.Miners.Delete.{active, remove_first, delete_miner-present, delete_miner-absent}

abbrev ann : Miner
ann = record { pid = 11; coins = 3 }

abbrev bob : Miner
bob = record { pid = 12; coins = 0 }

abbrev cyd : Miner
cyd = record { pid = 13; coins = 5 }

abbrev table : List Miner
table = ann ∷ bob ∷ cyd ∷ blank ∷ []

delete_runs :
    (delete_miner table 3 12 ≡ (ann ∷ cyd ∷ cyd ∷ blank ∷ [], 2))
    × (delete_miner table 3 99 ≡ (table, 2))
    × (delete_miner table 0 99 ≡ (table, 255))
unfolding delete_miner find_miner_index find_from shift_from
delete_runs = (refl, refl, refl)

delete_miner-present_example :
    let (miners', n') = delete_miner table 3 12 in
    (active miners' n' ≡ remove_first 12 (active table 3)) × (n' + 1 ≡ 3)
delete_miner-present_example =
    delete_miner-present table 3 12 1 (omega arith) (omega arith) (omega arith) refl

table-IsAbsent : IsAbsent table 3 99
table-IsAbsent zero h = λ e. omega arith
table-IsAbsent (suc zero) h = λ e. omega arith
table-IsAbsent (suc (suc zero)) h = λ e. omega arith
table-IsAbsent (suc (suc (suc j))) h = absurd (omega arith)

delete_miner-absent_example :
    let (miners', n') = delete_miner table 3 99 in active miners' n' ++ (cyd ∷ []) ≡ active table 3
delete_miner-absent_example =
    delete_miner-absent table 2 99 (omega arith) (omega arith) table-IsAbsent
