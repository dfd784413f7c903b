-- ===== src/Pow/Tests.antt =====
-- Runs of pow.c, and the theorems of this part at concrete inputs.
use soper.Common.{◌<◌, ◌≡◌, ◌↔◌, pos, negsuc, refl, arith}
use soper.Pow.{pow_limit, pow_hash}
use soper.Pow.Solve.{preimage, pow_hash_iff}

pow_hash_runs :
    (pow_hash (pos 0) ≡ pos 4150)
    × (pow_hash (pos 4150) ≡ pos 13370761)
    × (pow_hash (negsuc 0) ≡ negsuc 35684985)
unfolding pow_hash
pow_hash_runs = (refl, refl, refl)

pow_hash_iff_example :
    (preimage 4150 < pow_limit) × ((pow_hash (pos 0) ≡ pos 4150) ↔ (◌≡◌ 0 (preimage 4150)))
pow_hash_iff_example = pow_hash_iff 4150 0 (omega arith) (omega arith)
