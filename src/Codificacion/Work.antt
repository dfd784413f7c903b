-- ===== src/Codificacion/Work.antt =====
-- What the miner finds.
use soper.Common.{ℕ, zero, suc, ◌+◌, ◌<◌, ◌≤◌, ◌≡◌, some, pos, arith, ap, ℕ_discrete, ==_iff}
use soper.Pow.{pow_limit}
use soper.Pow.Solve.{preimage, preimage-lt, eqb-pow_hash, pow_hash-pos, hash-preimage}
use soper.Codificacion.{Block, search_from, work}

search_from_lem :
    (k i t : ℕ)
    → t < pow_limit
    → i + k ≡ pow_limit
    → i ≤ preimage t
    → search_from k i t ≡ some (preimage t)
unfolding search_from
search_from_lem zero i t ht e lo = absurd (omega (arith, preimage-lt t))
search_from_lem (suc k) i t ht e lo = elim (ℕ_discrete i (preimage t)) [
  | yes same ↦
      simp (eqb-pow_hash i t (omega arith) ht, (==_iff i (preimage t)).1 same) (ap some same)
  | no ne ↦ rw (eqb-pow_hash i t (omega arith) ht) (ground (arith, search_from_lem k (i + 1) t ht))
]

-- For every goal below POW_LIMIT `work` fills in the block: the candidate whose hash is the goal as
-- `target`, the goal as `solution`, and makes that candidate the next goal.
pub work_lem :
    (raw : Block) (goal : ℕ)
    → goal < pow_limit
    → work raw goal ≡ (
      record { target = pos (preimage goal); solution = pos goal; flag = 0; end = 0 },
      preimage goal,
    )
unfolding work
work_lem raw goal h = rw (
  search_from_lem pow_limit 0 goal h (omega arith) (omega arith),
  pow_hash-pos,
  hash-preimage goal h,
)
