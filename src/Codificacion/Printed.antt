-- ===== src/Codificacion/Printed.antt =====
-- What the monitor prints of the blocks that the miner generates.
use soper.Common.{
  ℕ, zero, suc, ◌<◌, to_int, to_int_small, ◌≡◌, List, [], ◌∷◌, true, false, ◌==◌, pos, eqb_ℤ, arith,
  refl, ap, ◌↔◌, ==_self,
}
use soper.Pow.{pow_limit, pow_hash}
use soper.Pow.Solve.{preimage, preimage-lt, pow_hash-pos, hash-preimage}
use soper.Codificacion.{Block, Entry, generate, check, stop, comprobador, monitor, Line, accepted}
use soper.Codificacion.Work.{work_lem}

-- The accepted blocks of a chain of `k` rounds.
unfoldable pub chain : ℕ → ℕ → List Line
chain zero goal = []
chain (suc k) goal = accepted (pos goal) (pos (preimage goal)) ∷ chain k (preimage goal)

-- The flag of an entry tells exactly whether the target hashes to the solution.
pub check_iff : (b : Block) → ((check b).flag ≡ 1) ↔ (eqb_ℤ (pow_hash b.target) b.solution ≡ true)
unfolding check
check_iff b = (λ e. ground arith, λ e. ground arith)

pub printed_stop : (old : ℕ) → monitor (stop old ∷ []) ≡ ([], true)
unfolding monitor to_int
printed_stop old = refl

pub printed_one :
    (goal : ℕ) (es : List Entry)
    → goal < pow_limit
    → monitor (
        check (record { target = pos (preimage goal); solution = pos goal; flag = 0; end = 0 })
        ∷ es)
      ≡ (accepted (pos goal) (pos (preimage goal)) ∷ (monitor es).0, (monitor es).1)
unfolding monitor check
printed_one goal es h = rw (
  to_int_small (preimage goal) (omega (arith, preimage-lt goal)),
  to_int_small goal (omega arith),
  pow_hash-pos,
  hash-preimage goal h,
  ==_self,
)

-- The block that `work` fills in for a goal.
abbrev pub found : ℕ → Block
found goal = record { target = pos (preimage goal); solution = pos goal; flag = 0; end = 0 }

pub generate_last :
    (raw : Block) (goal : ℕ)
    → goal < pow_limit
    → generate raw 1 goal ≡ record (found goal) { end = 1 } ∷ []
unfolding generate
generate_last raw goal h = ap (λ (w : Block × ℕ). record w.0 { end = 1 } ∷ []) (work_lem raw goal h)

pub generate_more :
    (raw : Block) (k goal : ℕ)
    → goal < pow_limit
    → generate raw (suc (suc k)) goal ≡ found goal ∷ generate raw (suc k) (preimage goal)
unfolding generate
generate_more raw k goal h =
    rw more (ap (λ (w : Block × ℕ). w.0 ∷ generate raw (suc k) w.1) (work_lem raw goal h))
  where
    more : (suc k == 0) ≡ false
    more = ground arith

-- A miner of k + 1 rounds, its checker and one monitor, from any first goal below POW_LIMIT: the
-- monitor prints the first k blocks of the chain, in order and all accepted, and finishes. The last
-- block is not printed: it is replaced by the mark of the end.
pub monitor-generate :
    (raw : Block) (old k goal : ℕ)
    → goal < pow_limit
    → monitor (comprobador old (generate raw (suc k) goal)) ≡ (chain k goal, true)
unfolding comprobador chain
monitor-generate raw old zero goal h = rw (generate_last raw goal h) (printed_stop old)
monitor-generate raw old (suc k) goal h = rw (
  generate_more raw k goal h,
  printed_one goal (comprobador old (generate raw (suc k) (preimage goal))) h,
  monitor-generate raw old k (preimage goal) (preimage-lt goal),
)
