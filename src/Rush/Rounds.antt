-- ===== src/Rush/Rounds.antt =====
-- What the monitor accepts over the rounds, and how the miner ends.
use soper.Common.{
  ℕ, zero, suc, ◌<◌, ◌≤◌, ◌≡◌, List, [], ◌∷◌, true, false, arith, refl, replicate, ◌∙◌, ==_self,
}
use soper.Pow.{pow_limit, pow_hash}
use soper.Pow.Solve.{preimage, preimage-lt, eqb-pow_hash}
use soper.Mining.Slices.{covered}
use soper.Rush.{PipeData, Globals, answer, success, invalidated, rounds_from, miner}
use soper.Rush.Search.{threads-hit, threads-miss}

-- Each round solves the target that the solution of the round before is.
abbrev pub chain : ℕ → ℕ → List PipeData
chain zero t = []
chain (suc k) t = record { target = t; solution = preimage t } ∷ chain k (preimage t)

-- Each solution of the chain stands in a slice.
abbrev pub Covered : ℕ → ℕ → ℕ → Type 0
Covered n zero t = Unit
Covered n (suc k) t = (preimage t < covered n) × Covered n k (preimage t)

answer-hit : (t : ℕ) → t < pow_limit → answer (record { target = t; solution = preimage t }) ≡ true
unfolding answer
answer-hit t h = eqb-pow_hash (preimage t) t (preimage-lt t) h ∙ ==_self (preimage t)

rounds_from-chain :
    (n k t : ℕ) (g : Globals)
    → t < pow_limit
    → g.magic_flag ≡ false
    → Covered n k t
    → rounds_from n k t g ≡ (chain k t, success)
unfolding rounds_from
rounds_from-chain n zero t g h down c = refl
rounds_from-chain n (suc k) t g h down c =
    rw (threads-hit n t n g h (omega arith) down c.0, answer-hit t h)
      (rw (
        rounds_from-chain n k (preimage t)
          (record { pipe_data = record { target = t; solution = preimage t }; magic_flag = false })
          (preimage-lt t) refl c.1))

-- A run of the miner and the monitor on a target below POW_LIMIT: if each solution of the chain
-- that starts at the target stands in a slice of the threads, the monitor accepts exactly that
-- chain, one block for each round, and the miner ends with success.
pub miner-chain :
    (rounds nthreads target : ℕ)
    → target < pow_limit
    → Covered nthreads rounds target
    → miner rounds nthreads target ≡ (chain rounds target, success)
unfolding miner
miner-chain rounds n t h c = rounds_from-chain n rounds t _ h refl c

answer-zeros : answer (record { target = 0; solution = 0 }) ≡ false
unfolding answer pow_hash
answer-zeros = refl

-- If no slice holds the solution of the first target, the miner sends the pair of zeros, which the
-- monitor rejects, and ends with failure.
pub miner_invalidated :
    (rounds nthreads target : ℕ)
    → target < pow_limit
    → covered nthreads ≤ preimage target
    → miner (suc rounds) nthreads target ≡ ([], invalidated)
unfolding miner rounds_from
miner_invalidated rounds n t h out = rw (
  threads-miss n t n
      (record { pipe_data = record { target = 0; solution = 0 }; magic_flag = false }) h
      (omega arith) refl out,
  answer-zeros,
)

-- If no slice holds the solution of the target of a later round, this goes unnoticed: the pair of the
-- round before, which was accepted, is sent again and accepted again, in this round and in all that
-- follow.
pub rounds_from-stale :
    (n k : ℕ) (g : Globals)
    → g.magic_flag ≡ false
    → answer g.pipe_data ≡ true
    → g.pipe_data.solution < pow_limit
    → covered n ≤ preimage g.pipe_data.solution
    → rounds_from n k g.pipe_data.solution g ≡ (replicate k g.pipe_data, success)
unfolding rounds_from
rounds_from-stale n zero g down ok h out = refl
rounds_from-stale n (suc k) g down ok h out =
    rw (threads-miss n g.pipe_data.solution n g h (omega arith) down out, ok)
      (rw (rounds_from-stale n k (record g { magic_flag = false }) refl ok h out))
