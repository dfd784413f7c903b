-- ===== src/Network/Consensus.antt =====
-- Miners whose threads have all returned agree, whatever their numbers of threads.
use soper.Common.{
  ℕ, suc, ◌+◌, ◌<◌, ◌≤◌, ◌≡◌, List, [], ◌∷◌, length, All, ◌==◌, if◌then◌else◌, i16, arith, ap, pos,
  ◌∙◌, sym, refl,
}
use soper.Pow.{pow_limit, pow_hash}
use soper.Pow.Solve.{preimage, preimage-lt, pow_hash-pos, hash-preimage}
use soper.Mining.{Crew, Reach, done}
use soper.Mining.Slices.{covered}
use soper.Mining.Outcome.{mined, Reach-mined}
use soper.Miners.{Miner, max_miners}
use soper.Network.{System}
use soper.Network.Votes.{agreeing}
use soper.Network.Round.{IsFresh, run_round, run_round_lem}

-- `x` is the `_solution` of a process that mined `target` to the end, its slices reaching the one
-- candidate that solves it.
pub record Mined (target x : ℕ) : Type 0 where
  pub nthreads : ℕ
  pub old : ℕ
  pub crew : Crew
  pub reach : Reach nthreads target old crew
  pub back : (j : ℕ) → j < nthreads → crew.pc j ≡ done
  pub reached : preimage target < covered nthreads
  pub result : x ≡ crew.shared.solution

Mined-preimage : {t x : ℕ} → t < pow_limit → Mined t x → x ≡ preimage t
unfolding mined
Mined-preimage {t} h m = ground (arith, m.result, m.reached, Reach-mined h m.reach m.back)

agreeing-All :
    {t : ℕ} (x : ℕ) (ys : List ℕ)
    → t < pow_limit
    → Mined t x
    → All (Mined t) ys
    → agreeing x ys ≡ length ys
unfolding agreeing
agreeing-All x [] h m ms = refl
agreeing-All x (y ∷ ys) h m ms =
    ground (arith, Mined-preimage h m, Mined-preimage h ms.0, agreeing-All x ys h m ms.1)

passes : {a b : ℕ} → a ≡ b → (y n : ℕ) → (if a == b then y else n) ≡ y
passes {a} {b} e y n = ground arith

-- A round in which the publisher and all who vote have mined the block's target to the end, with
-- any numbers of threads that reach its solution: the solution recorded hashes to the target, every
-- vote is favorable, and the publisher wins and gets a coin.
pub honest_round :
    (raw ms : List Miner) (m : Miner) (x : ℕ) (xs : List ℕ) (s : System)
    → IsFresh s.current_block
    → length raw ≡ max_miners
    → length ms ≤ max_miners
    → length xs < length ms
    → s.current_block.target < pow_limit
    → Mined s.current_block.target x
    → All (Mined s.current_block.target) xs
    → let (t, m') = run_round raw ms m x xs s in
      (pow_hash (pos t.last_block.solution) ≡ pos t.last_block.target)
      × (t.last_block.favorable_votes ≡ t.last_block.total_votes)
      × (t.last_block.winner ≡ m.pid)
      × (m'.coins ≡ i16 (m.coins + 1))
      × (t.current_block.target < pow_limit)
honest_round raw ms m x xs s fresh full few fewer small own others =
    let r = run_round_lem raw ms m x xs s fresh full few fewer in
    let found = Mined-preimage small own in
    let all = agreeing-All x xs small own others in
    (
      rw (r.1, r.2, found, pow_hash-pos, hash-preimage s.current_block.target small),
      r.4 ∙ ap suc all ∙ sym r.3,
      r.5 ∙ passes all m.pid 0,
      r.6 ∙ passes all (i16 (m.coins + 1)) m.coins,
      rw (r.7, found) (preimage-lt s.current_block.target),
    )
