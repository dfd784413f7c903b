-- ===== src/Network/Tests.antt =====
-- Runs of the protected sections, and the theorems of this part at concrete inputs.
use soper.Common.{ℕ, suc, ◌<◌, ◌≡◌, [], ◌∷◌, false, some, arith, refl, ◌==◌, if◌then◌else◌, pos}
use soper.Pow.{pow_limit, pow_hash}
use soper.Miners.Delete.{active}
use soper.Network.{Block, Wait, over, interrupted, wait_votes}
use soper.Network.Votes.{agreeing}
use soper.Network.Round.{IsFresh, run_round, run_round_lem}
use soper.Network.Samples.{ann, bob, blanks, fresh_block, two, fresh_block-IsFresh, Mined-0}
use soper.Network.Consensus.{honest_round}
use soper.Network.Polling.{Ends, wait_votes_lem}

run_round_lem_example :
    let (t, m') = run_round blanks (ann ∷ bob ∷ []) ann 0 (5 ∷ []) two in
    (active t.last_block.miners t.last_block.num_voters ≡ ann ∷ bob ∷ [])
    × (t.last_block.solution ≡ 0)
    × (t.last_block.target ≡ 4150)
    × (t.last_block.total_votes ≡ 2)
    × (t.last_block.favorable_votes ≡ suc (agreeing 0 (5 ∷ [])))
    × (t.last_block.winner ≡ (if agreeing 0 (5 ∷ []) == 1 then 11 else 0))
    × (m'.coins ≡ (if agreeing 0 (5 ∷ []) == 1 then 4 else 3))
    × (t.current_block.target ≡ 0)
    × (t.current_block.id ≡ 5)
    × IsFresh t.current_block
run_round_lem_example =
    run_round_lem blanks (ann ∷ bob ∷ []) ann 0 (5 ∷ []) two fresh_block-IsFresh refl (omega arith)
      (omega arith)

honest_round_example :
    let (t, m') = run_round blanks (ann ∷ bob ∷ []) ann 0 (0 ∷ []) two in
    (pow_hash (pos t.last_block.solution) ≡ pos t.last_block.target)
    × (t.last_block.favorable_votes ≡ t.last_block.total_votes)
    × (t.last_block.winner ≡ 11)
    × (m'.coins ≡ 4)
    × (t.current_block.target < pow_limit)
honest_round_example =
    honest_round blanks (ann ∷ bob ∷ []) ann 0 (0 ∷ []) two fresh_block-IsFresh refl (omega arith)
      (omega arith) (omega arith) Mined-0 (Mined-0, tt)

-- The votes are complete at the third test.
abbrev seen : ℕ → Block
seen k = record fresh_block { num_voters = 2; total_votes = if k == 2 then 2 else 1 }

wait_votes_runs :
    (wait_votes 6 seen (λ _. false) 0 ≡ some (over 2))
    × (wait_votes 6 seen (λ k. k == 1) 0 ≡ some (interrupted 1))
unfolding wait_votes
wait_votes_runs = (refl, refl)

wait_votes_lem_example :
    (w : Wait) × (wait_votes 6 seen (λ _. false) 0 ≡ some w) × Ends seen (λ _. false) 0 w
wait_votes_lem_example = wait_votes_lem seen (λ _. false)
