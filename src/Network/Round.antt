-- ===== src/Network/Round.antt =====
-- One round as a whole: the miners join, one publishes, the others vote, the winner counts and
-- starts the next round.
use soper.Common.{
  ℕ, suc, ◌+◌, ◌<◌, ◌≤◌, ◌≡◌, List, length, ◌==◌, ap, i16, if◌then◌else◌, arith, ◌∙◌, Bool-cases,
  inl, inr,
}
use soper.Miners.{Miner, max_miners}
use soper.Miners.Delete.{active}
use soper.Network.{Block, System, publish, tally, new_round}
use soper.Network.Votes.{
  join_all, vote_all, agreeing, Joined, Voted, join_all-Joined, vote_all-Voted,
}

-- A complete round: all of `ms` join, `m` publishes `x`, the others vote, `m` counts and starts the
-- next round. The result is the system and `m`.
unfoldable pub run_round : List Miner → List Miner → Miner → ℕ → List ℕ → System → System × Miner
run_round raw ms m x xs s =
    let (t, m') = tally m (vote_all xs (publish m x (join_all ms s)).0) in
    ((new_round raw m' t).0, m')

-- The block that `init_block` leaves, its array of full length.
pub record IsFresh (b : Block) : Type 0 where
  pub voters : b.num_voters ≡ 0
  pub total : b.total_votes ≡ 0
  pub winner : b.winner ≡ 0
  pub favorable : b.favorable_votes ≡ 0
  pub room : length b.miners ≡ max_miners

-- What `publish` makes of a block without votes.
record Published (x : ℕ) (b b' : Block) : Type 0 where
  voters : b'.num_voters ≡ b.num_voters
  miners : b'.miners ≡ b.miners
  solution : b'.solution ≡ x
  total : b'.total_votes ≡ b.total_votes + 1
  favorable : b'.favorable_votes ≡ b.favorable_votes + 1
  id : b'.id ≡ b.id
  target : b'.target ≡ b.target
  winner : b'.winner ≡ b.winner

publish-Published :
    (m : Miner) (x : ℕ) (s : System)
    → s.current_block.total_votes < 255
    → s.current_block.favorable_votes < 255
    → Published x s.current_block (publish m x s).0.current_block
unfolding publish
publish-Published m x s h f = ground arith

-- The block of a round when all have voted.
record Decided (ms : List Miner) (x : ℕ) (xs : List ℕ) (b b' : Block) : Type 0 where
  voters : b'.num_voters ≡ length ms
  names : active b'.miners b'.num_voters ≡ ms
  solution : b'.solution ≡ x
  total : b'.total_votes ≡ suc (length xs)
  favorable : b'.favorable_votes ≡ suc (agreeing x xs)
  id : b'.id ≡ b.id
  target : b'.target ≡ b.target
  winner : b'.winner ≡ 0

votes-Decided :
    (ms : List Miner) (m : Miner) (x : ℕ) (xs : List ℕ) (s : System)
    → IsFresh s.current_block
    → length ms ≤ max_miners
    → length xs < length ms
    → Decided ms x xs s.current_block (vote_all xs (publish m x (join_all ms s)).0).current_block
votes-Decided ms m x xs s fresh few fewer = record {
  voters = v.voters ∙ p.voters ∙ grow;
  names = rw (v.voters, v.miners, p.voters, p.miners) (j.names ∙ rw fresh.voters);
  solution = v.solution ∙ p.solution;
  total = omega (arith, v.total, p.total, j.total, fresh.total);
  favorable = omega (
    arith,
    v.favorable,
    p.favorable,
    j.favorable,
    fresh.favorable,
    ap (λ y. agreeing y xs) p.solution,
  );
  id = v.id ∙ p.id ∙ j.id;
  target = v.target ∙ p.target ∙ j.target;
  winner = v.winner ∙ p.winner ∙ j.winner ∙ fresh.winner;
}
  where
    j : Joined ms s.current_block (join_all ms s).current_block
    j = join_all-Joined ms s (omega arith) (omega arith)

    grow : (join_all ms s).current_block.num_voters ≡ length ms
    grow = omega (arith, j.voters, fresh.voters)

    p : Published x (join_all ms s).current_block (publish m x (join_all ms s)).0.current_block
    p =
        publish-Published m x (join_all ms s) (omega (arith, j.total, fresh.total))
          (omega (arith, j.favorable, fresh.favorable))

    v :
        Voted xs
          (publish m x (join_all ms s)).0.current_block
          (vote_all xs (publish m x (join_all ms s)).0).current_block
    v =
        vote_all-Voted xs (publish m x (join_all ms s)).0
          (omega (arith, p.total, j.total, fresh.total))
          (omega (arith, p.total, j.total, fresh.total, p.favorable, j.favorable, fresh.favorable))

-- What `m` makes of a decided block.
count-Decided :
    (raw ms : List Miner) (m : Miner) (x : ℕ) (xs : List ℕ) (b : Block) (u : System)
    → length raw ≡ max_miners
    → Decided ms x xs b u.current_block
    → let (v, m') = tally m u in
      let t = (new_round raw m' v).0 in
      (active t.last_block.miners t.last_block.num_voters ≡ ms)
      × (t.last_block.solution ≡ x)
      × (t.last_block.target ≡ b.target)
      × (t.last_block.total_votes ≡ suc (length xs))
      × (t.last_block.favorable_votes ≡ suc (agreeing x xs))
      × (t.last_block.winner ≡ (if agreeing x xs == length xs then m.pid else 0))
      × (m'.coins ≡ (if agreeing x xs == length xs then i16 (m.coins + 1) else m.coins))
      × (t.current_block.target ≡ x)
      × (t.current_block.id ≡ i16 (b.id + 1))
      × IsFresh t.current_block
unfolding tally new_round
count-Decided raw ms m x xs b u full d = elim (Bool-cases (agreeing x xs == length xs)) [
  | inl all ↦ ground (arith, d.voters, d.names, d.solution)
  | inr less ↦ ground arith
]

-- A round on a fresh block with at most MAX_MINERS voters, of which one publishes `x` and fewer
-- than all the others vote: the block recorded as the last one lists exactly the voters in their
-- order, holds `x`, and counts one vote for each vote cast with the publisher's own; the publisher
-- is its winner and gets a coin if all votes agreed with `x`, and else nobody is. The next block is
-- fresh, has the next id and takes `x` as its target.
pub run_round_lem :
    (raw ms : List Miner) (m : Miner) (x : ℕ) (xs : List ℕ) (s : System)
    → IsFresh s.current_block
    → length raw ≡ max_miners
    → length ms ≤ max_miners
    → length xs < length ms
    → let (t, m') = run_round raw ms m x xs s in
      (active t.last_block.miners t.last_block.num_voters ≡ ms)
      × (t.last_block.solution ≡ x)
      × (t.last_block.target ≡ s.current_block.target)
      × (t.last_block.total_votes ≡ suc (length xs))
      × (t.last_block.favorable_votes ≡ suc (agreeing x xs))
      × (t.last_block.winner ≡ (if agreeing x xs == length xs then m.pid else 0))
      × (m'.coins ≡ (if agreeing x xs == length xs then i16 (m.coins + 1) else m.coins))
      × (t.current_block.target ≡ x)
      × (t.current_block.id ≡ i16 (s.current_block.id + 1))
      × IsFresh t.current_block
unfolding run_round
run_round_lem raw ms m x xs s fresh full few fewer =
    count-Decided raw ms m x xs s.current_block _ full d
  where
    d : Decided ms x xs s.current_block (vote_all xs (publish m x (join_all ms s)).0).current_block
    d = votes-Decided ms m x xs s fresh few fewer
