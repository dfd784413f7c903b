-- ===== src/Network/Votes.antt =====
-- What joining and voting, in any order, make of the current block.
use soper.Common.{
  ℕ, suc, ◌+◌, ◌<◌, ◌≤◌, ◌≡◌, List, [], ◌∷◌, ◌++◌, take, length, ◌==◌, refl, ap, u8, if◌then◌else◌,
  arith, length-set, take-set, append_assoc, ◌∙◌, append-nil, sym,
}
use soper.Miners.{Miner}
use soper.Network.{Block, System, join_round, vote}

-- The miners join in some order.
unfoldable pub join_all : List Miner → System → System
join_all [] s = s
join_all (m ∷ ms) s = join_all ms (join_round m s)

-- The losers vote in some order, each by the solution that it found.
unfoldable pub vote_all : List ℕ → System → System
vote_all [] s = s
vote_all (x ∷ xs) s = vote_all xs (vote x s)

-- How many found `x`.
unfoldable pub agreeing : ℕ → List ℕ → ℕ
agreeing x [] = 0
agreeing x (y ∷ ys) = (if x == y then 1 else 0) + agreeing x ys

pub agreeing-le : (x : ℕ) (ys : List ℕ) → agreeing x ys ≤ length ys
unfolding agreeing
agreeing-le x [] = omega arith
agreeing-le x (y ∷ ys) = ground (arith, agreeing-le x ys)

-- What `join_all` makes of the block.
pub record Joined (ms : List Miner) (b b' : Block) : Type 0 where
  pub voters : b'.num_voters ≡ b.num_voters + length ms
  pub total : b'.total_votes ≡ b.total_votes
  pub favorable : b'.favorable_votes ≡ b.favorable_votes
  pub id : b'.id ≡ b.id
  pub target : b'.target ≡ b.target
  pub winner : b'.winner ≡ b.winner
  pub names : take b'.num_voters b'.miners ≡ take b.num_voters b.miners ++ ms

join_round-Joined :
    (m : Miner) (s : System)
    → s.current_block.num_voters < length s.current_block.miners
    → length s.current_block.miners < 256
    → Joined (m ∷ []) s.current_block (join_round m s).current_block
unfolding join_round
join_round-Joined m s h b = record {
  voters = omega arith;
  total = refl;
  favorable = refl;
  id = refl;
  target = refl;
  winner = refl;
  names = rw wrap (take-set _ _ m h);
}
  where
    wrap : u8 (s.current_block.num_voters + 1) ≡ suc s.current_block.num_voters
    wrap = omega arith

pub length-join_round :
    (m : Miner) (s : System)
    → length (join_round m s).current_block.miners ≡ length s.current_block.miners
unfolding join_round
length-join_round m s = length-set s.current_block.miners s.current_block.num_voters m

Joined-cons :
    {m : Miner} {ms : List Miner} {b c d : Block}
    → Joined (m ∷ []) b c
    → Joined ms c d
    → Joined (m ∷ ms) b d
Joined-cons {m} {ms} {b} j k = record {
  voters = omega (arith, j.voters, k.voters);
  total = k.total ∙ j.total;
  favorable = k.favorable ∙ j.favorable;
  id = k.id ∙ j.id;
  target = k.target ∙ j.target;
  winner = k.winner ∙ j.winner;
  names =
      k.names ∙ ap (λ l. l ++ ms) j.names ∙ append_assoc (take b.num_voters b.miners) (m ∷ []) ms;
}

-- Every miner that joins is counted and listed, in the order of joining, and no vote is touched.
pub join_all-Joined :
    (ms : List Miner) (s : System)
    → s.current_block.num_voters + length ms ≤ length s.current_block.miners
    → length s.current_block.miners < 256
    → Joined ms s.current_block (join_all ms s).current_block
unfolding join_all
join_all-Joined [] s h b = record {
  voters = omega arith;
  total = refl;
  favorable = refl;
  id = refl;
  target = refl;
  winner = refl;
  names = sym (append-nil _);
}
join_all-Joined (m ∷ ms) s h b =
    let j = join_round-Joined m s (omega arith) b in
    Joined-cons j (
      join_all-Joined ms (join_round m s) (omega (arith, length-join_round m s, j.voters))
        (omega (arith, length-join_round m s)))

-- What votes make of the block.
pub record Voted (xs : List ℕ) (b b' : Block) : Type 0 where
  pub total : b'.total_votes ≡ b.total_votes + length xs
  pub favorable : b'.favorable_votes ≡ b.favorable_votes + agreeing b.solution xs
  pub solution : b'.solution ≡ b.solution
  pub voters : b'.num_voters ≡ b.num_voters
  pub id : b'.id ≡ b.id
  pub target : b'.target ≡ b.target
  pub winner : b'.winner ≡ b.winner
  pub miners : b'.miners ≡ b.miners

vote-Voted :
    (x : ℕ) (s : System)
    → s.current_block.total_votes < 255
    → s.current_block.favorable_votes ≤ s.current_block.total_votes
    → Voted (x ∷ []) s.current_block (vote x s).current_block
unfolding vote agreeing
vote-Voted x s h f = ground arith

Voted-cons :
    {x : ℕ} {xs : List ℕ} {b c d : Block} → Voted (x ∷ []) b c → Voted xs c d → Voted (x ∷ xs) b d
unfolding agreeing
Voted-cons {x} {xs} {b} {c} {d} v w = record {
  total = omega (arith, v.total, w.total);
  favorable = ground (arith, w.favorable, v.favorable, ap (λ y. agreeing y xs) v.solution);
  solution = w.solution ∙ v.solution;
  voters = w.voters ∙ v.voters;
  id = w.id ∙ v.id;
  target = w.target ∙ v.target;
  winner = w.winner ∙ v.winner;
  miners = w.miners ∙ v.miners;
}

pub vote_all-Voted :
    (xs : List ℕ) (s : System)
    → s.current_block.total_votes + length xs < 256
    → s.current_block.favorable_votes ≤ s.current_block.total_votes
    → Voted xs s.current_block (vote_all xs s).current_block
unfolding vote_all agreeing
vote_all-Voted [] s h f = ground arith
vote_all-Voted (x ∷ xs) s h f =
    let v = vote-Voted x s (omega arith) f in
    Voted-cons v (
      vote_all-Voted xs (vote x s) (omega (arith, v.total))
        (omega (arith, v.total, v.favorable, agreeing-le s.current_block.solution (x ∷ []))))
