-- ===== src/Network/Processes/OneWinner.antt =====
-- The histories of Proyecto/launch/miner_launch.c in which one miner publishes and none registers or
-- leaves: whatever their order, joining and voting make one round.
use soper.Common.{ℕ, ◌≡◌, List, [], ◌∷◌, refl, ◌∙◌, ap, arith}
use soper.Miners.{Miner}
use soper.Network.{System, join_round, publish, vote, tally, new_round}
use soper.Network.Votes.{join_all, vote_all}
use soper.Network.Round.{run_round}
use soper.Network.Processes.{World, Reach}
use soper.Network.Processes.Sections.{
  Section, quiet, joins, counts, publishes, votes, renews, run_section, run_sections, sections,
  Reach-sections,
}

-- The sections from the tally on: `ms` still join, and the round ends.
pub data Counted (raw : List Miner) : List Miner → List Section → Type 0 where
  renewed : (m : Miner) → Counted raw [] (renews raw m ∷ [])
  idle : {ms : List Miner} {cs : List Section} → Counted raw ms cs → Counted raw ms (quiet ∷ cs)
  joined :
      {ms : List Miner} {cs : List Section} (m : Miner)
      → Counted raw ms cs
      → Counted raw (m ∷ ms) (joins m ∷ cs)

-- The sections from the publication on: `ms` join and `xs` are the votes, in any order, until `m`
-- counts.
pub data Voting (raw : List Miner) (m : Miner) : List Miner → List ℕ → List Section → Type 0 where
  counted :
      {ms : List Miner} {cs : List Section} → Counted raw ms cs → Voting raw m ms [] (counts m ∷ cs)
  idle :
      {ms : List Miner} {xs : List ℕ} {cs : List Section}
      → Voting raw m ms xs cs
      → Voting raw m ms xs (quiet ∷ cs)
  joined :
      {ms : List Miner} {xs : List ℕ} {cs : List Section} (k : Miner)
      → Voting raw m ms xs cs
      → Voting raw m (k ∷ ms) xs (joins k ∷ cs)
  voted :
      {ms : List Miner} {xs : List ℕ} {cs : List Section} (y : ℕ)
      → Voting raw m ms xs cs
      → Voting raw m ms (y ∷ xs) (votes y ∷ cs)

-- The sections of a round in which only `m` publishes, namely `x`, and no miner registers or leaves.
pub data OneRound (raw : List Miner) (m : Miner) (x : ℕ)
    : List Miner → List ℕ → List Section → Type 0 where
  published :
      {ms : List Miner} {xs : List ℕ} {cs : List Section}
      → Voting raw m ms xs cs
      → OneRound raw m x ms xs (publishes m x ∷ cs)
  idle :
      {ms : List Miner} {xs : List ℕ} {cs : List Section}
      → OneRound raw m x ms xs cs
      → OneRound raw m x ms xs (quiet ∷ cs)
  joined :
      {ms : List Miner} {xs : List ℕ} {cs : List Section} (k : Miner)
      → OneRound raw m x ms xs cs
      → OneRound raw m x (k ∷ ms) xs (joins k ∷ cs)

join_round-tally :
    (k m : Miner) (s : System) → join_round k (tally m s).0 ≡ (tally m (join_round k s)).0
unfolding join_round tally
join_round-tally k m s = ground arith

join_all-tally :
    (ms : List Miner) (m : Miner) (s : System)
    → join_all ms (tally m s).0 ≡ (tally m (join_all ms s)).0
unfolding join_all
join_all-tally [] m s = refl
join_all-tally (k ∷ ms) m s =
    ap (join_all ms) (join_round-tally k m s) ∙ join_all-tally ms m (join_round k s)

join_all-vote :
    (ms : List Miner) (x : ℕ) (s : System) → join_all ms (vote x s) ≡ vote x (join_all ms s)
unfolding join_all join_round vote
join_all-vote [] x s = refl
join_all-vote (k ∷ ms) x s = join_all-vote ms x (join_round k s)

join_all-publish :
    (ms : List Miner) (m : Miner) (x : ℕ) (s : System)
    → join_all ms (publish m x s).0 ≡ (publish m x (join_all ms s)).0
unfolding join_all join_round publish
join_all-publish [] m x s = refl
join_all-publish (k ∷ ms) m x s = join_all-publish ms m x (join_round k s)

-- Whom the end of the round signals does not matter to the memory.
new_round_any :
    (raw : List Miner) (m m' : Miner) (s : System) → (new_round raw m s).0 ≡ (new_round raw m' s).0
unfolding new_round
new_round_any raw m m' s = refl

Counted-run :
    {raw ms : List Miner} {cs : List Section} (m : Miner) (s : System)
    → Counted raw ms cs
    → run_sections cs s ≡ (new_round raw m (join_all ms s)).0
unfolding run_sections run_section join_all
Counted-run {raw} m s (renewed m') = new_round_any raw m' m s
Counted-run m s (idle c) = Counted-run m s c
Counted-run m s (joined k c) = Counted-run m (join_round k s) c

Voting-run :
    {raw : List Miner} {m : Miner} {ms : List Miner} {xs : List ℕ} {cs : List Section} (m' : Miner)
    (s : System)
    → Voting raw m ms xs cs
    → run_sections cs s ≡ (new_round raw m' (tally m (vote_all xs (join_all ms s))).0).0
unfolding run_sections run_section join_all vote_all
Voting-run {raw} {m = m} {ms = ms} m' s (counted c) =
    Counted-run m' (tally m s).0 c ∙ ap (λ t. (new_round raw m' t).0) (join_all-tally ms m s)
Voting-run m' s (idle v) = Voting-run m' s v
Voting-run m' s (joined k v) = Voting-run m' (join_round k s) v
Voting-run {raw} {m = m} m' s (voted {ms} {xs} y v) =
    Voting-run m' (vote y s) v
    ∙ ap (λ t. (new_round raw m' (tally m (vote_all xs t)).0).0) (join_all-vote ms y s)

pub OneRound-run :
    {raw : List Miner} {m : Miner} {x : ℕ} {ms : List Miner} {xs : List ℕ} {cs : List Section}
    (m' : Miner) (s : System)
    → OneRound raw m x ms xs cs
    → run_sections cs s
      ≡ (new_round raw m' (tally m (vote_all xs (publish m x (join_all ms s)).0)).0).0
unfolding run_sections run_section join_all
OneRound-run {raw} {m = m} {x = x} {ms = ms} {xs = xs} m' s (published v) =
    Voting-run m' (publish m x s).0 v
    ∙ ap (λ t. (new_round raw m' (tally m (vote_all xs t)).0).0) (join_all-publish ms m x s)
OneRound-run m' s (idle r) = OneRound-run m' s r
OneRound-run m' s (joined k r) = OneRound-run m' (join_round k s) r

-- The histories of the processes in which no miner registers or leaves, only `m` publishes, namely
-- `x`, the votes `xs` come between that and its tally, the miners `ms` join at any time before the
-- round ends, and the round ends behind the tally: they leave the shared memory as `run_round` does,
-- however joining, voting and publishing are interleaved.
pub OneRound-run_round :
    {w v : World} {raw ms : List Miner} {m : Miner} {x : ℕ} {xs : List ℕ} (r : Reach w v)
    → OneRound raw m x ms xs (sections r)
    → v.system ≡ (run_round raw ms m x xs w.system).0
unfolding run_round
OneRound-run_round {w} {m = m} r one = Reach-sections r ∙ OneRound-run _ w.system one
