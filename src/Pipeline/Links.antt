-- ===== src/Pipeline/Links.antt =====
-- The blocks that are sent over the rounds are linked.
use soper.Common.{ℕ, ◌≡◌, List, [], ◌∷◌, refl, ◌∙◌, ap, arith}
use soper.Miners.{Miner}
use soper.Network.{Block, System, join_round, publish, vote, tally, new_round, init_block}
use soper.Network.Votes.{join_all, vote_all}
use soper.Network.Round.{run_round}
use soper.Network.Processes.Chain.{Linked, Follows}
use soper.Pipeline.{Round, sent_block, after_round, sent_blocks}

-- What a link looks at.
abbrev head_of : Block → ℕ × ℕ
head_of b = (b.target, b.id)

head-join_all :
    (ms : List Miner) (s : System) → head_of (join_all ms s).current_block ≡ head_of s.current_block
unfolding join_all join_round
head-join_all [] s = refl
head-join_all (m ∷ ms) s = head-join_all ms (join_round m s)

head-vote_all :
    (xs : List ℕ) (s : System) → head_of (vote_all xs s).current_block ≡ head_of s.current_block
unfolding vote_all vote
head-vote_all [] s = refl
head-vote_all (x ∷ xs) s = head-vote_all xs (vote x s)

head-publish :
    (m : Miner) (x : ℕ) (s : System)
    → head_of (publish m x s).0.current_block ≡ head_of s.current_block
unfolding publish
head-publish m x s = refl

head-tally :
    (m : Miner) (s : System) → head_of (tally m s).0.current_block ≡ head_of s.current_block
unfolding tally
head-tally m s = ground arith

head-sent_block : (r : Round) (s : System) → head_of (sent_block r s) ≡ head_of s.current_block
unfolding sent_block
head-sent_block r s =
    head-tally r.winner _
    ∙ head-vote_all r.votes _
    ∙ head-publish r.winner r.solution _
    ∙ head-join_all r.voters s

next-Follows : (r : Round) (s : System) → Follows (sent_block r s) (after_round r s).current_block
unfolding sent_block run_round new_round init_block
next-Follows r s = record { target = refl; id = refl }

Follows-head : {b c c' : Block} → head_of c' ≡ head_of c → Follows b c → Follows b c'
Follows-head e f = record { target = ap (λ p. p.0) e ∙ f.target; id = ap (λ p. p.1) e ∙ f.id }

abbrev pub after_rounds : List Round → System → System
after_rounds [] s = s
after_rounds (r ∷ rs) s = after_rounds rs (after_round r s)

-- Over any rounds, honest or not, each block that is sent takes the solution of the block sent
-- before as its target and the next id, and so does the block that is current in the end.
pub sent_blocks-Linked :
    (rs : List Round) (s : System) → Linked (sent_blocks rs s) (after_rounds rs s).current_block
unfolding sent_blocks
sent_blocks-Linked [] s = tt
sent_blocks-Linked (r ∷ []) s = next-Follows r s
sent_blocks-Linked (r ∷ r' ∷ rs) s = (
  Follows-head (head-sent_block r' (after_round r s)) (next-Follows r s),
  sent_blocks-Linked (r' ∷ rs) (after_round r s),
)
