-- ===== src/Pipeline/Honest.antt =====
-- Rounds in which every miner mines the target to the end, and what is printed of them.
use soper.Common.{
  ℕ, ◌<◌, ◌≤◌, ◌≡◌, List, [], ◌∷◌, true, refl, sym, ◌∙◌, ap, subst, arith, All, map, take, length,
  pos, All-take,
}
use soper.Pow.{pow_limit, pow_hash}
use soper.Miners.{max_miners}
use soper.Network.{Block, System, new_round}
use soper.Network.Round.{IsFresh, run_round, run_round_lem}
use soper.Network.Consensus.{Mined, honest_round}
use soper.Buffer.{State}
use soper.Register.{register_report}
use soper.Monitor.{Reachable, buffer_length, counter_range, monitor_loop}
use soper.Monitor.Delivery.{copied, printed_lem}
use soper.Pipeline.{Round, sent_block, after_round, sent_blocks}

-- The slices of the winner and of all who vote reach the solution and were mined to the end, and the
-- arrays have room.
pub record IsHonest (r : Round) (s : System) : Type 0 where
  pub full : length r.raw ≡ max_miners
  pub few : length r.voters ≤ max_miners
  pub fewer : length r.votes < length r.voters
  pub own : Mined s.current_block.target r.solution
  pub others : All (Mined s.current_block.target) r.votes

abbrev pub AllHonest : List Round → System → Type 0
AllHonest [] s = Unit
AllHonest (r ∷ rs) s = IsHonest r s × AllHonest rs (after_round r s)

-- A block that all its voters accepted, and that is solved.
abbrev pub Accepted : Block → Type 0
Accepted b = (b.favorable_votes ≡ b.total_votes) × (pow_hash (pos b.solution) ≡ pos b.target)

-- What is sent becomes the last block.
pub sent-last : (r : Round) (s : System) → sent_block r s ≡ (after_round r s).last_block
unfolding sent_block run_round new_round
sent-last r s = refl

pub sent_blocks-Accepted :
    (rs : List Round) (s : System)
    → IsFresh s.current_block
    → s.current_block.target < pow_limit
    → AllHonest rs s
    → All Accepted (sent_blocks rs s)
unfolding sent_blocks
sent_blocks-Accepted [] s fresh small h = tt
sent_blocks-Accepted (r ∷ rs) s fresh small (h, hs) =
    let one =
      honest_round r.raw r.voters r.winner r.solution r.votes s fresh h.full h.few h.fewer small
        h.own h.others in
    let again =
      run_round_lem r.raw r.voters r.winner r.solution r.votes s fresh h.full h.few h.fewer in
    (
      subst Accepted (sym (sent-last r s)) (one.1, one.0),
      sent_blocks-Accepted rs (after_round r s) again.9 one.4 hs,
    )

validated-Accepted : (b : Block) → Accepted b → (register_report b).validated ≡ true
unfolding register_report
validated-Accepted b a = ground (arith, a.0)

validated_all :
    (bs : List Block) → All Accepted bs → All (λ r. r.validated ≡ true) (map register_report bs)
validated_all [] h = tt
validated_all (b ∷ bs) (a, h) = (validated-Accepted b a, validated_all bs h)

agreed_all : (bs : List Block) → All Accepted bs → All (λ b. b.favorable_votes ≡ b.total_votes) bs
agreed_all [] h = tt
agreed_all (b ∷ bs) (a, h) = (a.0, agreed_all bs h)

-- Over any number of honest rounds, at most 256, of any voters and winners: what the monitor prints
-- is, in order and without a gap, what the registers of the winners write of the blocks that they
-- sent, and every report says that its block is validated.
pub end_to_end :
    {blocks : List Block} (rs : List Round) (s : System) (old : ℕ) {st : State Block}
    → Reachable blocks st
    → length blocks ≡ buffer_length
    → st.sent ≡ sent_blocks rs s
    → length (sent_blocks rs s) ≤ counter_range
    → IsFresh s.current_block
    → s.current_block.target < pow_limit
    → AllHonest rs s
    → let printed = map register_report (take (length st.got) (sent_blocks rs s)) in
      (monitor_loop old (copied st.got) ≡ printed) × All (λ r. r.validated ≡ true) printed
end_to_end rs s old {st} r e same few fresh small h =
    let good = sent_blocks-Accepted rs s fresh small h in
    (
      printed_lem old r e (omega (arith, ap length same))
            (subst (All (λ b. b.favorable_votes ≡ b.total_votes)) (sym same) (agreed_all _ good))
          ∙ ap (λ bs. map register_report (take (length st.got) bs)) same,
      validated_all _ (All-take _ (length st.got) (sent_blocks rs s) good),
    )
