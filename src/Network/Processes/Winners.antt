-- ===== src/Network/Processes/Winners.antt =====
-- Two winners of one round of Proyecto/launch/miner_launch.c, from the steps of the processes.
use soper.Common.{ℕ, ◌+◌, ◌≡◌, ◌≢◌, List, false, refl, subst, sym, ◌∙◌, ap, u8, i16, arith}
use soper.Miners.{Miner}
use soper.Network.{System, publish, tally, new_round, init_block}
use soper.Network.Races.{tally-new_round}
use soper.Network.Processes.{mining, publishing, waiting, loop_head, World, Reach}
use soper.Network.Processes.Waits.{Reach-trans}
use soper.Network.Processes.Moves.{At, finishes, announces, counts, renews}

-- The votes cast so far are all favorable.
abbrev Agrees : System → Type 0
Agrees s = s.current_block.total_votes ≡ s.current_block.favorable_votes

Agrees-publish : (m : Miner) (x : ℕ) (s : System) → Agrees s → Agrees (publish m x s).0
unfolding publish
Agrees-publish m x s e = ap (λ t. u8 (t + 1)) e

tally-Agrees :
    (m : Miner) (s : System) → Agrees s → (tally m s).1 ≡ record m { coins = i16 (m.coins + 1) }
unfolding tally
tally-Agrees m s e = ground (arith, e)

Agrees-new_round : (raw : List Miner) (m : Miner) (s : System) → Agrees (new_round raw m s).0
unfolding new_round init_block
Agrees-new_round raw m s = refl

-- The last three sections of the race, on the shared memory alone.
late_winner :
    (raw raw' : List Miner) (first second : Miner) (s a b c : System)
    → a ≡ (new_round raw first s).0
    → b ≡ (tally second a).0
    → c ≡ (new_round raw' (tally second a).1 b).0
    → (c.last_block.winner ≡ second.pid)
      × (c.last_block.solution ≡ 0)
      × (c.current_block.target ≡ 0)
late_winner raw raw' first second s a b c ea eb ec =
    rw (ec, eb, ea) (let t = tally-new_round raw raw' first second s 0 in (t.2, t.4, t.6))

-- From every world in which two miners mine the same block, neither has received SIGUSR2, and all
-- votes cast so far are favorable, a world can be reached in which both have won and got a coin
-- each; the second is then the winner of a block that holds the solution 0, and 0 is the target
-- that is mined next.
pub two_winners :
    (w : World) (i j ni nj : ℕ) (mi mj : Miner) (raw raw' : List Miner)
    → i ≢ j
    → At w i mining mi
    → At w j mining mj
    → (w.process i).sigusr2_received ≡ false
    → (w.process j).sigusr2_received ≡ false
    → w.system.current_block.total_votes ≡ w.system.current_block.favorable_votes
    → (v : World) × Reach w v
      × ((v.process i).this_miner ≡ record mi { coins = i16 (mi.coins + 1) })
      × ((v.process j).this_miner ≡ record mj { coins = i16 (mj.coins + 1) })
      × (v.system.last_block.winner ≡ mj.pid)
      × (v.system.last_block.solution ≡ 0)
      × (v.system.current_block.target ≡ 0)
two_winners w i j ni nj mi mj raw raw' ne ai aj di dj agree =
    let (w1, f1, s1, k1) = finishes w i ni mi ai di in
    let (w2, f2, s2, k2) = finishes w1 j nj mj (f1.rest j mining mj ne refl aj) (k1 j ne ∙ dj) in
    let (w3, f3, s3) = announces w2 i mi (f2.rest i publishing mi en refl f1.moved) in
    let (w4, f4, s4) = announces w3 j mj (f3.rest j publishing mj ne refl f2.moved) in
    let (w5, f5, s5) = counts w4 i mi (f4.rest i (waiting 0) mi en refl f3.moved) in
    let (w6, f6, s6) = renews w5 i raw (tally mi w4.system).1 f5.moved in
    let (w7, f7, s7) =
      counts w6 j mj
        (f6.rest j (waiting 0) mj ne refl (f5.rest j (waiting 0) mj ne refl f4.moved)) in
    let (w8, f8, s8) = renews w7 j raw' (tally mj w6.system).1 f7.moved in
    let late =
      late_winner raw raw' (tally mi w4.system).1 mj w5.system w6.system w7.system w8.system s6 s7
        s8 in
    let own =
      f8.rest i loop_head (tally mi w4.system).1 en refl
        (f7.rest i loop_head (tally mi w4.system).1 en refl f6.moved) in
    (
      w8,
      Reach-trans (Reach-trans (Reach-trans f1.reach f2.reach) (Reach-trans f3.reach f4.reach))
          (Reach-trans (Reach-trans f5.reach f6.reach) (Reach-trans f7.reach f8.reach)),
      own.miner
          ∙ tally-Agrees mi w4.system (
              subst Agrees (sym s4) (
                Agrees-publish _ _ w3.system (
                  subst Agrees (sym s3)
                    (Agrees-publish _ _ w2.system (subst Agrees (sym (s2 ∙ s1)) agree))))),
      f8.moved.miner ∙ tally-Agrees mj w6.system (subst Agrees (sym s6) (Agrees-new_round _ _ _)),
      late.0,
      late.1,
      late.2,
    )
  where
    en : j ≢ i
    en e = ne (sym e)
