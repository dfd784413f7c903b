-- ===== src/Network/Processes/Rounds.antt =====
-- A complete round of Proyecto/launch/miner_launch.c, made of steps of its processes.
use soper.Common.{
  ℕ, ◌≡◌, ◌≢◌, ◌≤◌, List, [], ◌∷◌, map, length, true, false, refl, sym, ◌∙◌, ap, ap₂, subst, arith,
  if◌then◌else◌, ℕ_discrete,
}
use soper.Miners.{Miner, max_miners}
use soper.Mining.Outcome.{mined}
use soper.Network.{System, join_round, publish, tally, new_round}
use soper.Network.Signals.{others, kill_all}
use soper.Network.Votes.{join_all, vote_all, length-join_round, join_all-Joined}
use soper.Network.Round.{IsFresh, run_round}
use soper.Network.Processes.{
  loop_head, mining, waiting, Process, World, update, is_among, signal_voting, branch, Reach, here,
  next, finish, announce,
}
use soper.Network.Processes.Waits.{Reach-trans}
use soper.Network.Processes.Moves.{At, At-update, update_self, counts, renews}
use soper.Network.Processes.Crowd.{
  Distinct, change, entered, enter_all, cast_all, map_cong, head_among, tail_among, apart,
}

among-others :
    (f : ℕ → Process) (q : ℕ) (ks : List ℕ) (j : ℕ)
    → is_among j ks ≡ true
    → (f j).this_miner.pid ≢ q
    → is_among (f j).this_miner.pid (others q (map (λ k. (f k).this_miner) ks)) ≡ true
unfolding others
among-others f q [] j m ne = ground (arith, m)
among-others f q (k ∷ ks) j m ne = elim (ℕ_discrete k j) [
  | yes same ↦ ground (arith, ap (λ n. (f n).this_miner.pid) same, ne)
  | no other ↦ ground (arith, among-others f q ks j (ground (arith, m, other)) ne)
]

length-join_all :
    (ms : List Miner) (s : System)
    → length (join_all ms s).current_block.miners ≡ length s.current_block.miners
unfolding join_all
length-join_all [] s = refl
length-join_all (m ∷ ms) s = length-join_all ms (join_round m s) ∙ length-join_round m s

-- On a fresh block the publisher signals the others among those that joined.
publish-others :
    (ms : List Miner) (m : Miner) (x : ℕ) (s : System)
    → IsFresh s.current_block
    → length ms ≤ max_miners
    → (publish m x (join_all ms s)).1 ≡ others m.pid ms
unfolding publish
publish-others ms m x s fresh few =
    let j = join_all-Joined ms s (omega arith) (omega arith) in
    let long = length-join_all ms s in
    kill_all _ m.pid _ (omega (arith, j.voters, long)) (omega (arith, j.voters))
    ∙ ap (others m.pid) (j.names ∙ rw fresh.voters)

signalled :
    (f : ℕ → Process) (i j : ℕ) (a b : Process) (pids : List ℕ)
    → i ≢ j
    → is_among (f j).this_miner.pid pids ≡ true
    → update (signal_voting pids (update f i a)) i b j ≡ record (f j) { sigusr2_received = true }
signalled f i j a b pids ne m = ground (arith, ne, m)

-- The winner finishes and publishes.
win_one :
    (i n : ℕ) (w : World)
    → (w.process i).phase ≡ mining
    → (w.process i).sigusr2_received ≡ false
    → (v : World) × Reach w v
      × (v.system
          ≡ (publish
              (w.process i).this_miner
              (mined n (w.process i).target (w.process i).solution)
              w.system).0)
      × At v i (waiting 0) (w.process i).this_miner
      × ((j : ℕ)
          → i ≢ j
          → is_among
              (w.process j).this_miner.pid
              (publish
                (w.process i).this_miner
                (mined n (w.process i).target (w.process i).solution)
                w.system).1
            ≡ true
          → v.process j ≡ record (w.process j) { sigusr2_received = true })
win_one i n w at flag = (
  _,
  next (next here (finish i n at))
      (announce i (ap (λ y. y.phase) (update_self w.process i _) ∙ ap branch flag)),
  ap (λ y. (publish y.this_miner y.solution w.system).0) (update_self w.process i _),
  At-update _ (signal_voting _ (update w.process i _)) i _ (waiting 0) _ refl refl
      (ap (λ y. y.this_miner) (update_self w.process i _)),
  λ j ne m. signalled w.process i j _ _ _ ne (
      subst
        (λ y.
          is_among (w.process j).this_miner.pid (publish y.this_miner y.solution w.system).1 ≡ true)
        (sym (update_self w.process i _)) m),
)

change_in :
    (g : Process → Process) (ks : List ℕ) (f : ℕ → Process) (j : ℕ)
    → is_among j ks ≡ true
    → change g ks f j ≡ g (f j)
change_in g ks f j m = ap (λ b. if b then g (f j) else f j) m

-- What process `k` finds in this round with `n k` threads.
abbrev pub found : (ℕ → ℕ) → World → ℕ → ℕ
found n w k = mined (n k) w.system.current_block.target (w.process k).solution

abbrev pub crowd : World → List ℕ → List Miner
crowd w ks = map (λ k. (w.process k).this_miner) ks

abbrev raise_flag : Process → Process
raise_flag p = record p { sigusr2_received = true }

-- Before its tally the winner has the votes of all.
all_voted :
    (w : World) (i : ℕ) (js : List ℕ) (n : ℕ → ℕ)
    → Distinct (i ∷ js)
    → ((j : ℕ)
        → is_among j (i ∷ js) ≡ true
        → ((w.process j).phase ≡ loop_head) × ((w.process j).shutdown ≡ false))
    → ((j : ℕ) → is_among j js ≡ true → (w.process j).this_miner.pid ≢ (w.process i).this_miner.pid)
    → IsFresh w.system.current_block
    → length (crowd w (i ∷ js)) ≤ max_miners
    → (v : World) × Reach w v
      × At v i (waiting 0) (w.process i).this_miner
      × (v.system
          ≡ vote_all
              (map (found n w) js)
              (publish
                (w.process i).this_miner
                (found n w i)
                (join_all (crowd w (i ∷ js)) w.system)).0)
all_voted w i js n (d0, d) ready ne fresh few =
    let (w1, r1, s1, p1) = enter_all (i ∷ js) w (d0, d) ready in
    let g = entered w.system.current_block.target in
    let in1 =
      λ (j : ℕ) (m : is_among j (i ∷ js) ≡ true). p1 j ∙ change_in g (i ∷ js) w.process j m in
    let own = in1 i (head_among i js) in
    let (w2, r2, s2, a2, o2) =
      win_one i (n i) w1 (ap (λ y. y.phase) own) (ap (λ y. y.sigusr2_received) own) in
    let published = ap₂ (λ y s. publish y.this_miner (mined (n i) y.target y.solution) s) own s1 in
    let reached =
      ap (λ r. r.1) published ∙ publish-others (crowd w (i ∷ js)) _ _ w.system fresh few in
    let in2 = λ (j : ℕ) (m : is_among j js ≡ true).
      o2 j (apart i j js d0 m) (
        ap₂ (λ y l. is_among y.this_miner.pid l) (in1 j (tail_among i j js m)) reached
        ∙ among-others w.process _ (i ∷ js) j (tail_among i j js m) (ne j m))
      ∙ ap raise_flag (in1 j (tail_among i j js m)) in
    let (w3, r3, s3, p3) =
      cast_all js n w2 d
        (λ j m. (ap (λ y. y.phase) (in2 j m), ap (λ y. y.sigusr2_received) (in2 j m))) in
    (
      w3,
      Reach-trans (Reach-trans r1 r2) r3,
      record {
        phase = ap (λ y. y.phase) (p3 i d0) ∙ a2.phase;
        miner = ap (λ y. y.this_miner) (p3 i d0) ∙ a2.miner ∙ ap (λ y. y.this_miner) own;
      },
      s3
          ∙ ap₂ vote_all
              (map_cong js _ _ (λ j m. ap (λ y. mined (n j) y.target y.solution) (in2 j m)))
              (s2 ∙ ap (λ r. r.0) published),
    )

-- `run_round` is what the processes can do: from every world in which process `i` and the processes
-- `js` stand at the head of the loop before a fresh block, at most MAX_MINERS in all and with other
-- pids than that of `i`, a world can be reached in which all have joined, `i` has published what it
-- found, the others have voted by what they found, and the shared memory and the miner of `i` are
-- those that `run_round` gives.
pub run_round-reached :
    (raw : List Miner) (w : World) (i : ℕ) (js : List ℕ) (n : ℕ → ℕ)
    → Distinct (i ∷ js)
    → ((j : ℕ)
        → is_among j (i ∷ js) ≡ true
        → ((w.process j).phase ≡ loop_head) × ((w.process j).shutdown ≡ false))
    → ((j : ℕ) → is_among j js ≡ true → (w.process j).this_miner.pid ≢ (w.process i).this_miner.pid)
    → IsFresh w.system.current_block
    → length (crowd w (i ∷ js)) ≤ max_miners
    → let (s, m) =
        run_round raw
          (crowd w (i ∷ js))
          (w.process i).this_miner
          (found n w i)
          (map (found n w) js)
          w.system in
      (v : World) × Reach w v × (v.system ≡ s) × ((v.process i).this_miner ≡ m)
unfolding run_round
run_round-reached raw w i js n d ready ne fresh few =
    let m = (w.process i).this_miner in
    let (w3, r3, a3, s3) = all_voted w i js n d ready ne fresh few in
    let (w4, f4, s4) = counts w3 i m a3 in
    let (w5, f5, s5) = renews w4 i raw (tally m w3.system).1 f4.moved in
    (
      w5,
      Reach-trans r3 (Reach-trans f4.reach f5.reach),
      s5
          ∙ ap₂ (λ a b. (new_round raw a b).0) (ap (λ s. (tally m s).1) s3)
              (s4 ∙ ap (λ s. (tally m s).0) s3),
      f5.moved.miner ∙ ap (λ s. (tally m s).1) s3,
    )
