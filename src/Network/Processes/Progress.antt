-- ===== src/Network/Processes/Progress.antt =====
-- A miner of Proyecto/launch/miner_launch.c that is in its rounds can go on by itself.
use soper.Common.{
  ℕ, zero, suc, ◌+◌, ◌≡◌, ◌≢◌, List, sym, ◌∙◌, ap, refl, arith, [], ◌∷◌, ◌++◌, true, false, length,
  length-append,
}
use soper.Miners.{Miner}
use soper.Network.{Block, System, join_round, publish, tally, new_round, keep_waiting}
use soper.Network.Processes.{
  World, Process, Phase, Reach, here, next, update, signal_voting, signal_round, branch, loop_head,
  joining, mining, waiting, writing, renewing, begin, join, finish, announce, count, renew,
}
use soper.Network.Processes.Waits.{Alone, Alone-phase, Reach-trans, waits_out, writes_down}
use soper.Network.Processes.Moves.{update_self}

join_round-monitor : (m : Miner) (s : System) → (join_round m s).monitor_up ≡ s.monitor_up
unfolding join_round
join_round-monitor m s = refl

publish-monitor : (m : Miner) (x : ℕ) (s : System) → (publish m x s).0.monitor_up ≡ s.monitor_up
unfolding publish
publish-monitor m x s = refl

tally-monitor : (m : Miner) (s : System) → (tally m s).0.monitor_up ≡ s.monitor_up
unfolding tally
tally-monitor m s = ground arith

new_round-monitor :
    (raw : List Miner) (m : Miner) (s : System) → (new_round raw m s).0.monitor_up ≡ s.monitor_up
unfolding new_round
new_round-monitor raw m s = refl

-- Miner `i` stands at `p` and will not shut down.
record Stands (w : World) (i : ℕ) (p : Phase) : Type 0 where
  phase : (w.process i).phase ≡ p
  goes_on : (w.process i).shutdown ≡ false
  down : w.system.monitor_up ≢ 1

Stands-update :
    (v : World) (f : ℕ → Process) (i : ℕ) (x : Process) (p : Phase)
    → v.process ≡ update f i x
    → x.phase ≡ p
    → x.shutdown ≡ false
    → v.system.monitor_up ≢ 1
    → Stands v i p
Stands-update v f i x p e ph up down = record {
  phase = ap (λ g. (g i).phase) e ∙ ap (λ y. y.phase) (update_self f i x) ∙ ph;
  goes_on = ap (λ g. (g i).shutdown) e ∙ ap (λ y. y.shutdown) (update_self f i x) ∙ up;
  down = down;
}

enters :
    (w : World) (i : ℕ)
    → Stands w i loop_head
    → (v : World) × Reach w v
      × Stands v i mining
      × ((v.process i).sigusr2_received ≡ false)
      × (v.chain ≡ w.chain)
enters w i s =
    let at : Process = record (w.process i) {
      phase = joining;
      allocated = true;
      sigusr2_received = false;
      target = w.system.current_block.target;
    } in
    let e : update w.process i at i ≡ at = update_self w.process i at in
    (
      _,
      next (next here (begin i s.phase s.goes_on)) (join i (ap (λ y. y.phase) e)),
      Stands-update _ (update w.process i at) i _ mining refl refl
          (ap (λ y. y.shutdown) e ∙ s.goes_on)
          (λ h. s.down (sym (join_round-monitor _ w.system) ∙ h)),
      ap (λ y. y.sigusr2_received) (update_self (update w.process i at) i _)
          ∙ ap (λ y. y.sigusr2_received) e,
      refl,
    )

wins :
    (w : World) (i n : ℕ)
    → Stands w i mining
    → (w.process i).sigusr2_received ≡ false
    → (v : World) × Reach w v × Stands v i (waiting 0) × (v.chain ≡ w.chain)
wins w i n s flag = (
  _,
  next (next here (finish i n s.phase))
      (announce i (ap (λ y. y.phase) (update_self w.process i _) ∙ ap branch flag)),
  Stands-update _ (signal_voting _ (update w.process i _)) i _ (waiting 0) refl refl
      (ap (λ y. y.shutdown) (update_self w.process i _) ∙ s.goes_on)
      (λ h. s.down (sym (publish-monitor _ _ w.system) ∙ h)),
  refl,
)

-- The naps and the `write` of a miner.
Stands-Alone : {w v : World} {i : ℕ} {p q : Phase} → Alone w v i p → Stands w i q → Stands v i p
Stands-Alone a s = record {
  phase = Alone-phase a;
  goes_on = ap (λ y. y.shutdown) a.own ∙ s.goes_on;
  down = λ h. s.down (sym (ap (λ x. x.monitor_up) a.system) ∙ h);
}

tallies :
    (w : World) (i k : ℕ)
    → Stands w i (waiting k)
    → keep_waiting w.system.current_block k ≡ false
    → (v : World) × Reach w v × Stands v i writing × (v.chain ≡ w.chain)
tallies w i k s stop = (
  _,
  next here (count i k s.phase stop),
  Stands-update _ w.process i _ writing refl refl s.goes_on
      (λ h. s.down (sym (tally-monitor _ w.system) ∙ h)),
  refl,
)

starts_next :
    (w : World) (i : ℕ)
    → Stands w i renewing
    → (v : World) × Reach w v × Stands v i loop_head × (b : Block) × (v.chain ≡ w.chain ++ (b ∷ []))
starts_next w i s = (
  _,
  next here (renew i [] s.phase),
  Stands-update _ (signal_round _ w.process) i _ loop_head refl refl s.goes_on
      (λ h. s.down (sym (new_round-monitor [] _ w.system) ∙ h)),
  _,
  refl,
)

renews :
    (w : World) (i : ℕ)
    → Stands w i (waiting 0)
    → (v : World) × Reach w v × Stands v i loop_head × (b : Block) × (v.chain ≡ w.chain ++ (b ∷ []))
renews w i s =
    let (w1, k, a1, stop) = waits_out w i 0 s.phase (omega arith) in
    let (w2, r2, s2, c2) = tallies w1 i k (Stands-Alone a1 s) stop in
    let (w3, a3) = writes_down w2 i s2.phase s2.down in
    let (w4, r4, s4, b, c4) = starts_next w3 i (Stands-Alone a3 s2) in
    (
      w4,
      Reach-trans (Reach-trans a1.reach r2) (Reach-trans a3.reach r4),
      s4,
      b,
      c4 ∙ ap (λ l. l ++ (b ∷ [])) (a3.chain ∙ c2 ∙ a1.chain),
    )

one_more :
    (w : World) (i n : ℕ)
    → Stands w i loop_head
    → (v : World) × Reach w v × Stands v i loop_head × (length v.chain ≡ length w.chain + 1)
one_more w i n s =
    let (w1, r1, s1, flag, c1) = enters w i s in
    let (w2, r2, s2, c2) = wins w1 i n s1 flag in
    let (w3, r3, s3, b, c3) = renews w2 i s2 in
    (
      w3,
      Reach-trans (Reach-trans r1 r2) r3,
      s3,
      omega (arith, ap length c1, ap length c2, ap length c3, length-append w2.chain (b ∷ [])),
    )

rounds_on :
    (k : ℕ) (w : World) (i n : ℕ)
    → Stands w i loop_head
    → (v : World) × Reach w v × (length v.chain ≡ length w.chain + k)
rounds_on zero w i n s = (w, here, omega arith)
rounds_on (suc k) w i n s =
    let (u, r, s', e) = one_more w i n s in
    let (v, r', e') = rounds_on k u i n s' in (v, Reach-trans r r', omega (arith, e, e'))

-- Progress: from every world in which some miner stands at the head of its loop and is not to shut
-- down, and in which the monitor is not up, whatever the other miners, the votes and the rest of the
-- shared memory are, any number of further blocks can be finished: the wait for the votes ends by its
-- own test.
pub mines_on :
    (k : ℕ) (w : World) (i n : ℕ)
    → (w.process i).phase ≡ loop_head
    → (w.process i).shutdown ≡ false
    → w.system.monitor_up ≢ 1
    → (v : World) × Reach w v × (length v.chain ≡ length w.chain + k)
mines_on k w i n e up down = rounds_on k w i n (record { phase = e; goes_on = up; down = down })
