-- ===== src/Network/Processes/Moves.antt =====
-- Single steps of one process of Proyecto/launch/miner_launch.c, and where they leave the others.
use soper.Common.{ℕ, ◌≡◌, ◌≢◌, List, false, refl, ◌∙◌, ap, subst, arith}
use soper.Miners.{Miner}
use soper.Network.{publish, tally, new_round, keep_waiting}
use soper.Network.Processes.{
  Phase, mining, publishing, waiting, renewing, loop_head, resume, Process, World, update,
  signal_voting, signal_round, branch, Reach, here, next, writing, finish, announce, count, renew,
}
use soper.Network.Processes.Waits.{Alone, Alone-phase, Reach-trans, waits_out, sends_on}

-- Where process `i` stands, and the miner that it is.
pub record At (w : World) (i : ℕ) (p : Phase) (m : Miner) : Type 0 where
  pub phase : (w.process i).phase ≡ p
  pub miner : (w.process i).this_miner ≡ m

-- `i` takes steps and stands at `p` then; the others stand where they were, unless they were
-- suspended.
pub record Moves (w v : World) (i : ℕ) (p : Phase) (m : Miner) : Type 0 where
  pub reach : Reach w v
  pub moved : At v i p m
  pub rest : (j : ℕ) (q : Phase) (m' : Miner) → i ≢ j → resume q ≡ q → At w j q m' → At v j q m'

pub update_self : (f : ℕ → Process) (i : ℕ) (x : Process) → update f i x i ≡ x
update_self f i x = ground arith

pub update_other : (f : ℕ → Process) (i j : ℕ) (x : Process) → i ≢ j → update f i x j ≡ f j
update_other f i j x ne = ground arith

signal_voting-phase :
    (pids : List ℕ) (f : ℕ → Process) (j : ℕ) → (signal_voting pids f j).phase ≡ (f j).phase
signal_voting-phase pids f j = ground arith

signal_voting-miner :
    (pids : List ℕ) (f : ℕ → Process) (j : ℕ)
    → (signal_voting pids f j).this_miner ≡ (f j).this_miner
signal_voting-miner pids f j = ground arith

signal_round-phase :
    (pids : List ℕ) (f : ℕ → Process) (j : ℕ) (q : Phase)
    → resume q ≡ q
    → (f j).phase ≡ q
    → (signal_round pids f j).phase ≡ q
signal_round-phase pids f j q r e = ground (arith, r, e)

signal_round-miner :
    (pids : List ℕ) (f : ℕ → Process) (j : ℕ)
    → (signal_round pids f j).this_miner ≡ (f j).this_miner
signal_round-miner pids f j = ground arith

-- Process `i` is where `x` is, once it is updated to `x`.
pub At-update :
    (v : World) (f : ℕ → Process) (i : ℕ) (x : Process) (p : Phase) (m : Miner)
    → v.process ≡ update f i x
    → x.phase ≡ p
    → x.this_miner ≡ m
    → At v i p m
At-update v f i x p m e ph mi = record {
  phase = ap (λ g. (g i).phase) e ∙ ap (λ y. y.phase) (update_self f i x) ∙ ph;
  miner = ap (λ g. (g i).this_miner) e ∙ ap (λ y. y.this_miner) (update_self f i x) ∙ mi;
}

-- The others are where they are in `f`.
pub At-other :
    (v : World) (f : ℕ → Process) (i : ℕ) (x : Process) (j : ℕ) (q : Phase) (m : Miner)
    → v.process ≡ update f i x
    → i ≢ j
    → (f j).phase ≡ q
    → (f j).this_miner ≡ m
    → At v j q m
At-other v f i x j q m e ne ph mi = record {
  phase = ap (λ g. (g j).phase) e ∙ ap (λ y. y.phase) (update_other f i j x ne) ∙ ph;
  miner = ap (λ g. (g j).this_miner) e ∙ ap (λ y. y.this_miner) (update_other f i j x ne) ∙ mi;
}

pub finishes :
    (w : World) (i n : ℕ) (m : Miner)
    → At w i mining m
    → (w.process i).sigusr2_received ≡ false
    → (v : World) × Moves w v i publishing m
      × (v.system ≡ w.system)
      × ((j : ℕ) → i ≢ j → (v.process j).sigusr2_received ≡ (w.process j).sigusr2_received)
finishes w i n m a down = (
  _,
  record {
    reach = next here (finish i n a.phase);
    moved = At-update _ w.process i _ publishing m refl (ap branch down) a.miner;
    rest = λ j q m' ne r b. At-other _ w.process i _ j q m' refl ne b.phase b.miner;
  },
  refl,
  λ j ne. ap (λ y. y.sigusr2_received) (update_other w.process i j _ ne),
)

pub announces :
    (w : World) (i : ℕ) (m : Miner)
    → At w i publishing m
    → (v : World) × Moves w v i (waiting 0) m
      × (v.system ≡ (publish m (w.process i).solution w.system).0)
announces w i m a = (
  _,
  record {
    reach = next here (announce i a.phase);
    moved = At-update _ (signal_voting _ w.process) i _ (waiting 0) m refl refl a.miner;
    rest = λ j q m' ne r b.
        At-other _ (signal_voting _ w.process) i _ j q m' refl ne
          (signal_voting-phase _ w.process j ∙ b.phase)
          (signal_voting-miner _ w.process j ∙ b.miner);
  },
  ap (λ k. (publish k (w.process i).solution w.system).0) a.miner,
)

Alone-Moves :
    {w v : World} {i : ℕ} {p q : Phase} {m : Miner} → Alone w v i p → At w i q m → Moves w v i p m
Alone-Moves a b = record {
  reach = a.reach;
  moved = record { phase = Alone-phase a; miner = ap (λ y. y.this_miner) a.own ∙ b.miner };
  rest = λ j q m' ne r c. record {
    phase = ap (λ y. y.phase) (a.others j ne) ∙ c.phase;
    miner = ap (λ y. y.this_miner) (a.others j ne) ∙ c.miner;
  };
}

Moves-trans :
    {u v w : World} {i : ℕ} {p q : Phase} {m m' : Miner}
    → Moves u v i p m
    → Moves v w i q m'
    → Moves u w i q m'
Moves-trans a b = record {
  reach = Reach-trans a.reach b.reach;
  moved = b.moved;
  rest = λ j q m'' ne r c. b.rest j q m'' ne r (a.rest j q m'' ne r c);
}

-- One that has waited long enough counts the votes.
tallies :
    (w : World) (i k : ℕ) (m : Miner)
    → At w i (waiting k) m
    → keep_waiting w.system.current_block k ≡ false
    → (v : World) × Moves w v i writing (tally m w.system).1 × (v.system ≡ (tally m w.system).0)
tallies w i k m a stop = (
  _,
  record {
    reach = next here (count i k a.phase stop);
    moved =
        At-update _ w.process i _ writing (tally m w.system).1 refl refl
          (ap (λ k. (tally k w.system).1) a.miner);
    rest = λ j q m' ne r b. At-other _ w.process i _ j q m' refl ne b.phase b.miner;
  },
  ap (λ k. (tally k w.system).0) a.miner,
)

-- A winner waits for the votes, counts them, and sends its block.
pub counts :
    (w : World) (i : ℕ) (m : Miner)
    → At w i (waiting 0) m
    → (v : World) × Moves w v i renewing (tally m w.system).1 × (v.system ≡ (tally m w.system).0)
counts w i m a =
    let (w1, k, f1, stop) = waits_out w i 0 a.phase (omega arith) in
    let at1 = Alone-Moves f1 a in
    let (w2, f2, s2) = tallies w1 i k m at1.moved stop in
    let (w3, f3) = sends_on w2 i f2.moved.phase in
    let all = Moves-trans at1 (Moves-trans f2 (Alone-Moves f3 f2.moved)) in
    (
      w3,
      subst (λ s. Moves w w3 i renewing (tally m s).1) f1.system all,
      f3.system ∙ s2 ∙ ap (λ s. (tally m s).0) f1.system,
    )

pub renews :
    (w : World) (i : ℕ) (raw : List Miner) (m : Miner)
    → At w i renewing m
    → (v : World) × Moves w v i loop_head m × (v.system ≡ (new_round raw m w.system).0)
renews w i raw m a = (
  _,
  record {
    reach = next here (renew i raw a.phase);
    moved = At-update _ (signal_round _ w.process) i _ loop_head m refl refl a.miner;
    rest = λ j q m' ne r b.
        At-other _ (signal_round _ w.process) i _ j q m' refl ne
          (signal_round-phase _ w.process j q r b.phase)
          (signal_round-miner _ w.process j ∙ b.miner);
  },
  ap (λ k. (new_round raw k w.system).0) a.miner,
)
