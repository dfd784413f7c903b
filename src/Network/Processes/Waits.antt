-- ===== src/Network/Processes/Waits.antt =====
-- The steps of Proyecto/launch/miner_launch.c in which a winner only moves on: the naps while it
-- waits for the votes, and the calls that send its block.
use soper.Common.{
  ℕ, zero, suc, ◌+◌, ◌-◌, ◌≡◌, ◌≢◌, ◌≤◌, true, false, Bool-cases, inl, inr, refl, ◌∙◌, ap, subst,
  u8, ◌==◌, arith,
}
use soper.Network.{keep_waiting}
use soper.Network.Processes.{
  Phase, waiting, writing, sending, renewing, Process, World, Step, Reach, here, next, update, nap,
  to_register, send,
}

pub Reach-trans : {u v w : World} → Reach u v → Reach v w → Reach u w
Reach-trans p here = p
Reach-trans p (next r st) = next (Reach-trans p r) st

-- Only process `i` has taken steps, to stand at `p`; nothing else has changed.
pub record Alone (w v : World) (i : ℕ) (p : Phase) : Type 0 where
  pub reach : Reach w v
  pub system : v.system ≡ w.system
  pub chain : v.chain ≡ w.chain
  pub own : v.process i ≡ record (w.process i) { phase = p }
  pub others : (j : ℕ) → i ≢ j → v.process j ≡ w.process j

abbrev at : Phase → Process → Process
at p x = record x { phase = p }

Alone-here : (w : World) (i : ℕ) (p : Phase) → (w.process i).phase ≡ p → Alone w w i p
Alone-here w i p e = record {
  reach = here;
  system = refl;
  chain = refl;
  own = ap (λ q. at q (w.process i)) e;
  others = λ j ne. refl;
}

abbrev moved : World → ℕ → Phase → World
moved w i p = record w { process = update w.process i (record (w.process i) { phase = p }) }

Alone-step : (w : World) (i : ℕ) (p : Phase) → Step w (moved w i p) → Alone w (moved w i p) i p
Alone-step w i p st = record {
  reach = next here st;
  system = refl;
  chain = refl;
  own = ground arith;
  others = λ j ne. ground (arith, ne);
}

Alone-trans : {u v w : World} {i : ℕ} {p q : Phase} → Alone u v i p → Alone v w i q → Alone u w i q
Alone-trans {i = i} {q = q} a b = record {
  reach = Reach-trans a.reach b.reach;
  system = b.system ∙ a.system;
  chain = b.chain ∙ a.chain;
  own = b.own ∙ ap (at q) a.own;
  others = λ j ne. b.others j ne ∙ a.others j ne;
}

pub Alone-phase : {w v : World} {i : ℕ} {p : Phase} → Alone w v i p → (v.process i).phase ≡ p
Alone-phase a = ap (λ y. y.phase) a.own

-- The process naps until the test of its loop is false.
abbrev pub Tested : World → ℕ → Type 0
Tested w i =
    (v : World) × (k : ℕ) × Alone w v i (waiting k)
    × (keep_waiting v.system.current_block k ≡ false)

after_nap :
    {w : World} {i k : ℕ}
    → (w.process i).phase ≡ waiting k
    → keep_waiting w.system.current_block k ≡ true
    → Tested (moved w i (waiting (u8 (k + 1)))) i
    → Tested w i
after_nap {w} {i} {k} e more (v, l, a, stop) =
    (v, l, Alone-trans (Alone-step w i (waiting (u8 (k + 1))) (nap i k e more)) a, stop)

-- A miner that waits comes to the end of its loop, after `d` more naps at most.
waits_for : (d : ℕ) (w : World) (i k : ℕ) → (w.process i).phase ≡ waiting k → k + d ≡ 5 → Tested w i
waits_for zero w i k e five = (w, k, Alone-here w i (waiting k) e, ground arith)
waits_for (suc d) w i k e five = elim (Bool-cases (keep_waiting w.system.current_block k)) [
  | inr stop ↦ (w, k, Alone-here w i (waiting k) e, stop)
  | inl more ↦
      after_nap e more
        (waits_for d (moved w i (waiting (u8 (k + 1)))) i (u8 (k + 1)) (ground arith) (omega arith))
]

-- The wait for the votes ends, by the votes or by the fifth nap.
pub waits_out : (w : World) (i k : ℕ) → (w.process i).phase ≡ waiting k → k ≤ 5 → Tested w i
waits_out w i k e le = waits_for (5 - k) w i k e (omega arith)

-- With the monitor down the winner goes on behind its `write`.
pub writes_down :
    (w : World) (i : ℕ)
    → (w.process i).phase ≡ writing
    → w.system.monitor_up ≢ 1
    → (v : World) × Alone w v i renewing
writes_down w i e down = (
  _,
  Alone-step w i renewing (subst (λ p. Step w (moved w i p)) (ground arith) (to_register i e)),
)

-- It does so too if the monitor is up and `send_queue` returns.
pub sends_on :
    (w : World) (i : ℕ) → (w.process i).phase ≡ writing → (v : World) × Alone w v i renewing
sends_on w i e = elim (Bool-cases (w.system.monitor_up == 1)) [
  | inr down ↦ writes_down w i e (λ f. ground arith)
  | inl up ↦
      let to_send : Step w (moved w i sending) =
        subst (λ p. Step w (moved w i p)) (ground arith) (to_register i e) in
      let one = Alone-step w i sending to_send in
      let two = Alone-step (moved w i sending) i renewing (send i (Alone-phase one)) in
      (_, Alone-trans one two)
]
