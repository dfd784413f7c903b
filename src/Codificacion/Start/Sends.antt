-- ===== src/Codificacion/Start/Sends.antt =====
-- What the sends of a miner's `main` come to at the monitor, and what a start of the checker leaves
-- (P3/Codificacion/miner.c, monitor.c).
use soper.Common.{
  ℕ, zero, suc, ◌<◌, ◌≤◌, ◌≡◌, ◌⊎◌, inl, inr, List, [], ◌∷◌, Bool, true, false, length, take, pos,
  negsuc, refl, arith, ap, sym, subst, ◌+ℤ◌, ◌∙◌,
}
use soper.Pow.{pow_limit}
use soper.Pow.Solve.{preimage, preimage-lt}
use soper.Setup.{ShopCalls}
use soper.Codificacion.{Block, generate, comprobador, monitor}
use soper.Codificacion.Printed.{
  chain, found, printed_one, generate_last, generate_more, monitor-generate,
}
use soper.Codificacion.Start.{
  send_all, miner_main, Gym, failed, bare, all_there, no_queue, open_gym,
}

-- Either all is sent, or what is sent leaves the monitor waiting.
abbrev Sent : ℕ → Block → ℕ → ℕ → List Block × Bool → Type 0
Sent old raw k goal (sent, done) =
    ((done ≡ true) × (sent ≡ generate raw (suc k) goal))
    ⊎ ((done ≡ false)
        × (length sent ≤ k)
        × (monitor (comprobador old sent) ≡ (take (length sent) (chain k goal), false)))

Sent-none : (old : ℕ) (raw : Block) (k goal : ℕ) → Sent old raw k goal ([], false)
unfolding monitor comprobador
Sent-none old raw k goal = inr (refl, omega arith, refl)

Sent-cons :
    (old : ℕ) (raw : Block) (k goal : ℕ) (r : List Block × Bool)
    → goal < pow_limit
    → Sent old raw k (preimage goal) r
    → Sent old raw (suc k) goal (found goal ∷ r.0, r.1)
unfolding comprobador chain
Sent-cons old raw k goal (sent, done) h (inl (e, all)) =
    inl (e, ap (λ l. found goal ∷ l) all ∙ sym (generate_more raw k goal h))
Sent-cons old raw k goal (sent, done) h (inr (e, le, m)) =
    inr (e, omega arith, printed_one goal (comprobador old sent) h ∙ rw m)

send_all-none : (bs : List Block) → send_all [] bs ≡ (bs, true)
unfolding send_all
send_all-none [] = refl
send_all-none (b ∷ bs) = refl

send_all-false :
    (raw : Block) (k goal : ℕ) (oks : List Bool)
    → send_all (false ∷ oks) (generate raw (suc k) goal) ≡ ([], false)
unfolding send_all generate
send_all-false raw k goal oks = refl

sends :
    (old : ℕ) (raw : Block) (k goal : ℕ) (oks : List Bool)
    → goal < pow_limit
    → Sent old raw k goal (send_all oks (generate raw (suc k) goal))
unfolding send_all
sends old raw k goal [] h =
    subst (Sent old raw k goal) (sym (send_all-none (generate raw (suc k) goal))) (inl (refl, refl))
sends old raw k goal (false ∷ oks) h =
    subst (Sent old raw k goal) (sym (send_all-false raw k goal oks)) (Sent-none old raw k goal)
sends old raw zero goal (true ∷ oks) h = rw (generate_last raw goal h) (inl (refl, refl))
sends old raw (suc k) goal (true ∷ oks) h =
    subst (λ bs. Sent old raw (suc k) goal (send_all (true ∷ oks) bs))
      (sym (generate_more raw k goal h))
      (Sent-cons old raw k goal (send_all oks (generate raw (suc k) (preimage goal))) h
        (sends old raw k (preimage goal) oks (preimage-lt goal)))

-- The miner's exit status, what its queue holds and what the monitor prints agree, with `k + 1` rounds
-- and the queue opened, whichever of the sends succeed. Either the miner succeeds, all `k + 1` blocks
-- were sent, and the monitor prints the chain of the first `k` of them, all but the last, and
-- finishes. Or the miner fails with at most `k` blocks sent, and the monitor prints the chain as far
-- as it was sent and goes on waiting, since the mark of the end was never sent.
pub miner_main_lem :
    (old : ℕ) (raw : Block) (k : ℕ) (oks : List Bool)
    → let x = miner_main 3 (pos (suc k)) true oks raw in
      ((x.success ≡ true)
        × (x.sent ≡ generate raw (suc k) 0)
        × (monitor (comprobador old x.sent) ≡ (chain k 0, true)))
      ⊎ ((x.success ≡ false)
          × (length x.sent ≤ k)
          × (monitor (comprobador old x.sent) ≡ (take (length x.sent) (chain k 0), false)))
unfolding miner_main
miner_main_lem old raw k oks = elim (sends old raw k 0 oks (omega arith)) [
  | inl (e, all) ↦ inl (e, all, rw all (monitor-generate raw old k 0 (omega arith)))
  | inr p ↦ inr p
]

-- A start of the checker that fails leaves nothing, except when `mq_open` is the call that fails:
-- then the memory and its semaphores stay, with `using` at -1.
pub open_gym_lem :
    (c : ShopCalls) (g : Gym)
    → open_gym c ≡ failed g
    → (g ≡ bare false) ⊎ ((g ≡ record all_there { using = negsuc 0 }) × (c.mq_open ≡ false))
unfolding open_gym no_queue ◌+ℤ◌
open_gym_lem c g e = ground arith
