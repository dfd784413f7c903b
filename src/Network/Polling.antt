-- ===== src/Network/Polling.antt =====
-- The winner waits for the votes half a second at most.
use soper.Common.{
  ℕ, zero, suc, ◌+◌, ◌<◌, ◌≤◌, ◌≡◌, ◌⊎◌, inl, inr, Bool, true, false, some, u8, arith, Bool-cases,
  subst, dec_lt,
}
use soper.Network.{Block, keep_waiting, Wait, over, interrupted, wait_votes}

abbrev pub IsComplete : Block → Type 0
IsComplete b = b.total_votes ≡ b.num_voters

-- How the wait ends, from the test number `v` on.
abbrev pub Ends : (ℕ → Block) → (ℕ → Bool) → ℕ → Wait → Type 0
Ends seen woken v (over k) =
    (v ≤ k)
    × (k ≤ 5)
    × (IsComplete (seen k) ⊎ (k ≡ 5))
    × ((j : ℕ) → v ≤ j → j < k → ¬ IsComplete (seen j))
    × ((j : ℕ) → v ≤ j → j < k → woken j ≡ false)
Ends seen woken v (interrupted k) = (v ≤ k) × (k < 5) × (woken k ≡ true) × (¬ IsComplete (seen k))

from_next {ℓ} :
    {P : ℕ → Type ℓ} {v k : ℕ}
    → P v
    → ((j : ℕ) → v + 1 ≤ j → j < k → P j)
    → (j : ℕ) → v ≤ j
    → j < k
    → P j
from_next {P = P} {v = v} here later j a b = elim (dec_lt v j) [
  | yes gt ↦ later j (omega arith) b
  | no le ↦ subst P (omega arith) here
]

Ends-earlier :
    (seen : ℕ → Block) (woken : ℕ → Bool) (v : ℕ) (w : Wait)
    → ¬ IsComplete (seen v)
    → woken v ≡ false
    → Ends seen woken (v + 1) w
    → Ends seen woken v w
Ends-earlier seen woken v (over k) more asleep e = (
  omega arith,
  e.1,
  e.2,
  from_next {P = λ j. ¬ IsComplete (seen j)} more e.3,
  from_next {P = λ j. woken j ≡ false} asleep e.4,
)
Ends-earlier seen woken v (interrupted k) more asleep e = (omega arith, e.1, e.2, e.3)

abbrev Result : ℕ → (ℕ → Block) → (ℕ → Bool) → ℕ → Type 0
Result fuel seen woken v =
    (w : Wait) × (wait_votes fuel seen woken v ≡ some w) × Ends seen woken v w

one_more :
    (fuel : ℕ) (seen : ℕ → Block) (woken : ℕ → Bool) (v : ℕ)
    → v < 5
    → keep_waiting (seen v) v ≡ true
    → woken v ≡ false
    → Result fuel seen woken (v + 1)
    → Result (suc fuel) seen woken v
unfolding wait_votes
one_more fuel seen woken v hv more asleep (w, e, ends) =
    (w, rw (more, asleep, next) e, Ends-earlier seen woken v w (ground arith) asleep ends)
  where
    next : u8 (v + 1) ≡ v + 1
    next = omega arith

wait_from :
    (fuel : ℕ) (seen : ℕ → Block) (woken : ℕ → Bool) (v : ℕ)
    → v ≤ 5
    → 5 < fuel + v
    → Result fuel seen woken v
unfolding wait_votes
wait_from zero seen woken v hv hf = absurd (omega arith)
wait_from (suc fuel) seen woken v hv hf = elim (Bool-cases (keep_waiting (seen v) v)) [
  | inl more ↦ elim (Bool-cases (woken v)) [
    | inl up ↦ (interrupted v, rw (more, up), (omega arith, ground arith, up, ground arith))
    | inr asleep ↦
        one_more fuel seen woken v (ground arith) more asleep
          (wait_from fuel seen woken (v + 1) (ground arith) (omega arith))
  ]
  | inr stop ↦ (
    over v,
    rw stop,
    (omega arith, hv, ground arith, λ j a b. absurd (omega arith), λ j a b. absurd (omega arith)),
  )
]

-- From 0 naps on six rounds of fuel are enough, whatever the other miners do. The wait ends by its
-- test after at most five naps: with all votes cast at that test and at none before, or after the
-- fifth nap; or a nap fails before the votes were complete, and the miner exits.
pub wait_votes_lem :
    (seen : ℕ → Block) (woken : ℕ → Bool)
    → (w : Wait) × (wait_votes 6 seen woken 0 ≡ some w) × Ends seen woken 0 w
wait_votes_lem seen woken = wait_from 6 seen woken 0 (omega arith) (omega arith)
