-- ===== src/Mining/Outcome.antt =====
-- What the threads of a round leave in `_solution` when all have returned, and how long they take.
use soper.Common.{
  ℕ, ◌+◌, ◌*◌, ◌<◌, ◌≤◌, ◌≡◌, ◌⊎◌, inl, inr, arith, false, ltb, if◌then◌else◌, Bool-cases, subst,
}
use soper.Pow.{pow_limit}
use soper.Pow.Solve.{preimage}
use soper.Mining.{Shared, Pc, done, slice_width, miner_data, Crew, Reach}
use soper.Mining.Slices.{covered, missed-by-all}
use soper.Mining.Threads.{IsSound, Reach-Inv}

-- The `_solution` of a round: the candidate that solves the target, if some slice holds it, or what
-- an earlier round left.
unfoldable pub mined : ℕ → ℕ → ℕ → ℕ
mined n t old = if ltb (preimage t) (covered n) then preimage t else old

-- A thread that has returned with the flag down has searched its slice in vain.
searched :
    (n t j : ℕ) (m : Shared) {p : Pc}
    → p ≡ done
    → m.magic_flag ≡ false
    → IsSound (preimage t) (miner_data n t j) m p
    → (preimage t < j * slice_width n) ⊎ ((j + 1) * slice_width n ≤ preimage t)
searched n t j m e down own =
    ground (arith, subst (IsSound (preimage t) (miner_data n t j) m) e own)

-- Whatever the order in which the threads of a round ran, when all have returned `_solution` is the
-- one candidate whose hash is the target, if a slice holds that candidate, and is unchanged if none
-- does. The target is below POW_LIMIT.
pub Reach-mined :
    {n t old : ℕ} {c : Crew}
    → t < pow_limit
    → Reach n t old c
    → ((j : ℕ) → j < n → c.pc j ≡ done)
    → c.shared.solution ≡ mined n t old
unfolding mined
Reach-mined {n} {t} {old} {c} ht r all = elim (Bool-cases c.shared.magic_flag) [
  | inl up ↦ ground (arith, globals.flagged up, globals.kept)
  | inr down ↦ ground (
    arith,
    globals.kept,
    missed-by-all (slice_width n) (preimage t) n
        (λ j hj. searched n t j c.shared (all j hj) down (thread j)),
  )
]
  where
    open (Reach-Inv ht r) use {globals, thread}
