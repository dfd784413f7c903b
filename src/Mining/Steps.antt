-- ===== src/Mining/Steps.antt =====
-- How many steps the threads of a round can take, and that they can all return.
use soper.Common.{
  ℕ, zero, suc, ◌+◌, ◌-◌, ◌*◌, ◌<◌, ◌≤◌, ◌≡◌, ◌⊎◌, inl, inr, refl, arith, Bool, true, false,
  if◌then◌else◌, Bool-cases, subst, List, [], ◌∷◌, All, dec_lt,
}
use soper.Pow.{pow_limit}
use soper.Mining.{
  MinerData, Shared, Pc, check, store, raise, done, slice_width, miner_data, work_step, Crew,
  update, turn, created, Reach, pick,
}
use soper.Mining.Slices.{covered}
use soper.Mining.Outcome.{mined, Reach-mined}

-- The steps that a thread has left at most.
abbrev pub steps_left : MinerData → Pc → ℕ
steps_left d (check i) = 3 + (d.end - i)
steps_left d (store _) = 2
steps_left d raise = 1
steps_left d done = 0

-- Those of the first `k` threads of `n`.
pub total_left : ℕ → ℕ → ℕ → (ℕ → Pc) → ℕ
total_left n t zero pc = 0
total_left n t (suc k) pc = total_left n t k pc + steps_left (miner_data n t k) (pc k)

abbrev has_returned : Pc → Bool
has_returned done = true
has_returned _ = false

work_step-left :
    (d : MinerData) (m : Shared) (p : Pc)
    → steps_left d (work_step d m p).1 + (if has_returned p then 0 else 1) ≤ steps_left d p
unfolding work_step
work_step-left d m (check i) = ground arith
work_step-left d m (store i) = omega arith
work_step-left d m raise = omega arith
work_step-left d m done = omega arith

total_left-update_of_le :
    (n t k : ℕ) (pc : ℕ → Pc) (j : ℕ) (p : Pc)
    → k ≤ j
    → total_left n t k (update pc j p) ≡ total_left n t k pc
unfolding total_left
total_left-update_of_le n t zero pc j p h = refl
total_left-update_of_le n t (suc k) pc j p h =
    ground (arith, total_left-update_of_le n t k pc j p (omega arith))

total_left-update :
    (n t k : ℕ) (pc : ℕ → Pc) (j : ℕ) (p : Pc)
    → j < k
    → total_left n t k (update pc j p) + steps_left (miner_data n t j) (pc j)
      ≡ total_left n t k pc + steps_left (miner_data n t j) p
unfolding total_left
total_left-update n t zero pc j p h = absurd (omega arith)
total_left-update n t (suc k) pc j p h = elim (dec_lt j k) [
  | yes below ↦ ground (arith, total_left-update n t k pc j p below)
  | no last ↦
      let e : j ≡ k = omega arith in rw e (ground (arith, total_left-update_of_le n t k pc k p))
]

-- The steps that the threads take in a schedule; a thread that has returned takes none.
pub steps_taken : ℕ → ℕ → Crew → List ℕ → ℕ
steps_taken n t c [] = 0
steps_taken n t c (j ∷ js) =
    (if has_returned (c.pc j) then 0 else 1) + steps_taken n t (turn n t c j) js

turn-left :
    (n t : ℕ) (c : Crew) (j : ℕ)
    → j < n
    → total_left n t n (turn n t c j).pc + (if has_returned (c.pc j) then 0 else 1)
      ≤ total_left n t n c.pc
unfolding turn
turn-left n t c j h = omega (
  arith,
  total_left-update n t n c.pc j (work_step (miner_data n t j) c.shared (c.pc j)).1 h,
  work_step-left (miner_data n t j) c.shared (c.pc j),
)

-- Every schedule ends
pub steps_taken-le :
    (n t : ℕ) (c : Crew) (js : List ℕ)
    → All (λ j. j < n) js
    → steps_taken n t c js ≤ total_left n t n c.pc
unfolding steps_taken
steps_taken-le n t c [] h = omega arith
steps_taken-le n t c (j ∷ js) h =
    omega (arith, turn-left n t c j h.0, steps_taken-le n t (turn n t c j) js h.1)

-- A thread among the first `k` that has not returned, if there is one.
unfinished :
    (k : ℕ) (pc : ℕ → Pc)
    → ((j : ℕ) × (j < k) × (has_returned (pc j) ≡ false)) ⊎ ((j : ℕ) → j < k → pc j ≡ done)
unfinished zero pc = inr (λ j h. absurd (omega arith))
unfinished (suc k) pc = elim (unfinished k pc) [
  | inl (j, h, e) ↦ inl (j, omega arith, e)
  | inr all ↦ elim (Bool-cases (has_returned (pc k))) [
    | inl back ↦ inr (λ j h. elim (dec_lt j k) [
      | yes lt ↦ all j lt
      | no ge ↦ subst (λ (x : ℕ). pc x ≡ done) (omega arith) (returned (pc k) back)
    ])
    | inr out ↦ inl (k, omega arith, out)
  ]
]
  where
    returned : (p : Pc) → has_returned p ≡ true → p ≡ done
    returned p h = ground arith

finish :
    (fuel n t old : ℕ) (c : Crew)
    → total_left n t n c.pc ≤ fuel
    → Reach n t old c
    → (c' : Crew) × Reach n t old c' × ((j : ℕ) → j < n → c'.pc j ≡ done)
finish zero n t old c h r = elim (unfinished n c.pc) [
  | inr all ↦ (c, r, all)
  | inl (j, lt, e) ↦ absurd (ground (arith, turn-left n t c j lt))
]
finish (suc fuel) n t old c h r = elim (unfinished n c.pc) [
  | inr all ↦ (c, r, all)
  | inl (j, lt, e) ↦
      finish fuel n t old (turn n t c j) (ground (arith, turn-left n t c j lt)) (pick j lt r)
]

total_left-created :
    (n t old k : ℕ) → total_left n t k (created n old).pc ≡ k * slice_width n + 3 * k
unfolding total_left
total_left-created n t old zero = omega arith
total_left-created n t old (suc k) = omega (arith, total_left-created n t old k)

-- However the threads of a round are scheduled, they take at most three steps each besides one for
-- each candidate of their slices.
pub steps_taken-bound :
    (n t old : ℕ) (js : List ℕ)
    → All (λ j. j < n) js
    → steps_taken n t (created n old) js ≤ covered n + 3 * n
steps_taken-bound n t old js h =
    omega (arith, steps_taken-le n t (created n old) js h, total_left-created n t old n)

-- From every state that the threads of a round can reach, a state can be reached in which all have
-- returned; `_solution` is then the outcome of the round, for a target below POW_LIMIT.
pub Reach-finish :
    {n t old : ℕ} {c : Crew}
    → t < pow_limit
    → Reach n t old c
    → (c' : Crew) × Reach n t old c'
      × ((j : ℕ) → j < n → c'.pc j ≡ done)
      × (c'.shared.solution ≡ mined n t old)
Reach-finish {n} {t} {old} {c} ht r =
    let (c', r', all) = finish (total_left n t n c.pc) n t old c (omega arith) r in
    (c', r', all, Reach-mined ht r' all)
