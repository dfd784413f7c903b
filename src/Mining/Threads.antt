-- ===== src/Mining/Threads.antt =====
-- What every interleaving of the threads keeps, and how far each step brings them.
use soper.Common.{
  ℕ, ◌<◌, ◌≤◌, ◌≡◌, ◌⊎◌, inl, inr, refl, arith, true, ◌==◌, Bool-cases, ==_iff, subst,
}
use soper.Pow.{pow_limit}
use soper.Pow.Solve.{preimage, eqb-pow_hash}
use soper.Mining.{
  MinerData, Shared, Pc, check, store, raise, done, miner_data, work_step, Crew, turn, created,
  Reach, begin, pick,
}
use soper.Mining.Slices.{covered, covered-lt, end-le}

-- What a thread at a `Pc` knows; `s` is the candidate that solves the target.
abbrev pub IsSound : ℕ → MinerData → Shared → Pc → Type 0
IsSound s d m (check i) = (s < d.start) ⊎ (i ≤ s)
IsSound s d m (store i) = (i ≡ s) × (i < d.end)
IsSound s d m raise = m.solution ≡ s
IsSound s d m done = (m.magic_flag ≡ true) ⊎ (s < d.start) ⊎ (d.end ≤ s)

-- What holds of the globals: `top` bounds the slices, `old` is what an earlier round left.
pub record Holds (s top old : ℕ) (m : Shared) : Type 0 where
  pub flagged : m.magic_flag ≡ true → m.solution ≡ s
  pub kept : (m.solution ≡ s) × (s < top) ⊎ (m.solution ≡ old)

pub record Inv (n t old : ℕ) (c : Crew) : Type 0 where
  pub globals : Holds (preimage t) (covered n) old c.shared
  pub thread : (j : ℕ) → IsSound (preimage t) (miner_data n t j) c.shared (c.pc j)

module _ {t top old : ℕ} (d : MinerData) {m : Shared} (ht : t < pow_limit) (et : d.target ≡ t)
    (hd : d.end ≤ top) (htop : top < pow_limit) (holds : Holds (preimage t) top old m) where
  work_step-Holds :
      (p : Pc) → IsSound (preimage t) d m p → Holds (preimage t) top old (work_step d m p).0
  unfolding work_step
  work_step-Holds (check i) own = holds
  work_step-Holds (store i) own = record { flagged = λ _. own.0; kept = ground (arith, holds.kept) }
  work_step-Holds raise own = record { flagged = λ _. own; kept = holds.kept }
  work_step-Holds done own = holds

  work_step-own :
      (p : Pc)
      → IsSound (preimage t) d m p
      → let (m', p') = work_step d m p in IsSound (preimage t) d m' p'
  unfolding work_step
  work_step-own (check i) own = ground (arith, eqb-pow_hash i t, holds.flagged)
  work_step-own (store i) own = own.0
  work_step-own raise own = inl refl
  work_step-own done own = own

  work_step-other :
      (e : MinerData) (p q : Pc)
      → IsSound (preimage t) d m p
      → IsSound (preimage t) e m q
      → IsSound (preimage t) e (work_step d m p).0 q
  unfolding work_step
  work_step-other e (check i) q own h = h
  work_step-other e (store i) (check k) own h = h
  work_step-other e (store i) (store k) own h = h
  work_step-other e (store i) raise own h = own.0
  work_step-other e (store i) done own h = h
  work_step-other e raise (check k) own h = h
  work_step-other e raise (store k) own h = h
  work_step-other e raise raise own h = h
  work_step-other e raise done own h = inl refl
  work_step-other e done q own h = h

turn-Inv :
    {n t old j : ℕ} {c : Crew} → t < pow_limit → j < n → Inv n t old c → Inv n t old (turn n t c j)
unfolding turn
turn-Inv {n} {t} {old} {j} {c} ht hj inv = record {
  globals = work_step-Holds d ht refl in_range (covered-lt n) inv.globals (c.pc j) (inv.thread j);
  thread = λ k. elim (Bool-cases (j == k)) [
    | inl same ↦ rw same (moved k same)
    | inr other ↦ rw other (
        work_step-other d ht refl in_range (covered-lt n) inv.globals (miner_data n t k) (c.pc j)
          (c.pc k) (inv.thread j) (inv.thread k))
  ];
}
  where
    d : MinerData
    d = miner_data n t j

    in_range : d.end ≤ covered n
    in_range = end-le n j hj

    moved :
        (k : ℕ)
        → (j == k) ≡ true
        → let (m', p') = work_step d c.shared (c.pc j) in
          IsSound (preimage t) (miner_data n t k) m' p'
    moved k same =
        subst
          (λ (x : ℕ).
            let (m', p') = work_step d c.shared (c.pc j) in
            IsSound (preimage t) (miner_data n t x) m' p')
          ((==_iff j k).0 same)
          (work_step-own d ht refl in_range (covered-lt n) inv.globals (c.pc j) (inv.thread j))

created-Inv : (n t old : ℕ) → Inv n t old (created n old)
created-Inv n t old = record {
  globals = record { flagged = λ e. cc; kept = inr refl };
  thread = λ j. omega arith;
}

pub Reach-Inv : {n t old : ℕ} {c : Crew} → t < pow_limit → Reach n t old c → Inv n t old c
Reach-Inv {n} {t} {old} ht begin = created-Inv n t old
Reach-Inv ht (pick j hj r) = turn-Inv ht hj (Reach-Inv ht r)
