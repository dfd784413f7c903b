-- ===== src/Voting/Candidate.antt =====
-- At every time one process at most is the candidate.
use soper.Common.{ℕ, ◌≡◌, ◌⊎◌, inl, inr, Bool, true, false, arith, refl}
use soper.Voting.{
  Pc, candidate, polling, resigning, Election, Step, win, lose, stand, look, resign, wake,
  write_vote, again, read_pids, quit, quit_inside, opened, Reach, here, next,
}

-- Between `sem_trywait` and `sem_post`.
abbrev pub is_candidate : Pc → Bool
is_candidate candidate = true
is_candidate polling = true
is_candidate resigning = true
is_candidate _ = false

-- The semaphore is free and nobody is the candidate, or it is taken and only one process is.
abbrev pub Single : Election → Type 0
Single s =
    (s.sem_candida ≡ 1) × ((j : ℕ) → is_candidate (s.pc j) ≡ false)
    ⊎ (s.sem_candida ≡ 0) × ((i : ℕ) × ((j : ℕ) → is_candidate (s.pc j) ≡ true → j ≡ i))

Step-Single : {n : ℕ} {s t : Election} → Step n s t → Single s → Single t
Step-Single (win i k h e free) (inl (one, nobody)) =
    inr (omega arith, (i, λ j c. ground (arith, nobody j)))
Step-Single (win i k h e free) (inr (taken, _)) = absurd (omega arith)
Step-Single (lose i h e taken) (inl (one, nobody)) = absurd (omega arith)
Step-Single (lose i h e taken) (inr (zero', (k, only))) =
    inr (zero', (k, λ j c. ground (arith, only j)))
Step-Single (stand i r _ h e _) (inl (one, nobody)) =
    inl (one, λ j. ground (arith, nobody j, nobody i))
Step-Single (stand i r _ h e _) (inr (zero', (k, only))) =
    inr (zero', (k, λ j c. ground (arith, only j, only i)))
Step-Single (look i _ h e _) (inl (one, nobody)) =
    inl (one, λ j. ground (arith, nobody j, nobody i))
Step-Single (look i _ h e _) (inr (zero', (k, only))) =
    inr (zero', (k, λ j c. ground (arith, only j, only i)))
Step-Single (resign i h e) (inl (one, nobody)) = absurd (ground (arith, nobody i))
Step-Single (resign i h e) (inr (zero', (k, only))) =
    inl (omega arith, λ j. ground (arith, only j, only i))
Step-Single (wake i h e) (inl (one, nobody)) = inl (one, λ j. ground (arith, nobody j))
Step-Single (wake i h e) (inr (zero', (k, only))) = inr (zero', (k, λ j c. ground (arith, only j)))
Step-Single (write_vote i r _ h e _) (inl (one, nobody)) = inl (one, λ j. ground (arith, nobody j))
Step-Single (write_vote i r _ h e _) (inr (zero', (k, only))) =
    inr (zero', (k, λ j c. ground (arith, only j)))
Step-Single (again i h e) (inl (one, nobody)) = inl (one, λ j. ground (arith, nobody j))
Step-Single (again i h e) (inr (zero', (k, only))) = inr (zero', (k, λ j c. ground (arith, only j)))
Step-Single (read_pids i _ h e _) (inl (one, nobody)) = inl (one, λ j. ground (arith, nobody j))
Step-Single (read_pids i _ h e _) (inr (zero', (k, only))) =
    inr (zero', (k, λ j c. ground (arith, only j)))
Step-Single (quit i h e) (inl (one, nobody)) = inl (one, λ j. ground (arith, nobody j))
Step-Single (quit i h e) (inr (zero', (k, only))) = inr (zero', (k, λ j c. ground (arith, only j)))
Step-Single (quit_inside i _ h e _) (inl (one, nobody)) = inl (one, λ j. ground (arith, nobody j))
Step-Single (quit_inside i _ h e _) (inr (zero', (k, only))) =
    inr (zero', (k, λ j c. ground (arith, only j)))

Reach-Single : {n : ℕ} {t : Election} → Reach n opened t → Single t
Reach-Single here = inl (refl, λ j. refl)
Reach-Single (next r st) = Step-Single st (Reach-Single r)

-- In every state that the processes can reach while no call inside of a section fails, two candidates
-- are one process: also when signals end their waits for `sem_en`, and when some of them exit.
pub one_candidate :
    {n : ℕ} {t : Election}
    → Reach n opened t
    → (i j : ℕ) → is_candidate (t.pc i) ≡ true
    → is_candidate (t.pc j) ≡ true
    → i ≡ j
one_candidate r i j ci cj = elim (Reach-Single r) [
  | inl (one, nobody) ↦ ground (arith, nobody i)
  | inr (taken, (k, only)) ↦ omega (arith, only i ci, only j cj)
]
