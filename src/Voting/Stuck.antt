-- ===== src/Voting/Stuck.antt =====
-- What becomes of the voting of P2/voting.c when `check_sigint` exits inside of a section under `sem_en`.
use soper.Common.{ℕ, ◌≤◌, ◌≡◌, arith, refl, ◌∙◌}
use soper.Voting.{
  Enters, taken, interrupted, Election, Step, read_pids, win, lose, stand, look, resign, wake,
  write_vote, again, quit, quit_inside, opened, Reach, here, next,
}

-- A step that exits inside of a section, and so without `sem_post(sem_en)`.
abbrev pub ExitsInside : {n : ℕ} {s t : Election} → Step n s t → Type 0
ExitsInside (quit_inside i k h e p) = Unit
ExitsInside _ = ⊥

abbrev pub Waits : {v k : ℕ} → Enters v k → Type 0
Waits (taken e) = Unit
Waits interrupted = ⊥

-- A step whose `sem_wait`, if it has one, is not ended by a signal.
abbrev pub IsCalm : {n : ℕ} {s t : Election} → Step n s t → Type 0
IsCalm (read_pids i k h e p) = Waits p
IsCalm (stand i r k h e p) = Waits p
IsCalm (look i k h e p) = Waits p
IsCalm (write_vote i r k h e p) = Waits p
IsCalm (quit_inside i k h e p) = Waits p
IsCalm _ = Unit

abbrev pub AreCalm : {n : ℕ} {s t : Election} → Reach n s t → Type 0
AreCalm here = Unit
AreCalm (next r st) = AreCalm r × IsCalm st

sem_en-Step : {n : ℕ} {s t : Election} (st : Step n s t) → IsCalm st → t.sem_en ≤ s.sem_en
sem_en-Step (read_pids i k h e (taken p)) c = omega arith
sem_en-Step (read_pids i k h e interrupted) c = absurd c
sem_en-Step (stand i r k h e (taken p)) c = omega arith
sem_en-Step (stand i r k h e interrupted) c = absurd c
sem_en-Step (look i k h e (taken p)) c = omega arith
sem_en-Step (look i k h e interrupted) c = absurd c
sem_en-Step (write_vote i r k h e (taken p)) c = omega arith
sem_en-Step (write_vote i r k h e interrupted) c = absurd c
sem_en-Step (quit_inside i k h e (taken p)) c = omega arith
sem_en-Step (quit_inside i k h e interrupted) c = absurd c
sem_en-Step _ c = omega arith

sem_en-Reach : {n : ℕ} {s t : Election} (r : Reach n s t) → AreCalm r → t.sem_en ≤ s.sem_en
sem_en-Reach here c = omega arith
sem_en-Reach (next r st) c = omega (arith, sem_en-Reach r c.0, sem_en-Step st c.1)

ExitsInside-sem_en :
    {n : ℕ} {s t : Election} (st : Step n s t)
    → s.sem_en ≤ 1
    → ExitsInside st
    → IsCalm st
    → t.sem_en ≡ 0
ExitsInside-sem_en (quit_inside i k h e (taken p)) le f c = omega arith
ExitsInside-sem_en (quit_inside i k h e interrupted) le f c = absurd c
ExitsInside-sem_en (read_pids _ _ _ _ _) le f c = absurd f
ExitsInside-sem_en (win _ _ _ _ _) le f c = absurd f
ExitsInside-sem_en (lose _ _ _ _) le f c = absurd f
ExitsInside-sem_en (stand _ _ _ _ _ _) le f c = absurd f
ExitsInside-sem_en (look _ _ _ _ _) le f c = absurd f
ExitsInside-sem_en (resign _ _ _) le f c = absurd f
ExitsInside-sem_en (wake _ _ _) le f c = absurd f
ExitsInside-sem_en (write_vote _ _ _ _ _ _) le f c = absurd f
ExitsInside-sem_en (again _ _ _) le f c = absurd f
ExitsInside-sem_en (quit _ _ _) le f c = absurd f

-- Nothing is written or printed while `sem_en` is 0.
frozen-Step :
    {n : ℕ} {s t : Election} (st : Step n s t)
    → s.sem_en ≡ 0
    → IsCalm st
    → (t.file ≡ s.file) × (t.printed ≡ s.printed)
frozen-Step (stand i r k h e (taken p)) z c = absurd (omega arith)
frozen-Step (stand i r k h e interrupted) z c = absurd c
frozen-Step (look i k h e (taken p)) z c = absurd (omega arith)
frozen-Step (look i k h e interrupted) z c = absurd c
frozen-Step (write_vote i r k h e (taken p)) z c = absurd (omega arith)
frozen-Step (write_vote i r k h e interrupted) z c = absurd c
frozen-Step _ z c = (refl, refl)

frozen-Reach :
    {n : ℕ} {s t : Election} (r : Reach n s t)
    → s.sem_en ≡ 0
    → AreCalm r
    → (t.file ≡ s.file) × (t.printed ≡ s.printed)
frozen-Reach here z c = (refl, refl)
frozen-Reach (next r st) z c =
    let (f, p) = frozen-Step st (omega (arith, sem_en-Reach r c.0)) c.1 in
    let (g, q) = frozen-Reach r z c.0 in (f ∙ g, p ∙ q)

-- Once a process of any state that was reached from the start has exited inside of a section, by the
-- `check_sigint` between `sem_wait(sem_en)` and `sem_post(sem_en)`, the voting is stuck: whatever the
-- processes do, no vote is written and no verdict printed any more. No signal ends a
-- `sem_wait(sem_en)`, before or after, and no call inside of a section fails.
pub ExitsInside-frozen :
    {n : ℕ} {s t u : Election} (r : Reach n opened s)
    → AreCalm r
    → (st : Step n s t) → ExitsInside st
    → IsCalm st
    → (r' : Reach n t u) → AreCalm r'
    → (u.file ≡ t.file) × (u.printed ≡ t.printed)
ExitsInside-frozen r c st f c' r' c'' =
    frozen-Reach r' (ExitsInside-sem_en st (omega (arith, sem_en-Reach r c)) f c') c''
