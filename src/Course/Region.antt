-- ===== src/Course/Region.antt =====
-- P2/sem_create.c behind its `fork`: two processes and a named semaphore.
pub mod Ends
mod Tests
use soper.Common.{ℕ, suc, ◌+◌, ◌≡◌, Bool, true, false}

-- Where a process stands.
pub data Pc : Type 0 where
  want : Pc  -- before `sem_wait`
  inside : Pc  -- in the critical region, before `sem_post`
  close : Pc  -- before `sem_close`
  unlink : Pc  -- the parent only, before `sem_unlink`
  reap : Pc  -- the parent only, before `wait`
  ended : Pc

pub record State : Type 0 where
  pub sem : ℕ
  pub name : Bool
  pub child : Pc
  pub parent : Pc

-- The semaphore is created with 0, posted twice and taken once before the `fork`.
abbrev pub forked : State
forked = record { sem = 1; name = true; child = want; parent = want }

pub data Step (s : State) : State → Type 0 where
  child_takes :
      (k : ℕ) → s.child ≡ want → s.sem ≡ suc k → Step s (record s { child = inside; sem = k })
  child_posts : s.child ≡ inside → Step s (record s { child = close; sem = s.sem + 1 })
  child_exits : s.child ≡ close → Step s (record s { child = ended })
  parent_takes :
      (k : ℕ) → s.parent ≡ want → s.sem ≡ suc k → Step s (record s { parent = inside; sem = k })
  parent_posts : s.parent ≡ inside → Step s (record s { parent = close; sem = s.sem + 1 })
  parent_closes : s.parent ≡ close → Step s (record s { parent = unlink })
  parent_unlinks : s.parent ≡ unlink → Step s (record s { parent = reap; name = false })
  parent_exits : s.parent ≡ reap → s.child ≡ ended → Step s (record s { parent = ended })

pub data Reach (s : State) : State → Type 0 where
  here : Reach s s
  next : {t u : State} → Reach s t → Step t u → Reach s u
