-- ===== src/Network/Mutex.antt =====
-- `sem_wait` on the mutex of the System, which a signal interrupts since the handlers are installed
-- without SA_RESTART, and `_sem_wait_safe`, which is never called (Proyecto/launch/miner_launch.c).
pub mod Exclusion
mod Tests
use soper.Common.{
  if◌then◌else◌, ℕ, zero, suc, ◌+◌, ◌≡◌, List, [], ◌∷◌, ◌++◌, Bool, true, false, Option, none, some,
  replicate,
}

-- How one call of `sem_wait` ends; EINTR is `interrupted`.
pub data Ends : Type 0 where
  taken : Ends
  interrupted : Ends
  failed : Ends

-- `_sem_wait_safe` for the ends of its calls of `sem_wait`: whether it returns 0, and the calls that
-- are left. `none` is a call that has not returned yet.
unfoldable pub sem_wait_safe : List Ends → Option (Bool × List Ends)
sem_wait_safe [] = none
sem_wait_safe (taken ∷ es) = some (true, es)
sem_wait_safe (interrupted ∷ es) = sem_wait_safe es
sem_wait_safe (failed ∷ es) = some (false, es)

-- Where a process stands.
pub data Pc : Type 0 where
  outside : Pc
  waiting : Pc  -- in `sem_wait`
  inside : Pc  -- in the section

pub record Mutex : Type 0 where
  pub value : ℕ
  pub pcs : List Pc

-- `sem_init` with 1, and `n` processes.
abbrev pub opened : ℕ → Mutex
opened n = record { value = 1; pcs = replicate n outside }

-- One step of a process, which `ps` and `qs` stand around. With `safe` the section is entered by
-- `_sem_wait_safe`, and otherwise by `sem_wait`, whose result the code does not look at.
pub data Step (safe : Bool) (s : Mutex) : Mutex → Type 0 where
  want :
      (ps qs : List Pc)
      → s.pcs ≡ ps ++ (outside ∷ qs)
      → Step safe s (record s { pcs = ps ++ (waiting ∷ qs) })
  take :
      (ps qs : List Pc) (v : ℕ)
      → s.pcs ≡ ps ++ (waiting ∷ qs)
      → s.value ≡ suc v
      → Step safe s (record { value = v; pcs = ps ++ (inside ∷ qs) })
  interrupt :
      (ps qs : List Pc)
      → s.pcs ≡ ps ++ (waiting ∷ qs)
      → s.value ≡ 0
      → Step safe s (record s { pcs = ps ++ ((if safe then waiting else inside) ∷ qs) })
  leave :
      (ps qs : List Pc)
      → s.pcs ≡ ps ++ (inside ∷ qs)
      → Step safe s (record { value = s.value + 1; pcs = ps ++ (outside ∷ qs) })

pub data Reach (safe : Bool) (s : Mutex) : Mutex → Type 0 where
  here : Reach safe s s
  next : {t u : Mutex} → Reach safe s t → Step safe t u → Reach safe s u
