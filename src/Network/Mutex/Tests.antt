-- ===== src/Network/Mutex/Tests.antt =====
-- The theorems of this part at concrete inputs.
use soper.Common.{◌≡◌, [], ◌∷◌, some, none, true, false, refl, replicate}
use soper.Network.Mutex.{
  sem_wait_safe, taken, interrupted, failed, opened, Mutex, Reach, here, next, want, take,
  interrupt, outside, waiting, inside,
}
use soper.Network.Mutex.Exclusion.{direct-crowd}

sem_wait_safe_runs :
    (sem_wait_safe (interrupted ∷ taken ∷ failed ∷ []) ≡ some (true, failed ∷ []))
    × (sem_wait_safe (interrupted ∷ failed ∷ []) ≡ some (false, []))
    × (sem_wait_safe (interrupted ∷ []) ≡ none)
unfolding sem_wait_safe
sem_wait_safe_runs = (refl, refl, refl)

-- The first process is in the section, and the second is interrupted while it waits.
abbrev disturbed : (t : Mutex) × Reach true (opened 2) t
disturbed = (
  _,
  next
      (next (next (next here (want [] (outside ∷ []) refl)) (take [] (outside ∷ []) 0 refl refl))
        (want (inside ∷ []) [] refl))
      (interrupt (inside ∷ []) [] refl refl),
)

disturbed_runs : disturbed.0.pcs ≡ inside ∷ waiting ∷ []
disturbed_runs = refl

direct-crowd_example :
    Reach false (opened 3) (record { value = 0; pcs = replicate 3 inside })
    × Reach false
        (record { value = 0; pcs = replicate 3 inside })
        (record { value = 3; pcs = replicate 3 outside })
    × Reach true
        (record { value = 3; pcs = replicate 3 outside })
        (record { value = 0; pcs = replicate 3 inside })
direct-crowd_example = direct-crowd 2
