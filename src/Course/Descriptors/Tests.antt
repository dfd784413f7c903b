-- ===== src/Course/Descriptors/Tests.antt =====
-- A run of the program with the standard descriptors open, and one whose second file cannot be made.
use soper.Common.{ℕ, ◌≡◌, [], ◌∷◌, Option, none, some, false, refl}
use soper.Course.Descriptors.{
  Run, Os, ok, exit, main, allocate, release, open_file, reopen, close, unlink,
}
use soper.Course.Descriptors.Reuse.{all_work}

abbrev fresh_process : Os
fresh_process = record {
  table = some 100 ∷ some 100 ∷ some 100 ∷ [];
  names = λ n. none;
  fresh = 101;
}

-- What a run gives its four variables.
abbrev numbers : Run (ℕ × ℕ × ℕ × ℕ) → Option (ℕ × ℕ × ℕ × ℕ)
numbers (ok x s) = some x
numbers (exit s) = none

main_run :
    (numbers (main all_work fresh_process) ≡ some (3, 4, 3, 5))
    × (numbers (main (record all_work { open2 = false }) fresh_process) ≡ none)
unfolding main open_file reopen close unlink allocate release
main_run = (refl, refl)
