-- ===== src/Voting/Start/Main/Tests.antt =====
-- `main` of the voting at a concrete input.
use soper.Common.{◌≡◌, [], ◌∷◌, some, none, true, false, refl}
use soper.Voting.Start.{fork_from}
use soper.Voting.Start.Main.{Calls, start_voting, write_file, returns_1}

abbrev no_file : Calls
no_file = record {
  sigactions = true;
  calloc = true;
  open_sem_en = true;
  open_sem_candida = true;
  forks = some 11 ∷ some 12 ∷ [];
  open_pids = false;
  write_pids = true;
}

-- A call of `fork` that fails leaves no child.
no_fork_runs : start_voting (record no_file { forks = some 11 ∷ none ∷ [] }) ≡ returns_1 []
unfolding start_voting write_file fork_from
no_fork_runs = refl
