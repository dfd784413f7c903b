-- ===== src/Setup/Miner/Tests.antt =====
-- The start of a miner at concrete inputs.
use soper.Common.{◌≡◌, true, false, refl}
use soper.Setup.{Calls, create_system, enter_system}
use soper.Setup.Miner.{Meets, start_miner, install, begins, stopped}

abbrev all_fine : Calls
all_fine = record { shm_open = true; ftruncate = true; mmap = true; sem_init = true }

abbrev alone : Meets
alone = record {
  pipe = true;
  fork = true;
  exists = false;
  num_miners = 0;
  mapped = true;
  calls = all_fine;
  sigactions = true;
}

abbrev no_handler : Meets
no_handler = record alone { sigactions = false }

-- The next miner finds the memory.
abbrev second : Meets
second = record alone { exists = true }

start_miner_runs :
    (start_miner alone ≡ begins true)
    × (start_miner no_handler ≡ stopped true)
    × (start_miner second ≡ begins false)
unfolding start_miner install enter_system create_system
start_miner_runs = (refl, refl, refl)
