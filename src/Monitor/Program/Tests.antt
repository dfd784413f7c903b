-- ===== src/Monitor/Program/Tests.antt =====
-- Runs of the program, and the theorems of this part at concrete inputs.
use soper.Common.{◌≡◌, List, [], ◌∷◌, true, false, refl}
use soper.Setup.{ShopCalls, open_shop}
use soper.Monitor.{receive_failed}
use soper.Monitor.Program.{
  facepulls_shm, deadlift_shm, mq_facepulls, Effect, create, unlink, down, receive_fails,
  CheckerMeets, comprobador, opens, missing, main, Merge, nil, left, right, exists_after,
  wait_system, after_wait, serve_end, main_end, monitor, exits,
}
use soper.Monitor.Program.Clean.{returns_clean}

abbrev all_calls : ShopCalls
all_calls = record {
  shm_open = true;
  ftruncate = true;
  mmap = true;
  init_mutex = true;
  init_empty = true;
  init_fill = true;
  mq_open = true;
}

-- The miners come after one nap, and SIGINT comes between two blocks.
abbrev stopped_between : CheckerMeets
stopped_between = record {
  calls = all_calls;
  system = false;
  turns = record { interrupted = false; opens = true } ∷ [];
  mapped = true;
  loop = down;
}

-- SIGINT comes while the checker waits for a block, and one monitor is attached; EINTR is 4.
abbrev stopped_waiting : CheckerMeets
stopped_waiting = record stopped_between { loop = receive_fails 1 4 }

stopped_waiting_run : comprobador stopped_waiting ≡ (
  create facepulls_shm ∷ create mq_facepulls ∷ unlink facepulls_shm ∷ unlink deadlift_shm ∷ [],
  exits 0,
)
unfolding comprobador open_shop wait_system after_wait serve_end receive_failed
stopped_waiting_run = refl

-- The monitor ends first.
abbrev merged : List Effect
merged =
    create facepulls_shm
    ∷ create mq_facepulls
    ∷ unlink facepulls_shm
    ∷ unlink mq_facepulls
    ∷ unlink deadlift_shm
    ∷ unlink facepulls_shm
    ∷ unlink mq_facepulls
    ∷ []

merged-Merge :
    Merge
      (main true true stopped_between (missing ∷ opens ∷ []) true).parent.0
      (main true true stopped_between (missing ∷ opens ∷ []) true).child.0
      merged
unfolding main comprobador open_shop wait_system after_wait serve_end main_end monitor
merged-Merge = left _ (left _ (right _ (right _ (left _ (left _ (left _ nil))))))

returns_clean_example :
    (exists_after facepulls_shm true merged ≡ false)
    × (exists_after mq_facepulls true merged ≡ false)
unfolding comprobador open_shop wait_system after_wait serve_end
returns_clean_example =
    returns_clean stopped_between (missing ∷ opens ∷ []) true true refl merged-Merge
