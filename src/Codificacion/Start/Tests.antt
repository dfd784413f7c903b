-- ===== src/Codificacion/Start/Tests.antt =====
-- Runs of the programs, and the theorems of this part at concrete inputs.
use soper.Common.{◌≡◌, ◌≤◌, ◌⊎◌, [], ◌∷◌, true, false, refl, pos, negsuc, ◌+ℤ◌, length, take}
use soper.Setup.{ShopCalls}
use soper.Codificacion.{generate, Block, comprobador, monitor}
use soper.Codificacion.Printed.{chain}
use soper.Codificacion.Start.{
  miner_main, part, usage, Part, open_gym, failed, Gym, all_there, no_queue,
}
use soper.Codificacion.Start.Sends.{miner_main_lem}

abbrev raw : Block
raw = record { target = pos 0; solution = pos 0; flag = 0; end = 0 }

part_runs : (part 1 true ≡ usage) × (part 2 true ≡ Part.monitor) × (part 2 false ≡ Part.comprobador)
unfolding part
part_runs = (refl, refl, refl)

-- The second of three sends fails.
miner_main_lem_example :
    let x = miner_main 3 (pos 3) true (true ∷ false ∷ []) raw in
    ((x.success ≡ true)
      × (x.sent ≡ generate raw 3 0)
      × (monitor (comprobador 0 x.sent) ≡ (chain 2 0, true)))
    ⊎ ((x.success ≡ false)
        × (length x.sent ≤ 2)
        × (monitor (comprobador 0 x.sent) ≡ (take (length x.sent) (chain 2 0), false)))
miner_main_lem_example = miner_main_lem 0 raw 2 (true ∷ false ∷ [])

abbrev without_queue : ShopCalls
without_queue = record {
  shm_open = true;
  ftruncate = true;
  mmap = true;
  init_mutex = true;
  init_empty = true;
  init_fill = true;
  mq_open = false;
}

abbrev stays : Gym
stays = record all_there { using = negsuc 0 }

without_queue_run : open_gym without_queue ≡ failed stays
unfolding open_gym no_queue ◌+ℤ◌
without_queue_run = refl
