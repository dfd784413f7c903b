-- ===== src/Setup/Tests.antt =====
-- Runs of the starts.
use soper.Common.{true, false, ◌≡◌, refl}
use soper.Setup.{Calls, Shop, gone, ShopCalls, all_up, open_shop, queue_failed}

abbrev no_semaphore : Calls
no_semaphore = record { shm_open = true; ftruncate = true; mmap = true; sem_init = false }

abbrev no_queue : ShopCalls
no_queue = record {
  shm_open = true;
  ftruncate = true;
  mmap = true;
  init_mutex = true;
  init_empty = true;
  init_fill = true;
  mq_open = false;
}

abbrev what_stays : Shop
what_stays = record all_up { using = 255 }

no_queue_run : open_shop no_queue ≡ gone what_stays
unfolding open_shop queue_failed
no_queue_run = refl
