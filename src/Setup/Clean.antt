-- ===== src/Setup/Clean.antt =====
-- What a start leaves behind when a call fails: `create_system` and the entry of a miner
-- (Proyecto/srclib/miner.c, Proyecto/launch/miner_launch.c), and the checker
-- (Proyecto/launch/monitor_launch.c).
use native.Mathlib.Omega.{arith}
use soper.Common.{ℕ, Bool, true, false, ◌⊎◌, ◌≡◌, refl, ◌&&◌}
use soper.Miners.{max_miners}
use soper.Setup.{
  ready, failure, Calls, create_system, first, refused, failed, enter_system, Shop, gone, ShopCalls,
  nothing_left, all_up, open_shop, queue_failed,
}

-- `create_system` is ready with the memory and its semaphore exactly when no call fails. Whichever
-- call fails, its exit leaves neither the memory's name nor a semaphore.
pub create_system_lem :
    (c : Calls)
    → (((c.shm_open && c.ftruncate && c.mmap && c.sem_init) ≡ true)
        × (create_system c ≡ ready (record { name = true; mutex = true })))
      ⊎ (((c.shm_open && c.ftruncate && c.mmap && c.sem_init) ≡ false)
          × (create_system c ≡ failure (record { name = false; mutex = false })))
unfolding create_system
create_system_lem c = ground arith

-- A miner that is refused because the system is full, or whose `mmap` fails, takes the name of the
-- running system with it: the next miner creates a second system.
pub enter_system-splits :
    (c c' : Calls) (n : ℕ) (mapped : Bool)
    → ((enter_system true max_miners true c ≡ refused false)
        × (enter_system true n false c ≡ failed false))
      × (enter_system false n mapped c' ≡ first (create_system c'))
unfolding enter_system
enter_system-splits c c' n mapped = ((refl, refl), refl)

-- A checker that exits leaves nothing, except when `mq_open` is the call that fails: then the
-- memory and its three semaphores stay, and `using` has wrapped to 255.
pub open_shop_lem :
    (c : ShopCalls) (s : Shop)
    → open_shop c ≡ gone s
    → (s ≡ nothing_left) ⊎ ((s ≡ record all_up { using = 255 }) × (c.mq_open ≡ false))
unfolding open_shop queue_failed
open_shop_lem c s p = ground arith
