-- ===== src/Setup.antt =====
-- Getting and giving back the shared memories: `create_system` (Proyecto/srclib/miner.c), the start
-- of a miner's `main` (Proyecto/launch/miner_launch.c) and that of `comprobador`
-- (Proyecto/launch/monitor_launch.c). Whether a system call succeeds is an argument.
pub mod Clean
pub mod Miner
mod Tests
use soper.Common.{ℕ, Bool, true, false, ◌==◌, if◌then◌else◌, u8_dec}
use soper.Miners.{max_miners}

-- What outlives the process: the name of the memory, and its semaphore.
pub record Left : Type 0 where
  pub name : Bool
  pub mutex : Bool

-- How a start ends: with the memory mapped, or by `exit`.
pub data Start : Type 0 where
  ready : Left → Start
  failure : Left → Start

-- The calls of `create_system`, in order.
pub record Calls : Type 0 where
  pub shm_open : Bool
  pub ftruncate : Bool
  pub mmap : Bool
  pub sem_init : Bool

-- `name` tells that the memory exists already: `O_EXCL` fails on it.
unfoldable pub create_system : Calls → Start
create_system c =
    if c.shm_open
    then (if c.ftruncate
        then (if c.mmap
            then (if c.sem_init
                then ready (record { name = true; mutex = true })
                else failure (record { name = false; mutex = false }))
            else failure (record { name = false; mutex = false }))
        else failure (record { name = false; mutex = false }))
    else failure (record { name = false; mutex = false })

-- How a miner enters the system.
pub data Entrance : Type 0 where
  first : Start → Entrance  -- it creates the memory
  joined : Entrance  -- it maps the memory that exists
  refused : (name : Bool) → Entrance  -- the system is full, and the miner exits
  failed : (name : Bool) → Entrance  -- `mmap` failed, and the miner exits

-- `exists` tells that the memory exists, `num_miners` what it holds, `mapped` that `mmap` succeeds.
-- On both exits the name is unlinked.
unfoldable pub enter_system : Bool → ℕ → Bool → Calls → Entrance
enter_system exists num_miners mapped c =
    if exists
    then (if mapped
        then (if num_miners == max_miners then refused false else joined)
        else failed false)
    else first (create_system c)

-- What the checker leaves: the name of its memory, the semaphores, and `using`.
pub record Shop : Type 0 where
  pub name : Bool
  pub gym_mutex : Bool
  pub gym_empty : Bool
  pub gym_fill : Bool
  pub using : ℕ

pub data Opened : Type 0 where
  serving : Shop → Opened
  gone : Shop → Opened

-- The calls at the start of `comprobador`, in order.
pub record ShopCalls : Type 0 where
  pub shm_open : Bool
  pub ftruncate : Bool
  pub mmap : Bool
  pub init_mutex : Bool
  pub init_empty : Bool
  pub init_fill : Bool
  pub mq_open : Bool

abbrev pub nothing_left : Shop
nothing_left = record {
  name = false;
  gym_mutex = false;
  gym_empty = false;
  gym_fill = false;
  using = 0;
}

abbrev pub all_up : Shop
all_up = record { name = true; gym_mutex = true; gym_empty = true; gym_fill = true; using = 0 }

-- The cleanup when `mq_open` fails: only for `using == 1`, and `using--` in each case.
unfoldable pub queue_failed : Shop → Shop
queue_failed s =
    if s.using == 1
    then record nothing_left { using = u8_dec s.using }
    else record s { using = u8_dec s.using }

unfoldable pub open_shop : ShopCalls → Opened
unfolding queue_failed
open_shop c =
    if c.shm_open
    then (if c.ftruncate
        then (if c.mmap
            then (if c.init_mutex
                then (if c.init_empty
                    then (if c.init_fill
                        then (if c.mq_open then serving all_up else gone (queue_failed all_up))
                        else gone (record all_up {
                          name = false;
                          gym_mutex = false;
                          gym_empty = false;
                          gym_fill = false;
                        }))
                    else gone (record all_up {
                      name = false;
                      gym_mutex = false;
                      gym_empty = false;
                      gym_fill = false;
                    }))
                else gone (record all_up {
                  name = false;
                  gym_mutex = false;
                  gym_empty = false;
                  gym_fill = false;
                }))
            else gone nothing_left)
        else gone nothing_left)
    else gone nothing_left
