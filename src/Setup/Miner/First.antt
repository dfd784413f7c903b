-- ===== src/Setup/Miner/First.antt =====
-- Which miner begins the first round (Proyecto/launch/miner_launch.c).
use native.Mathlib.Omega.{arith}
use soper.Common.{true, false, ◌≡◌, ◌≢◌, ◌&&◌, ◌↔◌}
use soper.Setup.{create_system, enter_system}
use soper.Setup.Miner.{Meets, start_miner, install, begins, stopped}

-- A miner begins the first round exactly if it finds no memory of a system and none of its calls
-- fails.
pub start_miner_iff :
    (m : Meets)
    → (start_miner m ≡ begins true) ↔ (
        (m.exists ≡ false)
        × ((m.pipe && m.fork && m.sigactions) ≡ true)
        × ((m.calls.shm_open && m.calls.ftruncate && m.calls.mmap && m.calls.sem_init) ≡ true))
unfolding start_miner install enter_system create_system
start_miner_iff m = (λ e. ground arith, λ h. ground arith)

leaves_name :
    (m : Meets)
    → m.exists ≡ false
    → (m.pipe && m.fork) ≡ true
    → (m.calls.shm_open && m.calls.ftruncate && m.calls.mmap && m.calls.sem_init) ≡ true
    → m.sigactions ≡ false
    → start_miner m ≡ stopped true
unfolding start_miner install enter_system create_system
leaves_name m e pf ok sa = ground arith

-- A first miner whose `sigaction` fails leaves the memory that it has created. Every miner that comes
-- then is not the first one: it joins, and does not begin the first round.
pub start_miner-lost :
    (m : Meets) (later : Meets)
    → m.exists ≡ false
    → (m.pipe && m.fork) ≡ true
    → (m.calls.shm_open && m.calls.ftruncate && m.calls.mmap && m.calls.sem_init) ≡ true
    → m.sigactions ≡ false
    → start_miner m ≡ stopped later.exists
    → (later.exists ≡ true) × (start_miner later ≢ begins true)
start_miner-lost m later e pf ok sa left =
    let there : later.exists ≡ true = cc (leaves_name m e pf ok sa, left) in
    (there, λ h. absurd (cc (((start_miner_iff later).0 h).0, there)))
