-- ===== src/Codificacion/Start.antt =====
-- The programs of P3/Codificacion around their loops: `main` of the miner (miner.c), and `main` and
-- the start of `comprobador` (monitor.c). Whether a system call succeeds is an argument.
pub mod Sends
mod Tests
use soper.Common.{
  ℕ, zero, suc, ◌+◌, List, [], ◌∷◌, Bool, true, false, ◌==◌, if◌then◌else◌, ℤ, pos, eqb_ℤ, ◌+ℤ◌,
  negsuc, not,
}
use soper.Codificacion.{Block, generate}
use soper.Setup.{ShopCalls}

-- How `main` of the miner ends; `sent` are the blocks that went into the queue.
pub record Exit : Type 0 where
  pub sent : List Block
  pub unlinked : Bool  -- `mq_unlink` was called
  pub success : Bool

-- The calls of `mq_send` in the loop; an outcome that is missing is a success.
unfoldable pub send_all : List Bool → List Block → List Block × Bool
send_all oks [] = ([], true)
send_all [] (b ∷ bs) = (b ∷ bs, true)
send_all (ok ∷ oks) (b ∷ bs) =
    let (sent, done) = send_all oks bs in if ok then (b ∷ sent, done) else ([], false)

-- The rounds of `for(i = 0; i < rounds; i++)`.
abbrev pub rounds_left : ℤ → ℕ
rounds_left (pos n) = n
rounds_left (negsuc n) = 0

-- `main` of the miner. `globalTarget` starts at 0; no round is made for `rounds` not above 0.
unfoldable pub miner_main : (argc : ℕ) (rounds : ℤ) (mq_open : Bool) → List Bool → Block → Exit
miner_main argc rounds mq_open oks raw =
    if argc == 3
    then (if mq_open
        then (let (sent, done) = send_all oks (generate raw (rounds_left rounds) 0) in
            record { sent = sent; unlinked = true; success = done })
        else record { sent = []; unlinked = false; success = false })
    else record { sent = []; unlinked = false; success = false }

-- What `comprobador` leaves: the memory's name, which of the semaphores exist, and `using`.
pub record Gym : Type 0 where
  pub name : Bool
  pub gym_mutex : Bool
  pub gym_empty : Bool
  pub gym_fill : Bool
  pub using : ℤ

pub data Opened : Type 0 where
  checking : Gym → Opened
  failed : Gym → Opened

abbrev pub bare : Bool → Gym
bare name = record {
  name = name;
  gym_mutex = false;
  gym_empty = false;
  gym_fill = false;
  using = pos 0;
}

abbrev pub all_there : Gym
all_there = record {
  name = true;
  gym_mutex = true;
  gym_empty = true;
  gym_fill = true;
  using = pos 0;
}

-- The cleanup when `mq_open` fails: only for `using == 1`, and `using--` in each case.
unfoldable pub no_queue : Gym → Gym
no_queue g =
    if eqb_ℤ g.using (pos 1)
    then record (bare false) { using = g.using +ℤ negsuc 0 }
    else record g { using = g.using +ℤ negsuc 0 }

-- The start of `comprobador`, up to its loop.
unfoldable pub open_gym : ShopCalls → Opened
open_gym c =
    if not c.shm_open
    then failed (bare false)
    else if not c.ftruncate
    then failed (bare false)
    else if not c.mmap
    then failed (bare false)
    else if not c.init_mutex
    then failed (bare false)
    else if not c.init_empty
    then failed (bare false)
    else if not c.init_fill
    then failed (bare false)
    else if c.mq_open
    then checking all_there
    else failed (no_queue all_there)

-- Which part `main` of monitor.c takes, `exists` telling that the shared memory can be opened.
pub data Part : Type 0 where
  usage : Part
  comprobador : Part
  monitor : Part

unfoldable pub part : (argc : ℕ) (exists : Bool) → Part
part argc exists = if argc == 2 then (if exists then monitor else comprobador) else usage
