-- ===== src/Network/Processes/Boot/Tests.antt =====
-- A system of two miners from its creation on.
use soper.Common.{ℕ, ◌+◌, ◌≡◌, ◌≢◌, [], replicate, false, refl, arith, length}
use soper.Miners.{blank, max_miners}
use soper.Network.{raw_block, start_first_round, register_miner}
use soper.Network.Processes.{Process, World, Reach, here, next, outside, admit, register, suspend}
use soper.Network.Processes.Idle.{IsIdle, is_idle}
use soper.Network.Processes.Progress.{mines_on}
use soper.Network.Processes.Boot.{begin_first, Numbered, boot-Numbered}

abbrev newcomer : ℕ → Process
newcomer k = record {
  this_miner = record { pid = 100 + k; coins = 0 };
  phase = outside;
  sigusr2_received = false;
  shutdown = false;
  allocated = false;
  target = 0;
  solution = 0;
}

-- The memory as it is created.
abbrev created : World
created = record {
  system = record {
    miners = replicate max_miners blank;
    num_miners = 0;
    last_block = raw_block [];
    current_block = raw_block [];
    monitor_up = 0;
  };
  process = newcomer;
  chain = [];
}

all-IsIdle : (k : ℕ) → IsIdle (created.process k)
unfolding is_idle
all-IsIdle k = refl

room : ◌≢◌ {A = ℕ} 0 max_miners
room e = absurd (omega arith)

down : ◌≢◌ {A = ℕ} 0 1
down e = absurd (omega arith)

-- Miner 1 waits for the first round.
abbrev awaited : (u : World) × Reach created u
awaited = (_, next (next (next here (admit 1 refl room)) (register 1 refl)) (suspend 1 refl))

-- Miner 0 begins it, and three blocks are finished.
abbrev mined_on :
    (v : World) × Reach (begin_first 0 (replicate max_miners blank) awaited.0) v
    × (length v.chain ≡ 3)
unfolding begin_first start_first_round register_miner
mined_on = mines_on 3 (begin_first 0 (replicate max_miners blank) awaited.0) 0 2 refl refl down

boot-Numbered_example : Numbered 0 0 mined_on.0.chain mined_on.0.system.current_block
boot-Numbered_example =
    let (v, r, e) = mined_on in
    boot-Numbered 0 (replicate max_miners blank) refl all-IsIdle awaited.1 r
