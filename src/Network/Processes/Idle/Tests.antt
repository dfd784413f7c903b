-- ===== src/Network/Processes/Idle/Tests.antt =====
-- A network whose winner exits while it waits for the votes.
use soper.Common.{ℕ, ◌+◌, ◌≢◌, ◌==◌, if◌then◌else◌, arith, ◌≡◌, [], replicate, false, refl}
use soper.Miners.{blank, max_miners}
use soper.Network.{System, raw_block}
use soper.Network.Processes.{
  Process, World, Reach, here, next, Step, waiting, suspended, outside, interrupt,
}
use soper.Network.Processes.Idle.{IsIdle, is_idle, exits, nap_breaks, miner_exits}

abbrev newcomer : ℕ → Process
newcomer k = record {
  this_miner = record { pid = 100 + k; coins = 0 };
  phase = outside;
  sigusr2_received = false;
  shutdown = false;
  allocated = false;
  target = 0;
  solution = 0;
}

abbrev memory : System
memory = record {
  miners = replicate max_miners blank;
  num_miners = 0;
  last_block = raw_block [];
  current_block = record (raw_block (replicate max_miners blank)) {
    num_voters = 2;
    total_votes = 1;
  };
  monitor_up = 0;
}

abbrev nobody : World
nobody = record { system = memory; process = newcomer; chain = [] }

-- Miner 0 waits for votes, and the others have voted.
abbrev one_waits : World
one_waits = record nobody {
  process = λ k.
      if k == 0
      then record (newcomer k) { phase = waiting 0 }
      else record (newcomer k) { phase = suspended };
}

others-IsIdle : (k : ℕ) → k ≢ 0 → IsIdle (one_waits.process k)
unfolding is_idle
others-IsIdle k ne = ground (arith, ne)

-- Miner 1 is interrupted behind it.
abbrev dead : (v : World) × Reach (exits 0 one_waits) v
dead = (_, next here (interrupt 1))

miner_exits_example :
    Step one_waits (exits 0 one_waits)
    × (dead.0.chain ≡ [])
    × (dead.0.system.current_block ≡ memory.current_block)
miner_exits_example = miner_exits 0 (nap_breaks 0 refl refl) others-IsIdle dead.1
