-- ===== src/Network/Samples.antt =====
-- Two miners, a block and a mined solution, for the tests.
use soper.Common.{ℕ, ◌<◌, ◌≡◌, List, ◌∷◌, replicate, arith, refl}
use soper.Pow.{pow_hash}
use soper.Pow.Solve.{preimage}
use soper.Mining.{Crew, begin, pick, turn, created, done, work_step}
use soper.Mining.Slices.{covered}
use soper.Miners.{Miner, blank}
use soper.Network.{Block, System, raw_block}
use soper.Network.Round.{IsFresh}
use soper.Network.Consensus.{Mined}

abbrev pub ann : Miner
ann = record { pid = 11; coins = 3 }

abbrev pub bob : Miner
bob = record { pid = 12; coins = 0 }

abbrev pub blanks : List Miner
blanks = replicate 100 blank

abbrev pub fresh_block : Block
fresh_block = record (raw_block blanks) { id = 4; target = 4150 }

-- Two miners, and a block to be mined whose target the candidate 0 solves.
abbrev pub two : System
two = record {
  miners = ann ∷ bob ∷ replicate 98 blank;
  num_miners = 2;
  last_block = raw_block blanks;
  current_block = fresh_block;
  monitor_up = 1;
}

pub fresh_block-IsFresh : IsFresh fresh_block
fresh_block-IsFresh = record {
  voters = refl;
  total = refl;
  winner = refl;
  favorable = refl;
  room = refl;
}

-- A thread that hits at once.
abbrev pub crew : Crew
crew = turn 1 4150 (turn 1 4150 (turn 1 4150 (created 1 7) 0) 0) 0

crew-done : (j : ℕ) → j < 1 → crew.pc j ≡ done
unfolding turn work_step pow_hash
crew-done j h = ground arith

reached_0 : preimage 4150 < covered 1
unfolding preimage
reached_0 = omega arith

found_0 : ◌≡◌ {A = ℕ} 0 crew.shared.solution
unfolding turn work_step pow_hash
found_0 = refl

pub Mined-0 : Mined 4150 0
Mined-0 = record {
  nthreads = 1;
  old = 7;
  crew = crew;
  reach = pick 0 (omega arith) (pick 0 (omega arith) (pick 0 (omega arith) begin));
  back = crew-done;
  reached = reached_0;
  result = found_0;
}
