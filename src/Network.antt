-- ===== src/Network.antt =====
-- The shared memory of the miners and the protected sections of a miner's `main`
-- (Proyecto/includes/miner.h, Proyecto/srclib/miner.c, Proyecto/launch/miner_launch.c).
-- A section between `sem_wait` and `sem_post` of the mutex is one function on the shared memory.
-- `kill` appears as the list of the pids that a section signals, in order.
pub mod Signals
pub mod Votes
pub mod Round
pub mod Consensus
pub mod Polling
pub mod Races
pub mod Members
pub mod Processes
pub mod Samples
pub mod Mutex
mod Tests
use soper.Common.{
  Option, none, some, ℕ, zero, suc, ◌+◌, ◌-◌, List, [], ◌∷◌, Bool, true, false, not, ◌&&◌, get_or,
  set, replicate, ◌==◌, if◌then◌else◌, u8, i16,
}
use soper.Miners.{Miner, blank, max_miners, delete_miner}

-- `Block`. `id` is a `short`, the three counts are `uint8_t`s. Targets and solutions are never
-- negative: each is 0 or a mining candidate.
pub record Block : Type 0 where
  pub id : ℕ
  pub target : ℕ
  pub solution : ℕ
  pub winner : ℕ
  pub miners : List Miner
  pub num_voters : ℕ
  pub total_votes : ℕ
  pub favorable_votes : ℕ

-- `System`; the mutex is in how the sections are composed.
pub record System : Type 0 where
  pub miners : List Miner
  pub num_miners : ℕ
  pub last_block : Block
  pub current_block : Block
  pub monitor_up : ℕ

-- `init_block` leaves the list of miners of the block as it finds it. Its `target` is an `int`, which
-- holds every solution: they are below POW_LIMIT.
unfoldable pub init_block : Block → ℕ → ℕ → Block
init_block block last_id target = record block {
  id = i16 (last_id + 1);
  target = target;
  solution = 0;
  winner = 0;
  total_votes = 0;
  favorable_votes = 0;
  num_voters = 0;
}

-- `Block first_block;` and `Block new_block;` are not initialised before `init_block`: what the
-- array holds is an argument.
abbrev pub raw_block : List Miner → Block
raw_block miners = record {
  id = 0;
  target = 0;
  solution = 0;
  winner = 0;
  miners = miners;
  num_voters = 0;
  total_votes = 0;
  favorable_votes = 0;
}

-- The new miner is logged into the system. `miners[100]` is where `num_miners` stands, which takes
-- the first byte of the pid; what a write further behind does to the blocks is left out.
unfoldable pub register_miner : Miner → System → System
register_miner this_miner s = record s {
  miners = set s.miners s.num_miners this_miner;
  num_miners = u8 ((if s.num_miners == max_miners then u8 this_miner.pid else s.num_miners) + 1);
}

-- The loops around `kill`, with `k` rounds left: all but this miner are signalled.
unfoldable pub kill_from : List Miner → ℕ → ℕ → ℕ → List ℕ
kill_from miners pid zero i = []
kill_from miners pid (suc k) i =
    let rest = kill_from miners pid k (u8 (i + 1)) in
    if not ((get_or miners i blank).pid == pid) then (get_or miners i blank).pid ∷ rest else rest

-- The first miner ever installs the first block; its last id is the `short` -1.
unfoldable pub start_first_round : List Miner → Miner → System → System × List ℕ
unfolding init_block kill_from
start_first_round raw this_miner s = (
  record s { current_block = init_block (raw_block raw) 65535 0 },
  kill_from s.miners this_miner.pid s.num_miners 0,
)

-- A miner that will mine the current block is one of its voters. What a write behind the array does
-- to the counts of the block, and to the mutex behind them, is left out.
unfoldable pub join_round : Miner → System → System
join_round this_miner s = record s {
  current_block = record b {
    miners = set b.miners b.num_voters this_miner;
    num_voters = u8 (b.num_voters + 1);
  };
}
  where
    b : Block
    b = s.current_block

-- The first to finish publishes its solution, signals the voters and votes for itself.
unfoldable pub publish : Miner → ℕ → System → System × List ℕ
unfolding kill_from
publish this_miner solution s = (
  record s {
    current_block = record b {
      solution = solution;
      total_votes = u8 (b.total_votes + 1);
      favorable_votes = u8 (b.favorable_votes + 1);
    };
  },
  kill_from b.miners this_miner.pid b.num_voters 0,
)
  where
    b : Block
    b = s.current_block

-- Another miner votes for the published solution.
unfoldable pub vote : ℕ → System → System
vote own s = record s {
  current_block = record b {
    favorable_votes = if b.solution == own then u8 (b.favorable_votes + 1) else b.favorable_votes;
    total_votes = u8 (b.total_votes + 1);
  };
}
  where
    b : Block
    b = s.current_block

-- The test of the loop in which the winner waits for the votes.
abbrev pub keep_waiting : Block → ℕ → Bool
keep_waiting b voting = not (b.total_votes == b.num_voters) && not (voting == 5)

-- How the wait for the votes ends: by its test after some naps, or by `exit(EXIT_FAILURE)` when a
-- signal interrupts a nap.
pub data Wait : Type 0 where
  over : (voting : ℕ) → Wait
  interrupted : (voting : ℕ) → Wait

-- The loop in which the winner waits: its test finds the block as `seen 0`, `seen 1`, …, and
-- `woken k` tells that `nanosleep` number `k` fails. The first argument is fuel.
unfoldable pub wait_votes : ℕ → (ℕ → Block) → (ℕ → Bool) → ℕ → Option Wait
wait_votes zero seen woken voting = none
wait_votes (suc fuel) seen woken voting =
    let rest = wait_votes fuel seen woken (u8 (voting + 1)) in
    if keep_waiting (seen voting) voting
    then (if woken voting then some (interrupted voting) else rest)
    else some (over voting)

-- When the voting is over: if every vote was favorable, this miner is the winner and gets a coin.
unfoldable pub tally : Miner → System → System × Miner
tally this_miner s =
    if b.total_votes == b.favorable_votes
    then (
      record s { current_block = record b { winner = this_miner.pid } },
      record this_miner { coins = i16 (this_miner.coins + 1) },
    )
    else (s, this_miner)
  where
    b : Block
    b = s.current_block

-- The current block becomes the last one, and a new block takes its solution as target.
unfoldable pub new_round : List Miner → Miner → System → System × List ℕ
unfolding init_block kill_from
new_round raw this_miner s = (
  record s {
    last_block = s.current_block;
    current_block = init_block (raw_block raw) s.current_block.id s.current_block.solution;
  },
  kill_from s.miners this_miner.pid s.num_miners 0,
)

-- At shutdown the miner is deleted; the result tells the last one, which destroys the mutex.
unfoldable pub leave : Miner → System → System × Bool
unfolding delete_miner
leave this_miner s =
    let (miners, num_miners) = delete_miner s.miners s.num_miners this_miner.pid in
    (record s { miners = miners; num_miners = num_miners }, s.num_miners == 1)
