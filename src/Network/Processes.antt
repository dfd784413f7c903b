-- ===== src/Network/Processes.antt =====
-- The processes of the network over their shared memory, interleaved: `main` of
-- Proyecto/launch/miner_launch.c. A section under the mutex is one step; what the code reads
-- outside of a section is a step of its own. `sem_wait` is taken to return only with the semaphore.
-- The steps are those of a system whose first block is installed; Boot has the first miner.
pub mod Sections
pub mod OneWinner
pub mod Late
pub mod Idle
pub mod Progress
pub mod Chain
pub mod Boot
pub mod Waits
pub mod Moves
pub mod Winners
pub mod Crowd
pub mod Rounds
pub mod Bounds
pub mod Room
mod Tests
use soper.Common.{
  ℕ, ◌+◌, ◌≡◌, ◌≢◌, List, [], ◌∷◌, ◌++◌, Bool, true, false, ◌||◌, ◌==◌, if◌then◌else◌, u8,
}
use soper.Miners.{Miner, max_miners}
use soper.Mining.Outcome.{mined}
use soper.Network.{
  Block, System, register_miner, join_round, publish, vote, tally, new_round, leave, keep_waiting,
}

-- Where a miner stands in `main`.
pub data Phase : Type 0 where
  outside : Phase  -- before it looks at `num_miners`
  admitted : Phase  -- before it is logged into the system
  loop_head : Phase  -- before `while(!shutdown)`, and the first time before the `malloc`s
  joining : Phase  -- before it becomes a voter of the block
  mining : Phase  -- until its threads are joined
  publishing : Phase  -- `sigusr2_received` was 0
  waiting : ℕ → Phase  -- in the loop that waits for the votes, with `_voting`, which is 0 elsewhere
  writing : Phase  -- before it writes the block to its register
  sending : Phase  -- in `send_queue`
  renewing : Phase  -- before it starts the next round
  voting : Phase  -- `sigusr2_received` was not 0
  suspending : Phase  -- before `sigsuspend`
  suspended : Phase  -- in `sigsuspend`, for SIGUSR1
  gone : Phase

-- One miner: the variables of its process.
pub record Process : Type 0 where
  pub this_miner : Miner
  pub phase : Phase
  pub sigusr2_received : Bool
  pub shutdown : Bool
  pub target : ℕ
  pub solution : ℕ
  pub allocated : Bool  -- both `malloc`s, behind the first wait, have succeeded

-- The shared memory and the processes. `chain` lists the blocks that became `last_block`, in order;
-- the program keeps no such list.
pub record World : Type 0 where
  pub system : System
  pub process : ℕ → Process
  pub chain : List Block

-- Process `i` becomes `p`.
abbrev pub update : (ℕ → Process) → ℕ → Process → ℕ → Process
update f i p k = if i == k then p else f k

abbrev pub is_among : ℕ → List ℕ → Bool
is_among pid [] = false
is_among pid (x ∷ xs) = (x == pid) || is_among pid xs

-- SIGUSR2 reaches the processes with these pids.
abbrev pub signal_voting : List ℕ → (ℕ → Process) → ℕ → Process
signal_voting pids f k =
    if is_among (f k).this_miner.pid pids then record (f k) { sigusr2_received = true } else f k

abbrev pub resume : Phase → Phase
resume suspended = loop_head
resume p = p

-- SIGUSR1 ends the `sigsuspend` of the processes with these pids; elsewhere it is lost.
abbrev pub signal_round : List ℕ → (ℕ → Process) → ℕ → Process
signal_round pids f k =
    if is_among (f k).this_miner.pid pids then record (f k) { phase = resume (f k).phase } else f k

-- The branch that a miner takes when its threads are joined.
abbrev pub branch : Bool → Phase
branch received = if received then voting else publishing

-- Behind the `write` to the register: the block is sent on if the monitor is up.
abbrev pub behind_write : ℕ → Phase
behind_write monitor_up = if monitor_up == 1 then sending else renewing

-- One step of process `i`. SIGINT and SIGALRM may come at any time. The test of the loop that waits
-- for the votes is a step with what follows it, a nap or `tally`.
pub data Step (w : World) : World → Type 0 where
  admit :
      (i : ℕ)
      → (w.process i).phase ≡ outside
      → w.system.num_miners ≢ max_miners
      → Step w
          (record w { process = update w.process i (record (w.process i) { phase = admitted }) })
  register :
      (i : ℕ)
      → (w.process i).phase ≡ admitted
      → Step w (record w {
        system = register_miner (w.process i).this_miner w.system;
        process = update w.process i (record (w.process i) { phase = suspending });
      })
  begin :
      (i : ℕ)
      → (w.process i).phase ≡ loop_head
      → (w.process i).shutdown ≡ false
      → Step w (record w {
        process = update w.process i (record (w.process i) {
          phase = joining;
          allocated = true;
          sigusr2_received = false;
          target = w.system.current_block.target;
        });
      })
  join :
      (i : ℕ)
      → (w.process i).phase ≡ joining
      → Step w (record w {
        system = join_round (w.process i).this_miner w.system;
        process = update w.process i (record (w.process i) { phase = mining });
      })
  finish :
      (i nthreads : ℕ)
      → (w.process i).phase ≡ mining
      → Step w (record w {
        process = update w.process i (record (w.process i) {
          phase = branch (w.process i).sigusr2_received;
          solution = mined nthreads (w.process i).target (w.process i).solution;
        });
      })
  announce :
      (i : ℕ)
      → (w.process i).phase ≡ publishing
      → Step w (record w {
        system = (publish (w.process i).this_miner (w.process i).solution w.system).0;
        process =
            update
              (signal_voting
                (publish (w.process i).this_miner (w.process i).solution w.system).1
                w.process)
              i
              (record (w.process i) { phase = waiting 0 });
      })
  nap :
      (i voting : ℕ)
      → (w.process i).phase ≡ waiting voting
      → keep_waiting w.system.current_block voting ≡ true
      → Step w (record w {
        process = update w.process i (record (w.process i) { phase = waiting (u8 (voting + 1)) });
      })
  count :
      (i voting : ℕ)
      → (w.process i).phase ≡ waiting voting
      → keep_waiting w.system.current_block voting ≡ false
      → Step w (record w {
        system = (tally (w.process i).this_miner w.system).0;
        process = update w.process i (record (w.process i) {
          phase = writing;
          this_miner = (tally (w.process i).this_miner w.system).1;
        });
      })
  to_register :
      (i : ℕ)
      → (w.process i).phase ≡ writing
      → Step w (record w {
        process =
            update w.process i (record (w.process i) { phase = behind_write w.system.monitor_up });
      })
  -- `send_queue` returns: the block is in the queue, a call has failed, or a signal has ended the
  -- wait for room in it.
  send :
      (i : ℕ)
      → (w.process i).phase ≡ sending
      → Step w
          (record w { process = update w.process i (record (w.process i) { phase = renewing }) })
  renew :
      (i : ℕ) (raw : List Miner)
      → (w.process i).phase ≡ renewing
      → Step w (record w {
        system = (new_round raw (w.process i).this_miner w.system).0;
        process =
            update
              (signal_round (new_round raw (w.process i).this_miner w.system).1 w.process)
              i
              (record (w.process i) { phase = loop_head });
        chain = w.chain ++ (w.system.current_block ∷ []);
      })
  cast_vote :
      (i : ℕ)
      → (w.process i).phase ≡ voting
      → Step w (record w {
        system = vote (w.process i).solution w.system;
        process = update w.process i (record (w.process i) { phase = suspending });
      })
  suspend :
      (i : ℕ)
      → (w.process i).phase ≡ suspending
      → Step w
          (record w { process = update w.process i (record (w.process i) { phase = suspended }) })
  interrupt :
      (i : ℕ)
      → Step w (record w {
        process =
            update w.process i
              (record (w.process i) { shutdown = true; phase = resume (w.process i).phase });
      })
  nap_fails :
      (i voting : ℕ)
      → (w.process i).phase ≡ waiting voting
      → keep_waiting w.system.current_block voting ≡ true
      → Step w (record w { process = update w.process i (record (w.process i) { phase = gone }) })
  -- The block cannot be written to the register.
  write_fails :
      (i : ℕ)
      → (w.process i).phase ≡ writing
      → Step w (record w { process = update w.process i (record (w.process i) { phase = gone }) })
  -- A `malloc` in front of the loop fails. The miner stays in the table.
  malloc_fails :
      (i : ℕ)
      → (w.process i).phase ≡ loop_head
      → (w.process i).allocated ≡ false
      → Step w (record w { process = update w.process i (record (w.process i) { phase = gone }) })
  -- A thread cannot be created or joined. The miner stays in the table and among the voters;
  -- `sem_destroy` is taken to leave the mutex as it is.
  threads_fail :
      (i : ℕ)
      → (w.process i).phase ≡ mining
      → Step w (record w { process = update w.process i (record (w.process i) { phase = gone }) })
  shut_down :
      (i : ℕ)
      → (w.process i).phase ≡ loop_head
      → (w.process i).shutdown ≡ true
      → Step w (record w {
        system = (leave (w.process i).this_miner w.system).0;
        process = update w.process i (record (w.process i) { phase = gone });
      })

-- What any interleaving reaches.
pub data Reach (w : World) : World → Type 0 where
  here : Reach w w
  next : {u v : World} → Reach w u → Step u v → Reach w v
