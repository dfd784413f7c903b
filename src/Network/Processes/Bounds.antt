-- ===== src/Network/Processes/Bounds.antt =====
-- What the miners of Proyecto/launch/miner_launch.c mine stays below POW_LIMIT.
use soper.Common.{ℕ, ◌<◌, List, [], ◌∷◌, ◌++◌, All, arith}
use soper.Pow.{pow_limit}
use soper.Pow.Solve.{preimage-lt}
use soper.Mining.Outcome.{mined}
use soper.Network.{
  System, init_block, register_miner, join_round, publish, vote, tally, new_round, leave,
}
use soper.Miners.{Miner}
use soper.Network.Processes.{
  Process, World, update, signal_voting, signal_round, Step, Reach, here, next, admit, register,
  begin, join, finish, announce, nap, count, to_register, send, renew, cast_vote, interrupt,
  suspend, nap_fails, write_fails, malloc_fails, threads_fail, shut_down,
}

-- A target and a solution below POW_LIMIT.
abbrev pub Small : ℕ → ℕ → Type 0
Small target solution = (target < pow_limit) × (solution < pow_limit)

pub record IsBounded (w : World) : Type 0 where
  pub current : Small w.system.current_block.target w.system.current_block.solution
  pub own : (k : ℕ) → Small (w.process k).target (w.process k).solution
  pub chain : All (λ b. Small b.target b.solution) w.chain

mined-lt : (n t old : ℕ) → t < pow_limit → old < pow_limit → mined n t old < pow_limit
unfolding mined
mined-lt n t old ht ho = ground (arith, preimage-lt t)

All-snoc :
    {A : Type 0} (P : A → Type 0) (xs : List A) (x : A) → All P xs → P x → All P (xs ++ (x ∷ []))
All-snoc P [] x h p = (p, tt)
All-snoc P (y ∷ ys) x h p = (h.0, All-snoc P ys x h.1 p)

Small-update :
    (f : ℕ → Process) (i : ℕ) (x : Process)
    → ((k : ℕ) → Small (f k).target (f k).solution)
    → Small x.target x.solution
    → (k : ℕ) → Small (update f i x k).target (update f i x k).solution
Small-update f i x h s k = ground (arith, h k, s)

Small-voting :
    (pids : List ℕ) (f : ℕ → Process)
    → ((k : ℕ) → Small (f k).target (f k).solution)
    → (k : ℕ) → Small (signal_voting pids f k).target (signal_voting pids f k).solution
Small-voting pids f h k = ground (arith, h k)

Small-round :
    (pids : List ℕ) (f : ℕ → Process)
    → ((k : ℕ) → Small (f k).target (f k).solution)
    → (k : ℕ) → Small (signal_round pids f k).target (signal_round pids f k).solution
Small-round pids f h k = ground (arith, h k)

Small-tally :
    (m : Miner) (s : System)
    → Small s.current_block.target s.current_block.solution
    → Small (tally m s).0.current_block.target (tally m s).0.current_block.solution
unfolding tally
Small-tally m s h = ground (arith, h)

Step-IsBounded : {u v : World} → Step u v → IsBounded u → IsBounded v
unfolding register_miner join_round publish vote new_round init_block leave
Step-IsBounded {u} (admit i _ _) h = record {
  current = h.current;
  own = Small-update u.process i _ h.own (h.own i);
  chain = h.chain;
}
Step-IsBounded {u} (register i _) h = record {
  current = h.current;
  own = Small-update u.process i _ h.own (h.own i);
  chain = h.chain;
}
Step-IsBounded {u} (begin i _ _) h = record {
  current = h.current;
  own = Small-update u.process i _ h.own (h.current.0, (h.own i).1);
  chain = h.chain;
}
Step-IsBounded {u} (join i _) h = record {
  current = h.current;
  own = Small-update u.process i _ h.own (h.own i);
  chain = h.chain;
}
Step-IsBounded {u} (finish i n _) h = record {
  current = h.current;
  own = Small-update u.process i _ h.own ((h.own i).0, mined-lt n _ _ (h.own i).0 (h.own i).1);
  chain = h.chain;
}
Step-IsBounded {u} (announce i _) h = record {
  current = (h.current.0, (h.own i).1);
  own = Small-update _ i _ (Small-voting _ u.process h.own) (h.own i);
  chain = h.chain;
}
Step-IsBounded {u} (count i _ _ _) h = record {
  current = Small-tally _ u.system h.current;
  own = Small-update u.process i _ h.own (h.own i);
  chain = h.chain;
}
Step-IsBounded {u} (renew i raw _) h = record {
  current = (h.current.1, omega arith);
  own = Small-update _ i _ (Small-round _ u.process h.own) (h.own i);
  chain = All-snoc _ u.chain u.system.current_block h.chain h.current;
}
Step-IsBounded {u} (cast_vote i _) h = record {
  current = h.current;
  own = Small-update u.process i _ h.own (h.own i);
  chain = h.chain;
}
Step-IsBounded {u} (suspend i _) h = record {
  current = h.current;
  own = Small-update u.process i _ h.own (h.own i);
  chain = h.chain;
}
Step-IsBounded {u} (interrupt i) h = record {
  current = h.current;
  own = Small-update u.process i _ h.own (h.own i);
  chain = h.chain;
}
Step-IsBounded {u} (nap_fails i _ _ _) h = record {
  current = h.current;
  own = Small-update u.process i _ h.own (h.own i);
  chain = h.chain;
}
Step-IsBounded {u} (nap i _ _ _) h = record {
  current = h.current;
  own = Small-update u.process i _ h.own (h.own i);
  chain = h.chain;
}
Step-IsBounded {u} (to_register i _) h = record {
  current = h.current;
  own = Small-update u.process i _ h.own (h.own i);
  chain = h.chain;
}
Step-IsBounded {u} (send i _) h = record {
  current = h.current;
  own = Small-update u.process i _ h.own (h.own i);
  chain = h.chain;
}
Step-IsBounded {u} (write_fails i _) h = record {
  current = h.current;
  own = Small-update u.process i _ h.own (h.own i);
  chain = h.chain;
}
Step-IsBounded {u} (malloc_fails i _ _) h = record {
  current = h.current;
  own = Small-update u.process i _ h.own (h.own i);
  chain = h.chain;
}
Step-IsBounded {u} (threads_fail i _) h = record {
  current = h.current;
  own = Small-update u.process i _ h.own (h.own i);
  chain = h.chain;
}
Step-IsBounded {u} (shut_down i _ _) h = record {
  current = h.current;
  own = Small-update u.process i _ h.own (h.own i);
  chain = h.chain;
}

-- However the miners are interleaved, the target and the solution of the current block, of every
-- block that became `last_block`, and those that each miner holds stay below POW_LIMIT if they are
-- at the start.
pub Reach-IsBounded : {w v : World} → IsBounded w → Reach w v → IsBounded v
Reach-IsBounded h here = h
Reach-IsBounded h (next r st) = Step-IsBounded st (Reach-IsBounded h r)
