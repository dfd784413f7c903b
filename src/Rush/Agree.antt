-- ===== src/Rush/Agree.antt =====
-- The mining rush of P1/Ejercicio13/miner.c and the threads of Proyecto/launch/miner_launch.c compute
-- the same solutions.
use soper.Common.{ℕ, ◌<◌, ◌≡◌, false, arith}
use soper.Pow.{pow_limit}
use soper.Mining.{Crew, Reach, done}
use soper.Mining.Outcome.{mined, Reach-mined}
use soper.Rush.{Globals, threads}
use soper.Rush.Search.{threads-covered}

-- The threads of a round of the mining rush, taken one after the other, end with the solution that
-- the threads of the network's miner end with in any interleaving, when all of these have returned:
-- both start from the same old solution, with the flag down, on the same target below POW_LIMIT and
-- with as many threads.
pub threads-Reach :
    {n t : ℕ} {c : Crew} (g : Globals)
    → t < pow_limit
    → g.magic_flag ≡ false
    → Reach n t g.pipe_data.solution c
    → ((j : ℕ) → j < n → c.pc j ≡ done)
    → (threads n t n g).pipe_data.solution ≡ c.shared.solution
unfolding mined
threads-Reach {n} {t} {c} g ht down r all =
    ground (arith, threads-covered n t g ht down, Reach-mined ht r all)
