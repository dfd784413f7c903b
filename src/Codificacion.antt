-- ===== src/Codificacion.antt =====
-- The miner, the checker and the monitor of P3/Codificacion (common.h, miner.c, monitor.c). The ring
-- between checker and monitor is `Buffer` at 6 slots and `int` counters; a ring's element is an
-- `Entry`, one slot of the three arrays.
pub mod Work
pub mod Printed
pub mod Sharing
pub mod Start
mod Tests
use soper.Common.{
  ℕ, zero, suc, ◌+◌, ◌-◌, List, [], ◌∷◌, Bool, true, false, ◌&&◌, Option, none, some, ◌==◌,
  if◌then◌else◌, ℤ, pos, negsuc, eqb_ℤ, to_int, sub_ℕ, ◌^◌,
}
use soper.Pow.{pow_limit, pow_hash}
use soper.Buffer.{State, Reach}

-- `Block`, which is all that a `MESSAGE` holds.
pub record Block : Type 0 where
  pub target : ℤ
  pub solution : ℤ
  pub flag : ℕ
  pub end : ℕ

-- The loop of `work` with `k` rounds left: the first hit.
pub search_from : ℕ → ℕ → ℕ → Option ℕ
search_from zero i goal = none
search_from (suc k) i goal =
    let rest = search_from k (i + 1) goal in
    if eqb_ℤ (pow_hash (pos i)) (pos goal) then some i else rest

-- The block that `work` fills in on a hit, and the new `globalTarget`. The solution is stored as
-- `target`, and the goal as `solution`.
abbrev pub fill_block : Block → ℕ → Option ℕ → Block × ℕ
fill_block raw goal none = (raw, goal)
fill_block raw goal (some i) =
    (record { target = pos i; solution = pow_hash (pos i); flag = 0; end = 0 }, i)

-- `work`: the block is `raw`, what `malloc` returned, if nothing is found.
unfoldable pub work : Block → ℕ → Block × ℕ
work raw goal = fill_block raw goal (search_from pow_limit 0 goal)

-- The blocks that `main` of the miner sends, with `k` rounds left; the last one is marked.
unfoldable pub generate : Block → ℕ → ℕ → List Block
generate raw zero goal = []
generate raw (suc k) goal =
    let (b, goal') = work raw goal in
    (if k == 0 then record b { end = 1 } else b) ∷ generate raw k goal'

-- One slot of `flag`, `target` and `solution` in the shared memory.
pub record Entry : Type 0 where
  pub flag : ℕ
  pub target : ℤ
  pub solution : ℤ

-- What `comprobador` writes for a block that is not the last.
unfoldable pub check : Block → Entry
check b = record {
  flag = if eqb_ℤ (pow_hash b.target) b.solution then 1 else 0;
  target = b.target;
  solution = b.solution;
}

-- -1
abbrev pub minus_one : ℤ
minus_one = negsuc 0

-- What it writes for the last block: the flag keeps the value `old` of the slot.
abbrev pub stop : ℕ → Entry
stop old = record { flag = old; target = minus_one; solution = minus_one }

-- The writes of `comprobador` for the messages received, up to the end.
unfoldable pub comprobador : ℕ → List Block → List Entry
comprobador old [] = []
comprobador old (b ∷ bs) =
    let rest = comprobador old bs in if b.end == 1 then stop old ∷ [] else check b ∷ rest

-- What `comprobador` does with the shared memory at the end, after its last write: `using`,
-- `writing`, and whether it destroys the semaphores and unlinks the memory.
unfoldable pub comprobador_end : ℕ → ℕ → ℤ × ℕ × Bool
comprobador_end using writing =
    if using == 1 then (pos using, writing + 1, true) else (sub_ℕ using 1, writing + 1 + 1, false)

pub data Line : Type 0 where
  accepted rejected : (solution target : ℤ) → Line

-- The lines that `monitor` prints for the entries it reads, which it copies to `int`s, and whether it
-- has finished.
unfoldable pub monitor : List Entry → List Line × Bool
monitor [] = ([], false)
monitor (e ∷ es) =
    let rest = monitor es in
    let target = to_int e.target in
    let solution = to_int e.solution in
    if eqb_ℤ target minus_one && eqb_ℤ solution minus_one then ([], true) else (
      (if e.flag == 1 then accepted solution target else rejected solution target) ∷ rest.0,
      rest.1,
    )

-- BUFFER_LENGTH; the counters are `int`s, which do not wrap below 2 ^ 31.
abbrev pub Reachable : List Entry → State Entry → Type 0
Reachable = Reach 6 (2 ^ 31)
