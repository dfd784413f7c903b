-- ===== src/Miners.antt =====
-- The array of miners: `Miner`, `find_miner_index` and `delete_miner` (Proyecto/includes/miner.h,
-- Proyecto/srclib/miner.c).
pub mod Find
pub mod Delete
mod Tests
use soper.Common.{
  ℕ, zero, suc, ◌+◌, ◌-◌, List, not, get_or, set, ◌==◌, if◌then◌else◌, u8, u8_dec, eqb_ℤ, pos,
  negsuc,
}

-- MAX_MINERS, the length of each array of miners
abbrev pub max_miners : ℕ
max_miners = 100

-- `Miner`. A `short` is its 16-bit pattern.
pub record Miner : Type 0 where
  pub pid : ℕ
  pub coins : ℕ

-- An entry that no miner has filled in; it also stands for what lies behind the array.
abbrev pub blank : Miner
blank = record { pid = 0; coins = 0 }

-- The loop of `find_miner_index` with `k` rounds left. -1 as a `uint8_t` is 255.
unfoldable pub find_from : List Miner → ℕ → ℕ → ℕ → ℕ
find_from miners zero i pid = 255
find_from miners (suc k) i pid =
    let rest = find_from miners k (u8 (i + 1)) pid in
    if (get_or miners i blank).pid == pid then i else rest

unfoldable pub find_miner_index : List Miner → ℕ → ℕ → ℕ
find_miner_index miners num_miners pid = find_from miners num_miners 0 pid

-- The loop of `delete_miner` with `k` rounds left.
unfoldable pub shift_from : List Miner → ℕ → ℕ → List Miner
shift_from miners zero i = miners
shift_from miners (suc k) i = shift_from (set miners i (get_or miners (i + 1) blank)) k (u8 (i + 1))

-- `index != -1` compares as `int`, so a `uint8_t` always passes it. The bound `*num_miners - 1` is
-- an `int` too: at 0 miners the loop does not run.
unfoldable pub delete_miner : List Miner → ℕ → ℕ → List Miner × ℕ
delete_miner miners num_miners pid =
    let index = find_miner_index miners num_miners pid in
    if not (eqb_ℤ (pos index) (negsuc 0))
    then (shift_from miners (num_miners - 1 - index) index, u8_dec num_miners)
    else (miners, num_miners)
