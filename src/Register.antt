-- ===== src/Register.antt =====
-- The register of a miner: the loop of `_register` (Proyecto/srclib/miner.c).
pub mod Runs
mod Tests
use soper.Common.{ℕ, ◌%◌, List, [], ◌∷◌, Bool, ◌==◌, if◌then◌else◌, u8, ltb_ℤ, pos, negsuc}
use soper.Network.{Block}
use soper.Report.{Report, wallets_from}

-- What one `read` of the pipe does: a whole block, the end of the file, or -1.
pub data Input : Type 0 where
  block : Block → Input
  closed : Input
  failed : Input

-- sizeof(Block) under the usual alignment: 8 + 8 + 8 + 4 + 100 * 8 + 3, padded to 832.
abbrev pub block_size : ℕ
block_size = 832

-- `ret` is a `uint8_t`, so the result of `read` is kept modulo 256; -1 becomes 255.
abbrev pub read_result : Input → ℕ
read_result (block _) = u8 block_size
read_result closed = 0
read_result failed = 255

-- `_block` after the read.
abbrev pub read_block : Input → Block → Block
read_block (block b) _ = b
read_block closed old = old
read_block failed old = old

-- The report of a block.
unfoldable pub register_report : Block → Report
unfolding wallets_from
register_report b =
    let num_miners = b.total_votes in
    record {
      id = b.id;
      winner = b.winner;
      target = b.target;
      solution = b.solution;
      votes = b.favorable_votes;
      out_of = num_miners;
      validated = b.favorable_votes == num_miners;
      wallets = wallets_from b.miners num_miners 0;
    }

-- How the process stands after some reads.
pub data End : Type 0 where
  running success failure : End

unfoldable pub register_loop : Block → List Input → List Report × End
register_loop old [] = ([], running)
register_loop old (x ∷ xs) =
    let rest = register_loop (read_block x old) xs in
    if read_result x == 0
    then ([], success)
    else (if ltb_ℤ (pos (read_result x)) (pos 0)
        then ([], failure)
        else (register_report (read_block x old) ∷ rest.0, rest.1))
