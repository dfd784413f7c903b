-- ===== src/Monitor/Delivery.antt =====
-- From the checker to the printed reports.
use soper.Common.{
  ℕ, ◌≤◌, ◌≡◌, List, [], ◌∷◌, map, length, take, Option, some, none, arith, ◌∙◌, ap, All, All-take,
  refl,
}
use soper.Network.{Block}
use soper.Buffer.{State}
use soper.Buffer.Fifo.{read_in_order}
use soper.Register.{register_report}
use soper.Monitor.{Reachable, buffer_length, counter_range, monitor_loop}
use soper.Monitor.Verdict.{monitor_loop-register}

-- The blocks that the monitor has copied; a read outside the array would be lost here.
unfoldable pub copied : List (Option Block) → List Block
copied [] = []
copied (none ∷ xs) = copied xs
copied (some b ∷ xs) = b ∷ copied xs

pub copied-map : (bs : List Block) → copied (map some bs) ≡ bs
unfolding copied
copied-map [] = refl
copied-map (b ∷ bs) = ap (λ l. b ∷ l) (copied-map bs)

-- As long as the checker has written at most 256 blocks, all of them accepted, the monitor prints
-- what it has read as the register writes it: in the order of writing, each block once, none left
-- out before another.
pub printed_lem :
    {blocks : List Block} {s : State Block} (old : ℕ)
    → Reachable blocks s
    → length blocks ≡ buffer_length
    → length s.sent ≤ counter_range
    → All (λ b. b.favorable_votes ≡ b.total_votes) s.sent
    → monitor_loop old (copied s.got) ≡ map register_report (take (length s.got) s.sent)
printed_lem {s = s} old r e small good =
    let order = (read_in_order (omega arith) r e small).1 in
    let same = ap copied order ∙ copied-map (take (length s.got) s.sent) in
    rw same (
      monitor_loop-register old (take (length s.got) s.sent)
        (All-take _ (length s.got) s.sent good))
