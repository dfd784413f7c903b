-- ===== src/Monitor/Tests.antt =====
-- The theorems of this part at concrete inputs.
use soper.Common.{◌≡◌, [], ◌∷◌, map, true, replicate, refl}
use soper.Miners.{blank}
use soper.Network.{Block, raw_block}
use soper.Buffer.{
  write, read, State, begin, next, receive, take_empty, writer_lock, write_block, writer_unlock,
  post_fill, take_fill, reader_lock, read_block,
}
use soper.Monitor.{Reachable, monitor_report, monitor_loop}
use soper.Monitor.Delivery.{copied}

abbrev old : Block
old = raw_block (replicate 100 blank)

abbrev accepted_block : Block
accepted_block = record old { id = 4; num_voters = 2; total_votes = 2; favorable_votes = 2 }

-- Two of three voters agreed.
abbrev rejected_block : Block
rejected_block = record old { id = 5; num_voters = 3; total_votes = 3; favorable_votes = 2 }

-- The rejected block is printed as validated after an accepted one with two votes.
monitor_runs :
    map (λ r. r.validated) (monitor_loop 0 (accepted_block ∷ rejected_block ∷ []))
    ≡ true ∷ true ∷ []
unfolding monitor_loop monitor_report
monitor_runs = refl

abbrev passed : (s : State Block) × Reachable (replicate 10 old) s
passed = (
  _,
  next
      (next
        (next
          (next
            (next
              (next
                (next
                  (next (next begin (receive accepted_block refl))
                    (take_empty accepted_block 9 refl refl))
                  (writer_lock accepted_block 0 refl refl))
                (write_block accepted_block refl))
              (writer_unlock refl))
            (post_fill refl))
          (take_fill 0 refl refl))
        (reader_lock 0 refl refl))
      (read_block refl),
)

passed_runs : copied passed.0.got ≡ accepted_block ∷ []
unfolding write read copied
passed_runs = refl
