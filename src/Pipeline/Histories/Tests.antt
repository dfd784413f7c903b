-- ===== src/Pipeline/Histories/Tests.antt =====
-- A history of two miners that is one honest round.
use soper.Common.{ℕ, ◌≡◌, [], ◌∷◌, All, false, refl, arith, ◌==◌, if◌then◌else◌}
use soper.Network.{join_round, publish, tally}
use soper.Network.Samples.{ann, bob, blanks, two, fresh_block-IsFresh, Mined-0}
use soper.Network.Processes.{
  Process, World, Reach, here, next, publishing, joining, join, announce, count, to_register, send,
  renew,
}
use soper.Network.Processes.Sections.{sections, section_of}
use soper.Network.Processes.OneWinner.{Counted, Voting, OneRound}
use soper.Pipeline.{Round, sent_blocks}
use soper.Pipeline.Honest.{AllHonest, Accepted}
use soper.Pipeline.Links.{after_rounds}
use soper.Pipeline.Histories.{Rounds, over, round, history-Accepted}

-- Miner 0 has found the solution, and miner 1 is about to join.
abbrev process : ℕ → Process
process k = record {
  this_miner = if k == 0 then ann else bob;
  phase = if k == 0 then publishing else joining;
  sigusr2_received = false;
  shutdown = false;
  allocated = false;
  target = 4150;
  solution = 0;
}

abbrev before : World
before = record { system = two; process = process; chain = [] }

abbrev after : (v : World) × Reach before v
unfolding join_round publish tally
after = (
  _,
  next
      (next
        (next (next (next (next here (join 1 refl)) (announce 0 refl)) (count 0 0 refl refl))
          (to_register 0 refl))
        (send 0 refl))
      (renew 0 blanks refl),
)

abbrev bob_joins : Round
bob_joins = record { raw = blanks; voters = bob ∷ []; winner = ann; solution = 0; votes = [] }

after-Rounds : Rounds (bob_joins ∷ []) (sections after.1)
unfolding sections section_of after
after-Rounds =
    round bob_joins
      (OneRound.joined _
        (OneRound.published (Voting.counted (Counted.idle (Counted.idle (Counted.renewed _))))))
      over

honest : AllHonest (bob_joins ∷ []) two
honest =
    (record { full = refl; few = omega arith; fewer = omega arith; own = Mined-0; others = tt }, tt)

history-Accepted_example :
    (after.0.chain ≡ sent_blocks (bob_joins ∷ []) two)
    × All Accepted (sent_blocks (bob_joins ∷ []) two)
    × (after.0.system ≡ after_rounds (bob_joins ∷ []) two)
history-Accepted_example =
    history-Accepted after.1 after-Rounds fresh_block-IsFresh (omega arith) honest
