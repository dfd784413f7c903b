-- ===== src/Voting/Signals/Tests.antt =====
-- Runs of one child and the parent, and the theorems of this part at concrete inputs.
use soper.Common.{◌+◌, ◌*◌, ◌≡◌, ◌≢◌, [], ◌∷◌, ltb, if◌then◌else◌, arith, refl}
use soper.Voting
use soper.Voting.{taken, handler, must_exit, Vote, cast, accepted, rejected}
use soper.Voting.Signals.{
  reset, reading, gone, reaping, World, deliver, check, quit, read_pids, stop, kill_child, reap,
  end, opened, Reach, here, next,
}
use soper.Voting.Signals.Coarse.{view, Reach-view}
use soper.Voting.Count.{yes_votes}
use soper.Voting.Signals.Turnout.{votes_of}
use soper.Voting.Signals.Turnout.Full.{full_turnout}
use soper.Voting.Signals.Lost.{int_lost}

-- The child has read the pids and begins its loop when SIGINT comes to the parent.
abbrev begins : (s : World) × Reach 1 opened s
unfolding must_exit
begins = (
  _,
  next
      (next
        (next (next here (check 0 reading (omega arith) refl refl))
          (read_pids 0 0 (omega arith) refl (taken refl) refl))
        (check 0 reset (omega arith) refl refl))
      (stop refl),
)

int_lost_example :
    (t : World) × Reach 1 opened t
    × ((v : World) → Reach 1 t v → (v.parent ≡ reaping 0) × (v.pc 0 ≢ gone))
unfolding begins
int_lost_example = int_lost 0 begins.1 (omega arith) refl refl

Reach-view_example : Voting.Reach 1 Voting.opened (view begins.0)
Reach-view_example = Reach-view begins.1

-- SIGINT comes before the child has started.
abbrev stopped : (s : World) × Reach 1 opened s
unfolding deliver handler must_exit
stopped = (
  _,
  next
      (next
        (next (next (next here (stop refl)) (kill_child 0 refl (omega arith)))
          (quit 0 reading (omega arith) refl refl))
        (reap 0 refl refl))
      (end refl),
)

-- Three children; the second votes 'N'.
full_turnout_example :
    (t : World) × Reach 3 opened t
    × (t.file ≡ votes_of (λ i. i + 1) 3)
    × (t.printed
        ≡ (if ltb 3 (2 * yes_votes (votes_of (λ i. i + 1) 3)) then accepted else rejected) ∷ [])
full_turnout_example = full_turnout 3 (λ i. i + 1) (omega arith)

three_votes :
    votes_of (λ i. i + 1) 3
    ≡ record { pid = 0; vote = b'Y' }
      ∷ record { pid = 1; vote = b'N' }
      ∷ record { pid = 2; vote = b'Y' }
      ∷ []
unfolding votes_of cast
three_votes = refl
