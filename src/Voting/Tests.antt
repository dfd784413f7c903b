-- ===== src/Voting/Tests.antt =====
-- Runs of the votes, and the theorems of this part at concrete inputs.
use soper.Common.{
  ℕ, ◌*◌, ◌≡◌, List, [], ◌∷◌, some, none, true, false, ltb, if◌then◌else◌, arith, refl,
}
use soper.Voting.Stuck.{ExitsInside-frozen}
use soper.Voting.Stuffing.{ballot_stuffing}
use soper.Voting.{
  Signal, Recieved, Handled, handler, Vote, count_from, accepted, rejected, announce, Pc, Election,
  Reach, here, next, win, stand, look, resign, read_pids, quit_inside, quit, cast, Step, opened,
  taken,
}
use soper.Voting.Candidate.{one_candidate}
use soper.Voting.Count.{yes_votes}

handler_runs :
    (handler false Signal.sigusr1 Recieved.int ≡ Handled.go_on Recieved.int)
    × (handler false Signal.sigint Recieved.usr1 ≡ Handled.go_on Recieved.int)
    × (handler true Signal.sigalrm Recieved.nothing ≡ Handled.stop_all)
unfolding handler
handler_runs = (refl, refl, refl)

abbrev ballots : List Vote
ballots =
    record { pid = 1; vote = b'Y' }
    ∷ record { pid = 2; vote = b'N' }
    ∷ record { pid = 3; vote = b'Y' }
    ∷ []

announce_runs : (announce 3 ballots ≡ some accepted) × (announce 2 ballots ≡ none)
unfolding announce count_from
announce_runs = (refl, refl)

-- Process 0 becomes the candidate and votes.
abbrev stood : (t : Election) × Reach 2 opened t
stood = (
  _,
  next
      (next (next here (read_pids 0 0 (omega arith) refl (taken refl)))
        (win 0 0 (omega arith) refl refl))
      (stand 0 1 0 (omega arith) refl (taken refl)),
)

one_candidate_example : ◌≡◌ {A = ℕ} 0 0
one_candidate_example = one_candidate stood.1 0 0 refl refl

-- Two processes and three votes in the file.
abbrev second_round : Election
second_round = record {
  sem_candida = 0;
  sem_en = 1;
  file = ballots;
  printed = accepted ∷ [];
  pc = λ i. if ltb i 1 then Pc.polling else Pc.voted;
}

abbrev looked : (t : Election) × Reach 2 second_round t
looked =
    (_, next (next here (look 0 0 (omega arith) refl (taken refl))) (resign 0 (omega arith) refl))

-- SIGINT makes process 1 exit before it reads the pids.
abbrev unlucky : (t : Election) × Step 2 stood.0 t
unlucky = (_, quit_inside 1 0 (omega arith) refl (taken refl))

-- Process 0 exits then.
abbrev after_unlucky : (u : Election) × Reach 2 unlucky.0 u
after_unlucky = (_, next here (quit 0 (omega arith) refl))

ExitsInside-frozen_example : (after_unlucky.0.file ≡ cast 0 1 ∷ []) × (after_unlucky.0.printed ≡ [])
ExitsInside-frozen_example =
    ExitsInside-frozen stood.1 (((tt, tt), tt), tt) unlucky.1 tt tt after_unlucky.1 (tt, tt)

ballot_stuffing_example :
    (t : Election) × Reach 2 opened t
    × (t.file ≡ cast 0 1 ∷ cast 0 3 ∷ [])
    × (t.printed
        ≡ (if ltb 2 (2 * yes_votes (cast 0 1 ∷ cast 0 3 ∷ [])) then accepted else rejected) ∷ [])
ballot_stuffing_example = ballot_stuffing 2 (1 ∷ []) 3 refl
