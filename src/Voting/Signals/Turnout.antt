-- ===== src/Voting/Signals/Turnout.antt =====
-- A round of the voting in which all children vote once: they pause before the candidate calls, and
-- are woken by its signals.
pub mod Settling
pub mod Calls
pub mod Full
use soper.Common.{
  ℕ, zero, suc, ◌+◌, ◌*◌, ◌<◌, ◌≤◌, ◌≡◌, ◌≢◌, ◌==◌, List, [], ◌∷◌, ◌++◌, Bool, true, false, some,
  arith, refl, subst, ap, sym, ◌∙◌, length, length-append, ltb, ℕ_discrete, if◌then◌else◌,
}
use soper.Voting.{
  taken, sigalrm, sigusr1, Recieved, nothing, usr1, int, handler, must_exit, Vote, cast, Verdict,
  accepted, rejected, announce, print,
}
use soper.Voting.Count.{yes_votes, announce_lem}
use soper.Voting.Signals.Lost.{put_self, unaware-noted}
use soper.Voting.Signals.{
  Pc, starting, reading, head, reset, enter, lost, tested, dozing, waiting, woken, voting, drowsy,
  voted, candidate, standing, calling, called, suspended, polling, looking, napping, World, put,
  wakes, noted, deliver, move, behind_check, Step, check, read_pids, clear, win, lose, test_other,
  pause, write_vote, pause_voted, stand, call, call_end, alarm, look, opened, Reach, here, next,
}

pub Reach-trans : {n : ℕ} {s t u : World} → Reach n s t → Reach n t u → Reach n s u
Reach-trans r here = r
Reach-trans r (next q st) = next (Reach-trans r q) st

-- The votes of the first children, from what `rand` returns to each.
unfoldable pub votes_of : (ℕ → ℕ) → ℕ → List Vote
votes_of rand zero = []
votes_of rand (suc k) = votes_of rand k ++ (cast k (rand k) ∷ [])

pub length-votes_of : (rand : ℕ → ℕ) (k : ℕ) → length (votes_of rand k) ≡ k
unfolding votes_of
length-votes_of rand zero = refl
length-votes_of rand (suc k) =
    omega (arith, length-append (votes_of rand k) (cast k (rand k) ∷ []), length-votes_of rand k)

pub put_ne : {A : Type 0} (f : ℕ → A) (i j : ℕ) (a : A) → i ≢ j → put f i a j ≡ f j
put_ne f i j a h = ground arith

-- Child 0 is the candidate, and the children from 1 to `k` pause; the others have not started.
pub record Settled (k : ℕ) (s : World) : Type 0 where
  pub sem_candida : s.sem_candida ≡ 0
  pub sem_en : s.sem_en ≡ 1
  pub file : s.file ≡ []
  pub printed : s.printed ≡ []
  pub first : s.pc 0 ≡ standing
  pub paused : (i : ℕ) → 0 < i → i < k → s.pc i ≡ waiting
  pub fresh : (i : ℕ) → k ≤ i → s.pc i ≡ starting
  pub quiet : (i : ℕ) → s.sig_recieved i ≡ nothing

-- The candidate has voted and called the children below `k`.
pub record Called (rand : ℕ → ℕ) (n k : ℕ) (s : World) : Type 0 where
  pub sem_en : s.sem_en ≡ 1
  pub file : s.file ≡ votes_of rand 1
  pub printed : s.printed ≡ []
  pub first : s.pc 0 ≡ calling k
  pub up : (i : ℕ) → 0 < i → i < k → s.pc i ≡ woken
  pub paused : (i : ℕ) → 0 < i → k ≤ i → i < n → s.pc i ≡ waiting
  pub unaware : (i : ℕ) → must_exit (s.sig_recieved i) ≡ false

-- The candidate waits, and the children below `k` have voted.
pub record Voted (rand : ℕ → ℕ) (n k : ℕ) (s : World) : Type 0 where
  pub sem_en : s.sem_en ≡ 1
  pub file : s.file ≡ votes_of rand k
  pub printed : s.printed ≡ []
  pub first : s.pc 0 ≡ suspended
  pub up : (i : ℕ) → 0 < i → k ≤ i → i < n → s.pc i ≡ woken
  pub unaware : (i : ℕ) → must_exit (s.sig_recieved i) ≡ false
