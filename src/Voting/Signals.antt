-- ===== src/Voting/Signals.antt =====
-- The processes of P2/voting.c with their signals: `sig_recieved` of each child, what a signal does
-- to a `pause` or a `sigsuspend`, the loops of `kill`, and the parent, whose handler stops its
-- children one by one. A section under `sem_en` is one step, as in
-- `Voting`, a signal may end its `sem_wait`, and no call inside of it fails.
pub mod Coarse
pub mod Lost
pub mod Told
pub mod Reaped
pub mod Turnout
mod Tests
use soper.Common.{
  ℕ, suc, ◌+◌, ◌<◌, ◌≡◌, ◌≢◌, List, [], ◌∷◌, ◌++◌, Bool, true, false, Option, none, some, ◌==◌,
  if◌then◌else◌,
}
use soper.Voting.{
  Signal, sigint, sigalrm, sigusr1, Recieved, nothing, usr1, int, Handled, go_on, stop_all, handler,
  must_exit, Enters, Vote, cast, Verdict, announce, print,
}

-- Where a child stands.
pub data Pc : Type 0 where
  starting : Pc  -- in `work`, before its first `check_sigint`
  reading : Pc  -- before the section that reads the pids
  head : Pc  -- at the start of `loop`, before `check_sigint`
  reset : Pc  -- before `sig_recieved = 0`
  enter : Pc  -- before `sem_trywait(sem_candida)`
  lost : Pc  -- EAGAIN, before `check_sigint`
  tested : Pc  -- before `if (sig_recieved == SIGUSR1)`
  dozing : Pc  -- before `pause`
  waiting : Pc  -- in `pause`
  woken : Pc  -- behind `pause`, before `check_sigint`
  voting : Pc  -- before the section of `vote`
  drowsy : Pc  -- in `vote`, before `pause`
  voted : Pc  -- in this `pause`
  candidate : Pc  -- before `check_sigint`
  standing : Pc  -- before the section that writes the candidate's vote
  calling : ℕ → Pc  -- before the `kill` of this index
  called : Pc  -- before the `check_sigint` behind that loop
  suspended : Pc  -- in the first `sigsuspend`
  polling : Pc  -- before `check_sigint`
  looking : Pc  -- before the section that looks at the file
  napping : Pc  -- in the second `sigsuspend`
  resigning : Pc  -- before `sem_post(sem_candida)`
  dismissing : ℕ → Pc  -- before the `kill` of this index
  gone : Pc  -- it has exited by `check_sigint`

-- Where the parent stands: in `pause`, or in its handler.
pub data Parent : Type 0 where
  pausing : Parent
  killing : ℕ → Parent  -- before the `kill` of this index
  reaping : ℕ → Parent  -- in the `waitpid` of this index
  ended : Parent

pub record World : Type 0 where
  pub sem_candida : ℕ
  pub sem_en : ℕ
  pub file : List Vote
  pub printed : List Verdict
  pub pc : ℕ → Pc
  pub sig_recieved : ℕ → Recieved
  pub parent : Parent

abbrev pub put {ℓ} : {A : Type ℓ} → (ℕ → A) → ℕ → A → ℕ → A
put f i a k = if i == k then a else f k

-- A signal ends a wait. `sigsuspend` lets SIGINT and SIGALRM through only.
abbrev pub wakes : Signal → Pc → Pc
wakes _ waiting = woken
wakes _ voted = head
wakes sigint suspended = polling
wakes sigalrm suspended = polling
wakes sigint napping = resigning
wakes sigalrm napping = resigning
wakes _ p = p

-- `sig_recieved` behind the handler.
abbrev pub noted : Handled → Recieved
noted (go_on r) = r
noted stop_all = nothing

-- A signal comes to child `i`.
unfoldable pub deliver : Signal → ℕ → World → World
unfolding handler
deliver sig i s = record s {
  pc = put s.pc i (wakes sig (s.pc i));
  sig_recieved = put s.sig_recieved i (noted (handler false sig (s.sig_recieved i)));
}

abbrev pub move : World → ℕ → Pc → World
move s i p = record s { pc = put s.pc i p }

-- Where a child goes on behind a `check_sigint` outside of a section.
abbrev pub behind_check : Pc → Option Pc
behind_check starting = some reading
behind_check head = some reset
behind_check lost = some tested
behind_check woken = some voting
behind_check candidate = some standing
behind_check called = some suspended
behind_check polling = some looking
behind_check _ = none

-- The sections under `sem_en` that call `check_sigint` inside.

abbrev pub is_checked_inside : Pc → Bool
is_checked_inside reading = true
is_checked_inside standing = true
is_checked_inside voting = true
is_checked_inside _ = false

-- One step of child `i` of `n`, or of the parent. A child that has slept 1 ms or 250 ms gets SIGALRM
-- from `ualarm`.
pub data Step (n : ℕ) (s : World) : World → Type 0 where
  check :
      (i : ℕ) (p : Pc)
      → i < n
      → behind_check (s.pc i) ≡ some p
      → must_exit (s.sig_recieved i) ≡ false
      → Step n s (move s i p)
  quit :
      (i : ℕ) (p : Pc)
      → i < n
      → behind_check (s.pc i) ≡ some p
      → must_exit (s.sig_recieved i) ≡ true
      → Step n s (move s i gone)
  quit_inside :
      (i k : ℕ)
      → i < n
      → is_checked_inside (s.pc i) ≡ true
      → Enters s.sem_en k
      → must_exit (s.sig_recieved i) ≡ true
      → Step n s (record s { sem_en = k; pc = put s.pc i gone })
  read_pids :
      (i k : ℕ)
      → i < n
      → s.pc i ≡ reading
      → Enters s.sem_en k
      → must_exit (s.sig_recieved i) ≡ false
      → Step n s (record s { sem_en = k + 1; pc = put s.pc i head })
  clear :
      (i : ℕ)
      → i < n
      → s.pc i ≡ reset
      → Step n s (record s { pc = put s.pc i enter; sig_recieved = put s.sig_recieved i nothing })
  win :
      (i k : ℕ)
      → i < n
      → s.pc i ≡ enter
      → s.sem_candida ≡ suc k
      → Step n s (record s { sem_candida = k; pc = put s.pc i candidate })
  lose : (i : ℕ) → i < n → s.pc i ≡ enter → s.sem_candida ≡ 0 → Step n s (move s i lost)
  test_usr1 :
      (i : ℕ) → i < n → s.pc i ≡ tested → s.sig_recieved i ≡ usr1 → Step n s (move s i voting)
  test_other :
      (i : ℕ) → i < n → s.pc i ≡ tested → s.sig_recieved i ≢ usr1 → Step n s (move s i dozing)
  pause : (i : ℕ) → i < n → s.pc i ≡ dozing → Step n s (move s i waiting)
  write_vote :
      (i rand k : ℕ)
      → i < n
      → s.pc i ≡ voting
      → Enters s.sem_en k
      → must_exit (s.sig_recieved i) ≡ false
      → Step n s
          (record s { sem_en = k + 1; file = s.file ++ (cast i rand ∷ []); pc = put s.pc i drowsy })
  pause_voted : (i : ℕ) → i < n → s.pc i ≡ drowsy → Step n s (move s i voted)
  stand :
      (i rand k : ℕ)
      → i < n
      → s.pc i ≡ standing
      → Enters s.sem_en k
      → must_exit (s.sig_recieved i) ≡ false
      → Step n s (record s {
        sem_en = k + 1;
        file = s.file ++ (cast i rand ∷ []);
        pc = put s.pc i (calling 0);
      })
  call :
      (i j : ℕ)
      → i < n
      → s.pc i ≡ calling j
      → j < n
      → Step n s (deliver sigusr1 j (move s i (calling (j + 1))))
  call_end : (i : ℕ) → i < n → s.pc i ≡ calling n → Step n s (move s i called)
  alarm : (i : ℕ) → i < n → s.pc i ≡ suspended → Step n s (deliver sigalrm i s)
  look :
      (i k : ℕ)
      → i < n
      → s.pc i ≡ looking
      → Enters s.sem_en k
      → Step n s (record s {
        sem_en = k + 1;
        printed = print (announce n s.file) s.printed;
        pc = put s.pc i napping;
      })
  alarm_napping : (i : ℕ) → i < n → s.pc i ≡ napping → Step n s (deliver sigalrm i s)
  resign :
      (i : ℕ)
      → i < n
      → s.pc i ≡ resigning
      → Step n s (record s { sem_candida = s.sem_candida + 1; pc = put s.pc i (dismissing 0) })
  dismiss :
      (i j : ℕ)
      → i < n
      → s.pc i ≡ dismissing j
      → j < n
      → Step n s (deliver sigusr1 j (move s i (dismissing (j + 1))))
  dismiss_end : (i : ℕ) → i < n → s.pc i ≡ dismissing n → Step n s (move s i head)
  -- SIGINT or SIGALRM comes to the parent.
  stop : s.parent ≡ pausing → Step n s (record s { parent = killing 0 })
  kill_child :
      (i : ℕ)
      → s.parent ≡ killing i
      → i < n
      → Step n s (deliver sigint i (record s { parent = reaping i }))
  reap :
      (i : ℕ)
      → s.parent ≡ reaping i
      → s.pc i ≡ gone
      → Step n s (record s { parent = killing (i + 1) })
  end : s.parent ≡ killing n → Step n s (record s { parent = ended })

abbrev pub opened : World
opened = record {
  sem_candida = 1;
  sem_en = 1;
  file = [];
  printed = [];
  pc = λ _. starting;
  sig_recieved = λ _. nothing;
  parent = pausing;
}

pub data Reach (n : ℕ) (s : World) : World → Type 0 where
  here : Reach n s s
  next : {t u : World} → Reach n s t → Step n t u → Reach n s u
