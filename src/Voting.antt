-- ===== src/Voting.antt =====
-- The voting system of P2/voting.c: signals, votes, the count, and the candidates. The steps go as far
-- as no call inside of a section fails. The branch behind such a failure frees `pid` (but for
-- `calloc`), and its callers, which ignore the result, go on to use it; Voting/Start has what a
-- section leaves then.
pub mod Count
pub mod Candidate
pub mod Start
pub mod Stuck
pub mod Stuffing
pub mod Signals
mod Tests
use soper.Common.{
  ℕ, zero, suc, ◌+◌, ◌-◌, ◌*◌, ◌%◌, ◌<◌, ◌≡◌, List, [], ◌∷◌, ◌++◌, Bool, true, false, not, Option,
  none, some, ltb, ◌==◌, if◌then◌else◌, get_or, take, length,
}

-- The signals that `main` installs `handler` for.
pub data Signal : Type 0 where
  sigint sigalrm sigusr1 sigusr2 : Signal

-- `sig_recieved`: 0, SIGUSR1 or SIGINT.
pub data Recieved : Type 0 where
  nothing usr1 int : Recieved

-- What `handler` does: go on with `sig_recieved`, or stop the children and exit.
pub data Handled : Type 0 where
  go_on : Recieved → Handled
  stop_all : Handled

-- `handler`; the flag tells the parent process.
unfoldable pub handler : Bool → Signal → Recieved → Handled
handler true sigint r = stop_all
handler false sigint r = go_on int
handler true sigalrm r = stop_all
handler false sigalrm r = go_on r
handler _ sigusr1 nothing = go_on usr1
handler _ sigusr1 usr1 = go_on usr1
handler _ sigusr1 int = go_on int
handler _ sigusr2 r = go_on r

-- `check_sigint` exits on this.
unfoldable pub must_exit : Recieved → Bool
must_exit int = true
must_exit _ = false

-- `Vote`; the vote is a character.
pub record Vote : Type 0 where
  pub pid : ℕ
  pub vote : ℕ

-- The vote of a process, from what `rand` returns.
unfoldable pub cast : ℕ → ℕ → Vote
cast pid rand = record { pid = pid; vote = if rand % 2 == 0 then b'N' else b'Y' }

-- sizeof(Vote)
abbrev pub vote_size : ℕ
vote_size = 8

-- The loop that counts, with `k` rounds left. `count` is a `float` that holds a small whole number.
unfoldable pub count_from : List Vote → ℕ → ℕ → ℕ → ℕ
count_from votes zero i count = count
count_from votes (suc k) i count =
    count_from votes k (i + 1)
      (if (get_or votes i (record { pid = 0; vote = 0 })).vote == b'Y' then count + 1 else count)

pub data Verdict : Type 0 where
  accepted rejected : Verdict

-- What the candidate prints when it looks at the file: nothing unless the size is that of one vote
-- for each process. `count / n_procs > 0.5` is `2 * count > n_procs`.
unfoldable pub announce : ℕ → List Vote → Option Verdict
announce n_procs file =
    if length file * vote_size == n_procs * vote_size
    then some (
        if ltb n_procs (2 * count_from (take n_procs file) n_procs 0 0) then accepted else rejected)
    else none

-- Where a process stands in `work`, `loop` and `vote`.
pub data Pc : Type 0 where
  reading : Pc  -- in `work`, before it reads the pids
  enter : Pc  -- before `sem_trywait(sem_candida)`
  candidate : Pc  -- before it writes its vote
  polling : Pc  -- before it looks at the file
  resigning : Pc  -- before `sem_post(sem_candida)`
  waiting : Pc  -- in `pause`, for a candidate's signal
  voting : Pc  -- before it writes its vote
  voted : Pc  -- in `pause`, for the end of the round
  gone : Pc  -- it has exited by `check_sigint`

-- The two semaphores, the voting file, the verdicts printed so far, and the processes.
pub record Election : Type 0 where
  pub sem_candida : ℕ
  pub sem_en : ℕ
  pub file : List Vote
  pub printed : List Verdict
  pub pc : ℕ → Pc

abbrev pub update : (ℕ → Pc) → ℕ → Pc → ℕ → Pc
update f i p k = if i == k then p else f k

abbrev pub print : Option Verdict → List Verdict → List Verdict
print none vs = vs
print (some v) vs = vs ++ (v ∷ [])

-- Whether `check_sigint` is called where a process stands, before a section is entered.
abbrev pub is_checked : Pc → Bool
is_checked reading = true
is_checked enter = true
is_checked candidate = true
is_checked polling = true
is_checked waiting = true
is_checked voted = true
is_checked _ = false

-- Whether it is called inside of the section.
abbrev pub is_checked_inside : Pc → Bool
is_checked_inside reading = true
is_checked_inside candidate = true
is_checked_inside voting = true
is_checked_inside _ = false

-- How a process gets past `sem_wait(sem_en)`, whose result is not looked at, from one value of the
-- semaphore to another.
pub data Enters (v : ℕ) : ℕ → Type 0 where
  taken : {k : ℕ} → v ≡ suc k → Enters v k
  interrupted : Enters v v  -- a signal has ended the wait

-- One step of process `i` of `n`. A section under `sem_en` is one step, from `sem_wait` to
-- `sem_post`; a process that pauses may be woken at any time, and SIGINT may come at any time.
pub data Step (n : ℕ) (s : Election) : Election → Type 0 where
  read_pids :
      (i k : ℕ)
      → i < n
      → s.pc i ≡ reading
      → Enters s.sem_en k
      → Step n s (record s { sem_en = k + 1; pc = update s.pc i enter })
  win :
      (i k : ℕ)
      → i < n
      → s.pc i ≡ enter
      → s.sem_candida ≡ suc k
      → Step n s (record s { sem_candida = k; pc = update s.pc i candidate })
  lose :
      (i : ℕ)
      → i < n
      → s.pc i ≡ enter
      → s.sem_candida ≡ 0
      → Step n s (record s { pc = update s.pc i waiting })
  stand :
      (i rand k : ℕ)
      → i < n
      → s.pc i ≡ candidate
      → Enters s.sem_en k
      → Step n s (record s {
        sem_en = k + 1;
        file = s.file ++ (cast i rand ∷ []);
        pc = update s.pc i polling;
      })
  look :
      (i k : ℕ)
      → i < n
      → s.pc i ≡ polling
      → Enters s.sem_en k
      → Step n s (record s {
        sem_en = k + 1;
        printed = print (announce n s.file) s.printed;
        pc = update s.pc i resigning;
      })
  resign :
      (i : ℕ)
      → i < n
      → s.pc i ≡ resigning
      → Step n s (record s { sem_candida = s.sem_candida + 1; pc = update s.pc i enter })
  wake : (i : ℕ) → i < n → s.pc i ≡ waiting → Step n s (record s { pc = update s.pc i voting })
  write_vote :
      (i rand k : ℕ)
      → i < n
      → s.pc i ≡ voting
      → Enters s.sem_en k
      → Step n s (record s {
        sem_en = k + 1;
        file = s.file ++ (cast i rand ∷ []);
        pc = update s.pc i voted;
      })
  again : (i : ℕ) → i < n → s.pc i ≡ voted → Step n s (record s { pc = update s.pc i enter })
  quit :
      (i : ℕ) → i < n → is_checked (s.pc i) ≡ true → Step n s (record s { pc = update s.pc i gone })
  quit_inside :
      (i k : ℕ)
      → i < n
      → is_checked_inside (s.pc i) ≡ true
      → Enters s.sem_en k
      → Step n s (record s { sem_en = k; pc = update s.pc i gone })

-- When `main` has posted `sem_en`: `sem_candida` was opened with 1, and the voting file is new.
abbrev pub opened : Election
opened = record { sem_candida = 1; sem_en = 1; file = []; printed = []; pc = λ _. reading }

pub data Reach (n : ℕ) (s : Election) : Election → Type 0 where
  here : Reach n s s
  next : {t u : Election} → Reach n s t → Step n t u → Reach n s u
