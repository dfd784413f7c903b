-- ===== src/Voting/Start.antt =====
-- The start of P2/voting.c: the checks of `main`, its loop of `fork`, and the error paths of `work`
-- and `vote` between the two operations on `sem_en`. What a system call returns is an argument.
pub mod Forks
pub mod Main
use soper.Common.{
  ℕ, zero, suc, ◌+◌, ◌-◌, List, [], ◌∷◌, ◌++◌, Bool, true, false, Option, none, some, ◌==◌,
  if◌then◌else◌, get_or, length, ℤ, pos, ltb_ℤ,
}
use soper.Args.{atoi}
use soper.Voting.{Recieved, must_exit}

pub data Checks : Type 0 where
  usage few_procs : Checks
  run : (n_procs n_secs : ℤ) → Checks

unfoldable pub check_voting : List (List ℕ) → Checks
check_voting argv =
    if length argv == 3
    then (if ltb_ℤ (atoi (get_or argv 1 [])) (pos 1)
        then few_procs
        else run (atoi (get_or argv 1 [])) (atoi (get_or argv 2 [])))
    else usage

-- The loop that stops the children `pid[i - 1]`, ..., `pid[0]` in this order.
unfoldable pub stop_from : ℕ → List ℕ → List ℕ
stop_from zero pid = []
stop_from (suc i) pid = get_or pid i 0 ∷ stop_from i pid

-- How the loop of `fork` ends: with the children that it started, or with those that it stopped.
pub data Forked : Type 0 where
  started : (pid : List ℕ) → Forked
  stopped : (children : List ℕ) → Forked

-- The loop of `fork`: what each call returns, and `pid` as far as it is filled.
unfoldable pub fork_from : List (Option ℕ) → List ℕ → Forked
fork_from [] pid = started pid
fork_from (some child ∷ forks) pid = fork_from forks (pid ++ (child ∷ []))
fork_from (none ∷ forks) pid = stopped (stop_from (length pid) pid)

-- How a section under `sem_en` ends: it goes on, it returns 1, or `check_sigint` exits.
pub data Section : Type 0 where
  goes_on returns_1 exits : Section

-- The section of `work` or `vote`: what arrived, whether `open` and then `read` or `write` succeed,
-- and `sem_en` after its `sem_wait`. The result holds `sem_en` when the section is over.
unfoldable pub section : Recieved → Bool → Bool → ℕ → Section × ℕ
section r opens transfers sem_en =
    if must_exit r
    then (exits, sem_en)
    else (if opens
        then (if transfers then (goes_on, sem_en + 1) else (returns_1, sem_en))
        else (returns_1, sem_en))

-- The processes that pass `sem_en` one after the other; the first that finds it at 0 waits, and so
-- do all behind it. The result tells how many got through their section, and `sem_en`.
unfoldable pub pass : List (Recieved × (Bool × Bool)) → ℕ → ℕ × ℕ
pass [] sem_en = (0, sem_en)
pass (_ ∷ ps) zero = (0, 0)
pass ((r, (opens, transfers)) ∷ ps) (suc k) =
    let (_, sem_en) = section r opens transfers k in
    let (more, last) = pass ps sem_en in (more + 1, last)
