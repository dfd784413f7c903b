-- ===== src/Voting/Start/Forks.antt =====
-- The children that the loop of `fork` of P2/voting.c leaves, and who passes `sem_en`.
use native.Mathlib.Omega.{arith}
use soper.Common.{
  ℕ, zero, suc, ◌≤◌, ◌≡◌, List, [], ◌∷◌, ◌++◌, map, Bool, Option, none, some, refl, length, get_or,
  length-append, All, ◌≢◌, append_assoc, append-nil, ap, sym, ◌<◌,
}
use soper.Voting.{Recieved}
use soper.Voting.Start.{stop_from, stopped, fork_from, section, pass, goes_on}

abbrev pub backwards : List ℕ → List ℕ
backwards [] = []
backwards (x ∷ xs) = backwards xs ++ (x ∷ [])

get_or-snoc : (ps : List ℕ) (p : ℕ) → get_or (ps ++ (p ∷ [])) (length ps) 0 ≡ p
get_or-snoc [] p = refl
get_or-snoc (_ ∷ ps) p = get_or-snoc ps p

get_or-append_left :
    (n : ℕ) (ps qs : List ℕ) → n < length ps → get_or (ps ++ qs) n 0 ≡ get_or ps n 0
get_or-append_left n [] qs h = absurd (omega arith)
get_or-append_left zero (_ ∷ ps) qs h = refl
get_or-append_left (suc n) (_ ∷ ps) qs h = get_or-append_left n ps qs (omega arith)

stop_from-append :
    (n : ℕ) (ps qs : List ℕ) → n ≤ length ps → stop_from n (ps ++ qs) ≡ stop_from n ps
unfolding stop_from
stop_from-append zero ps qs h = refl
stop_from-append (suc n) ps qs h =
    rw (stop_from-append n ps qs (omega arith), get_or-append_left n ps qs h)

stop_from-snoc :
    (ps : List ℕ) (p : ℕ)
    → stop_from (suc (length ps)) (ps ++ (p ∷ [])) ≡ p ∷ stop_from (length ps) ps
unfolding stop_from
stop_from-snoc ps p = rw (get_or-snoc ps p, stop_from-append (length ps) ps (p ∷ []) (omega arith))

length-snoc : (ps : List ℕ) (p : ℕ) → length (ps ++ (p ∷ [])) ≡ suc (length ps)
length-snoc ps p = rw (length-append ps (p ∷ [])) (omega arith)

-- The children of `ps` are stopped, and then those that were in `pid` already.
fork_from-fails :
    (ps : List ℕ) (rest : List (Option ℕ)) (pid : List ℕ)
    → fork_from (map some ps ++ none ∷ rest) pid
      ≡ stopped (backwards ps ++ stop_from (length pid) pid)
unfolding fork_from
fork_from-fails [] rest pid = refl
fork_from-fails (p ∷ ps) rest pid =
    rw (fork_from-fails ps rest (pid ++ (p ∷ [])), length-snoc pid p, stop_from-snoc pid p)
      (ap stopped (sym (append_assoc (backwards ps) (p ∷ []) (stop_from (length pid) pid))))

-- When a call of `fork` fails, exactly the children that were started before are stopped, the last
-- one first, and no further one is started.
pub fork_from-stopped :
    (ps : List ℕ) (rest : List (Option ℕ))
    → fork_from (map some ps ++ none ∷ rest) [] ≡ stopped (backwards ps)
unfolding stop_from
fork_from-stopped ps rest = rw (fork_from-fails ps rest []) (ap stopped (append-nil (backwards ps)))

-- A section, and what its calls return.
abbrev pub Turn : Type 0
Turn = Recieved × (Bool × Bool)

abbrev pub GoesOn : Turn → Type 0
GoesOn (r, (opens, transfers)) = (section r opens transfers 0).0 ≡ goes_on

section-goes_on :
    (r : Recieved) (o t : Bool) → (section r o t 0).0 ≡ goes_on → (section r o t 0).1 ≡ 1
unfolding section
section-goes_on r o t g = ground arith

section-leaves :
    (r : Recieved) (o t : Bool) → (section r o t 0).0 ≢ goes_on → (section r o t 0).1 ≡ 0
unfolding section
section-leaves r o t l = ground arith

pub pass-blocked : (ps : List Turn) → pass ps 0 ≡ (0, 0)
unfolding pass
pass-blocked [] = refl
pass-blocked (_ ∷ _) = refl

-- While every process goes on, each one passes, and `sem_en` is 1 again.
pub pass_fine : (ps : List Turn) → All GoesOn ps → pass ps 1 ≡ (length ps, 1)
unfolding pass
pass_fine [] h = refl
pass_fine ((r, (o, t)) ∷ ps) (g, h) = rw (section-goes_on r o t g, pass_fine ps h) (ground arith)

-- The first process that returns 1 or exits in its section keeps `sem_en`: those before it and it
-- itself pass, and no later process does.
pub pass-stuck :
    (ps : List Turn) (p : Turn) (rest : List Turn)
    → All GoesOn ps
    → ¬ GoesOn p
    → pass (ps ++ p ∷ rest) 1 ≡ (suc (length ps), 0)
unfolding pass
pass-stuck [] (r, (o, t)) rest h l = rw (section-leaves r o t l, pass-blocked rest)
pass-stuck ((r, (o, t)) ∷ ps) p rest (g, h) l =
    rw (section-goes_on r o t g, pass-stuck ps p rest h l) (ground arith)
