-- ===== src/Voting/Start/Main/Orphans.antt =====
-- The children that `main` of P2/voting.c leaves behind when it fails.
use soper.Common.{
  ℕ, ◌≡◌, ◌⊎◌, inl, inr, List, [], ◌∷◌, ◌++◌, map, Bool, true, false, some, refl, ◌&&◌,
  if◌then◌else◌, append_assoc, append-nil, ap, ◌∙◌, sym,
}
use soper.Voting.Start.{fork_from, started, pass}
use soper.Voting.Start.Forks.{Turn, pass-blocked}
use soper.Voting.Start.Main.{Calls, Outcome, start_voting, returns_1, write_file}

fork_from-all : (ps pid : List ℕ) → fork_from (map some ps) pid ≡ started (pid ++ ps)
unfolding fork_from
fork_from-all [] pid = ap started (sym (append-nil pid))
fork_from-all (p ∷ ps) pid =
    fork_from-all ps (pid ++ (p ∷ [])) ∙ ap started (append_assoc pid (p ∷ []) ps)

-- What is left for each end of `open` and `write`.
Left : List ℕ → List Turn → Bool → Outcome → Type 0
Left ps turns written o =
    (o.children ≡ ps)
    × (((o.pauses ≡ true) × (written ≡ true) × (o.sem_en ≡ 1))
        ⊎ ((o.pauses ≡ false) × (written ≡ false) × (pass turns o.sem_en ≡ (0, 0))))

file-Left :
    (ps : List ℕ) (turns : List Turn) (opens writes : Bool)
    → Left ps turns (opens && writes) (
        if opens
        then (if writes then record { pauses = true; children = ps; sem_en = 1 } else returns_1 ps)
        else returns_1 ps)
unfolding Left
file-Left ps turns true true = (refl, inl (refl, refl, refl))
file-Left ps turns true false = (refl, inr (refl, refl, pass-blocked turns))
file-Left ps turns false writes = (refl, inr (refl, refl, pass-blocked turns))

-- When every `fork` succeeds but the file of the pids cannot be opened or written, `main` returns 1
-- and leaves all its children, which wait at `sem_en`, as it is 0 and nobody posts it: whatever they
-- meet, none of them passes. If the file is written it comes to `pause` with the same children and
-- `sem_en` at 1. The calls before are successful.
pub start_voting-children :
    (c : Calls) (ps : List ℕ) (turns : List Turn)
    → c.sigactions ≡ true
    → c.calloc ≡ true
    → c.open_sem_en ≡ true
    → c.open_sem_candida ≡ true
    → c.forks ≡ map some ps
    → let o = start_voting c in
      (o.children ≡ ps)
      × (((o.pauses ≡ true) × ((c.open_pids && c.write_pids) ≡ true) × (o.sem_en ≡ 1))
          ⊎ ((o.pauses ≡ false)
              × ((c.open_pids && c.write_pids) ≡ false)
              × (pass turns o.sem_en ≡ (0, 0))))
unfolding start_voting write_file Left
start_voting-children c ps turns sa ca en cand forks =
    rw (sa, ca, en, cand, forks, fork_from-all ps []) (file-Left ps turns c.open_pids c.write_pids)
