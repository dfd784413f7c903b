-- ===== src/Network/Processes/Sections.antt =====
-- The sections of Proyecto/launch/miner_launch.c that a history of the processes runs on the shared
-- memory, in their order.
use soper.Common.{ℕ, ◌≡◌, List, [], ◌∷◌, ◌++◌, refl, sym, ◌∙◌, ap}
use soper.Miners.{Miner}
use soper.Network.{System, register_miner, join_round, publish, vote, tally, new_round, leave}
use soper.Network.Processes.{
  World, Step, Reach, here, next, admit, register, begin, join, finish, announce, nap, count,
  to_register, send, renew, cast_vote, suspend, interrupt, nap_fails, write_fails, malloc_fails,
  threads_fail, shut_down,
}

-- What a step does to the shared memory, by whom.
pub data Section : Type 0 where
  quiet : Section
  registers joins counts leaves : Miner → Section
  publishes : Miner → ℕ → Section
  votes : ℕ → Section
  renews : List Miner → Miner → Section

unfoldable pub run_section : Section → System → System
run_section quiet s = s
run_section (registers m) s = register_miner m s
run_section (joins m) s = join_round m s
run_section (counts m) s = (tally m s).0
run_section (leaves m) s = (leave m s).0
run_section (publishes m x) s = (publish m x s).0
run_section (votes x) s = vote x s
run_section (renews raw m) s = (new_round raw m s).0

unfoldable pub run_sections : List Section → System → System
run_sections [] s = s
run_sections (c ∷ cs) s = run_sections cs (run_section c s)

unfoldable pub section_of : {u v : World} → Step u v → Section
section_of {u} (admit i _ _) = quiet
section_of {u} (register i _) = registers (u.process i).this_miner
section_of {u} (begin i _ _) = quiet
section_of {u} (join i _) = joins (u.process i).this_miner
section_of {u} (finish i n _) = quiet
section_of {u} (announce i _) = publishes (u.process i).this_miner (u.process i).solution
section_of {u} (nap i v _ _) = quiet
section_of {u} (to_register i _) = quiet
section_of {u} (send i _) = quiet
section_of {u} (count i v _ _) = counts (u.process i).this_miner
section_of {u} (renew i raw _) = renews raw (u.process i).this_miner
section_of {u} (cast_vote i _) = votes (u.process i).solution
section_of {u} (suspend i _) = quiet
section_of {u} (interrupt i) = quiet
section_of {u} (nap_fails i v _ _) = quiet
section_of {u} (write_fails i _) = quiet
section_of {u} (malloc_fails i _ _) = quiet
section_of {u} (threads_fail i _) = quiet
section_of {u} (shut_down i _ _) = leaves (u.process i).this_miner

unfoldable pub sections : {w v : World} → Reach w v → List Section
unfolding section_of
sections here = []
sections (next r st) = sections r ++ (section_of st ∷ [])

step_section : {u v : World} (st : Step u v) → v.system ≡ run_section (section_of st) u.system
unfolding section_of run_section
step_section (admit i _ _) = refl
step_section (register i _) = refl
step_section (begin i _ _) = refl
step_section (join i _) = refl
step_section (finish i n _) = refl
step_section (announce i _) = refl
step_section (nap i v _ _) = refl
step_section (to_register i _) = refl
step_section (send i _) = refl
step_section (count i v _ _) = refl
step_section (renew i raw _) = refl
step_section (cast_vote i _) = refl
step_section (suspend i _) = refl
step_section (interrupt i) = refl
step_section (nap_fails i v _ _) = refl
step_section (write_fails i _) = refl
step_section (malloc_fails i _ _) = refl
step_section (threads_fail i _) = refl
step_section (shut_down i _ _) = refl

run_sections-snoc :
    (cs : List Section) (c : Section) (s : System)
    → run_sections (cs ++ (c ∷ [])) s ≡ run_section c (run_sections cs s)
unfolding run_sections
run_sections-snoc [] c s = refl
run_sections-snoc (d ∷ cs) c s = run_sections-snoc cs c (run_section d s)

-- A history of the processes changes the shared memory as its sections do, one after the other.
pub Reach-sections : {w v : World} (r : Reach w v) → v.system ≡ run_sections (sections r) w.system
unfolding sections run_sections
Reach-sections here = refl
Reach-sections {w} (next r st) =
    step_section st
    ∙ ap (run_section (section_of st)) (Reach-sections r)
    ∙ sym (run_sections-snoc (sections r) (section_of st) w.system)
