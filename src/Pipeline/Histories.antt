-- ===== src/Pipeline/Histories.antt =====
-- The blocks that the processes of Proyecto/launch/miner_launch.c finish in any interleaving that is
-- made of rounds with one publisher, and in which no miner registers or leaves.
mod Tests
use soper.Common.{
  ℕ, ◌<◌, ◌≡◌, ◌∙◌, ap, ap₂, sym, refl, List, [], ◌∷◌, ◌++◌, append-nil, append_assoc, All,
}
use soper.Pow.{pow_limit}
use soper.Miners.{Miner}
use soper.Network.{Block, System, new_round}
use soper.Network.Round.{IsFresh, run_round}
use soper.Network.Processes.{
  World, Step, Reach, here, next, admit, register, begin, join, finish, announce, nap, count,
  to_register, send, renew, cast_vote, suspend, interrupt, nap_fails, write_fails, malloc_fails,
  threads_fail, shut_down,
}
use soper.Network.Processes.Sections.{
  Section, quiet, registers, joins, counts, leaves, publishes, votes, renews, run_section,
  run_sections, section_of, sections, Reach-sections,
}
use soper.Network.Processes.OneWinner.{Counted, Voting, OneRound, OneRound-run}
use soper.Pipeline.{Round, sent_block, after_round, sent_blocks}
use soper.Pipeline.Honest.{AllHonest, Accepted, sent_blocks-Accepted, sent-last}
use soper.Pipeline.Links.{after_rounds}

-- The block that a section finishes, and those of a history.
abbrev block_of : Section → System → List Block
block_of (renews raw m) s = s.current_block ∷ []
block_of quiet s = []
block_of (registers m) s = []
block_of (joins m) s = []
block_of (counts m) s = []
block_of (leaves m) s = []
block_of (publishes m x) s = []
block_of (votes x) s = []

run_chain : List Section → System → List Block
run_chain [] s = []
run_chain (c ∷ cs) s = block_of c s ++ run_chain cs (run_section c s)

step_chain : {u v : World} (st : Step u v) → v.chain ≡ u.chain ++ block_of (section_of st) u.system
unfolding section_of
step_chain {u} (renew i raw _) = refl
step_chain {u} (admit i _ _) = sym (append-nil u.chain)
step_chain {u} (register i _) = sym (append-nil u.chain)
step_chain {u} (begin i _ _) = sym (append-nil u.chain)
step_chain {u} (join i _) = sym (append-nil u.chain)
step_chain {u} (finish i n _) = sym (append-nil u.chain)
step_chain {u} (announce i _) = sym (append-nil u.chain)
step_chain {u} (nap i _ _ _) = sym (append-nil u.chain)
step_chain {u} (to_register i _) = sym (append-nil u.chain)
step_chain {u} (send i _) = sym (append-nil u.chain)
step_chain {u} (count i _ _ _) = sym (append-nil u.chain)
step_chain {u} (cast_vote i _) = sym (append-nil u.chain)
step_chain {u} (suspend i _) = sym (append-nil u.chain)
step_chain {u} (interrupt i) = sym (append-nil u.chain)
step_chain {u} (nap_fails i _ _ _) = sym (append-nil u.chain)
step_chain {u} (write_fails i _) = sym (append-nil u.chain)
step_chain {u} (malloc_fails i _ _) = sym (append-nil u.chain)
step_chain {u} (threads_fail i _) = sym (append-nil u.chain)
step_chain {u} (shut_down i _ _) = sym (append-nil u.chain)

run_sections-append :
    (cs ds : List Section) (s : System)
    → run_sections (cs ++ ds) s ≡ run_sections ds (run_sections cs s)
unfolding run_sections
run_sections-append [] ds s = refl
run_sections-append (c ∷ cs) ds s = run_sections-append cs ds (run_section c s)

run_chain-append :
    (cs ds : List Section) (s : System)
    → run_chain (cs ++ ds) s ≡ run_chain cs s ++ run_chain ds (run_sections cs s)
unfolding run_chain run_sections
run_chain-append [] ds s = refl
run_chain-append (c ∷ cs) ds s =
    ap (λ l. block_of c s ++ l) (run_chain-append cs ds (run_section c s))
    ∙ sym (
        append_assoc (block_of c s) (run_chain cs (run_section c s))
          (run_chain ds (run_sections cs (run_section c s))))

run_chain-snoc :
    (cs : List Section) (c : Section) (s : System)
    → run_chain (cs ++ (c ∷ [])) s ≡ run_chain cs s ++ block_of c (run_sections cs s)
unfolding run_chain
run_chain-snoc cs c s =
    run_chain-append cs (c ∷ []) s
    ∙ ap (λ l. run_chain cs s ++ l) (append-nil (block_of c (run_sections cs s)))

-- A history finishes the blocks that its sections finish one after the other.
Reach-chain : {w v : World} (r : Reach w v) → v.chain ≡ w.chain ++ run_chain (sections r) w.system
unfolding sections run_chain
Reach-chain {w} here = sym (append-nil w.chain)
Reach-chain {w} (next {u} r st) =
    step_chain st
    ∙ ap₂ (λ l s. l ++ block_of (section_of st) s) (Reach-chain r) (Reach-sections r)
    ∙ append_assoc w.chain (run_chain (sections r) w.system)
        (block_of (section_of st) (run_sections (sections r) w.system))
    ∙ ap (λ l. w.chain ++ l) (sym (run_chain-snoc (sections r) (section_of st) w.system))

-- A round finishes the block that it leaves as the last one.
Counted-chain :
    {raw ms : List Miner} {cs : List Section} (s : System)
    → Counted raw ms cs
    → run_chain cs s ≡ (run_sections cs s).last_block ∷ []
unfolding run_chain run_sections run_section new_round
Counted-chain s (Counted.renewed m) = refl
Counted-chain s (Counted.idle c) = Counted-chain s c
Counted-chain s (Counted.joined m c) = Counted-chain (run_section (joins m) s) c

Voting-chain :
    {raw : List Miner} {m : Miner} {ms : List Miner} {xs : List ℕ} {cs : List Section} (s : System)
    → Voting raw m ms xs cs
    → run_chain cs s ≡ (run_sections cs s).last_block ∷ []
unfolding run_chain run_sections run_section
Voting-chain {m = m} s (Voting.counted c) = Counted-chain (run_section (counts m) s) c
Voting-chain s (Voting.idle v) = Voting-chain s v
Voting-chain s (Voting.joined k v) = Voting-chain (run_section (joins k) s) v
Voting-chain s (Voting.voted y v) = Voting-chain (run_section (votes y) s) v

OneRound-chain :
    {raw : List Miner} {m : Miner} {x : ℕ} {ms : List Miner} {xs : List ℕ} {cs : List Section}
    (s : System)
    → OneRound raw m x ms xs cs
    → run_chain cs s ≡ (run_sections cs s).last_block ∷ []
unfolding run_chain run_sections run_section
OneRound-chain {m = m} {x = x} s (OneRound.published v) =
    Voting-chain (run_section (publishes m x) s) v
OneRound-chain s (OneRound.idle r) = OneRound-chain s r
OneRound-chain s (OneRound.joined k r) = OneRound-chain (run_section (joins k) s) r

-- The sections of rounds one after the other, each with one publisher, and of quiet steps.
pub data Rounds : List Round → List Section → Type 0 where
  over : Rounds [] []
  idle : {rs : List Round} {cs : List Section} → Rounds rs cs → Rounds rs (quiet ∷ cs)
  round :
      {rs : List Round} {cs ds : List Section} (r : Round)
      → OneRound r.raw r.winner r.solution r.voters r.votes cs
      → Rounds rs ds
      → Rounds (r ∷ rs) (cs ++ ds)

one_round :
    (r : Round) (cs : List Section) (s : System)
    → OneRound r.raw r.winner r.solution r.voters r.votes cs
    → run_sections cs s ≡ after_round r s
unfolding run_round
one_round r cs s o = OneRound-run _ s o

Rounds-run :
    {rs : List Round} {cs : List Section} (s : System)
    → Rounds rs cs
    → run_sections cs s ≡ after_rounds rs s
unfolding run_sections run_section
Rounds-run s over = refl
Rounds-run s (idle q) = Rounds-run s q
Rounds-run s (round {cs = cs} {ds = ds} r o q) =
    run_sections-append cs ds s
    ∙ ap (run_sections ds) (one_round r cs s o)
    ∙ Rounds-run (after_round r s) q

Rounds-chain :
    {rs : List Round} {cs : List Section} (s : System)
    → Rounds rs cs
    → run_chain cs s ≡ sent_blocks rs s
unfolding run_chain sent_blocks run_section
Rounds-chain s over = refl
Rounds-chain s (idle q) = Rounds-chain s q
Rounds-chain s (round {cs = cs} {ds = ds} r o q) =
    run_chain-append cs ds s
    ∙ ap₂ (λ l t. l ++ run_chain ds t)
        (OneRound-chain s o
          ∙ ap (λ t. t.last_block ∷ []) (one_round r cs s o)
          ∙ ap (λ b. b ∷ []) (sym (sent-last r s)))
        (one_round r cs s o)
    ∙ ap (λ l. sent_block r s ∷ l) (Rounds-chain (after_round r s) q)

-- Any interleaving of the processes that is made of rounds with one publisher each, one round after
-- the other, in which no miner registers or leaves, each round has more voters than votes and
-- MAX_MINERS voters at most, and the slices of all who publish and vote reach the solution and were
-- mined to the end: the blocks that it finishes are those of the rounds taken in order, each of them
-- is accepted by all who voted on it and is solved, and it leaves the shared memory as these rounds
-- do. The first block is fresh and its target is below POW_LIMIT.
pub history-Accepted :
    {w v : World} {rs : List Round} (r : Reach w v)
    → Rounds rs (sections r)
    → IsFresh w.system.current_block
    → w.system.current_block.target < pow_limit
    → AllHonest rs w.system
    → (v.chain ≡ w.chain ++ sent_blocks rs w.system)
      × All Accepted (sent_blocks rs w.system)
      × (v.system ≡ after_rounds rs w.system)
history-Accepted {w} {rs = rs} r q fresh small honest = (
  Reach-chain r ∙ ap (λ l. w.chain ++ l) (Rounds-chain w.system q),
  sent_blocks-Accepted rs w.system fresh small honest,
  Reach-sections r ∙ Rounds-run w.system q,
)
