-- ===== src/Network/Processes/Boot.antt =====
-- The blocks from the first one on: the first miner of Proyecto/launch/miner_launch.c begins, after
-- any number of others have come to wait for it.
mod Tests
use soper.Common.{ℕ, ◌+◌, ◌≡◌, List, [], ◌∷◌, ◌++◌, refl, sym, ◌∙◌, ap, subst, i16}
use soper.Miners.{Miner}
use soper.Network.{Block, System, start_first_round, init_block}
use soper.Network.Processes.{
  World, Step, Reach, here, next, register, join, announce, count, renew, cast_vote, shut_down,
  update, signal_round, loop_head,
}
use soper.Network.Processes.Idle.{IsIdle, IsIdle-for_ever}
use soper.Network.Processes.Chain.{
  Follows, Keeps, Keeps-register, Keeps-join, Keeps-publish, Keeps-tally, Keeps-vote, Keeps-leave,
  Follows-new_round,
}

-- Process `i` is the first miner: it installs the first block, signals the others, and comes to the
-- head of its loop.
unfoldable pub begin_first : ℕ → List Miner → World → World
begin_first i raw w =
    let (system, pids) = start_first_round raw (w.process i).this_miner w.system in
    record w {
      system = system;
      process = update (signal_round pids w.process) i (record (w.process i) { phase = loop_head });
    }

-- The finished blocks have the ids from `id` on, the first of them has the target `target`, each
-- later one the solution of the one before, and the current block is the next.
abbrev pub Numbered : ℕ → ℕ → List Block → Block → Type 0
Numbered id target [] c = (c.id ≡ id) × (c.target ≡ target)
Numbered id target (b ∷ bs) c =
    (b.id ≡ id) × (b.target ≡ target) × Numbered (i16 (id + 1)) b.solution bs c

Numbered-same :
    (id target : ℕ) (bs : List Block) (c c' : Block)
    → c'.id ≡ c.id
    → c'.target ≡ c.target
    → Numbered id target bs c
    → Numbered id target bs c'
Numbered-same id target [] c c' i t (h, k) = (i ∙ h, t ∙ k)
Numbered-same id target (b ∷ bs) c c' i t (h, k, r) =
    (h, k, Numbered-same (i16 (id + 1)) b.solution bs c c' i t r)

Numbered-snoc :
    (id target : ℕ) (bs : List Block) (c c' : Block)
    → Follows c c'
    → Numbered id target bs c
    → Numbered id target (bs ++ (c ∷ [])) c'
Numbered-snoc id target [] c c' f (h, k) = (h, k, (f.id ∙ ap (λ x. i16 (x + 1)) h, f.target))
Numbered-snoc id target (b ∷ bs) c c' f (h, k, r) =
    (h, k, Numbered-snoc (i16 (id + 1)) b.solution bs c c' f r)

module _ (id target : ℕ) where
  Keeps-Numbered :
      (bs : List Block) {s s' : System}
      → Keeps s s'
      → Numbered id target bs s.current_block
      → Numbered id target bs s'.current_block
  Keeps-Numbered bs {s} {s'} k h =
      Numbered-same id target bs s.current_block s'.current_block k.id k.target h

  Step-Numbered :
      {u v : World}
      → Step u v
      → Numbered id target u.chain u.system.current_block
      → Numbered id target v.chain v.system.current_block
  Step-Numbered {u} (register i _) h = Keeps-Numbered u.chain (Keeps-register _ u.system) h
  Step-Numbered {u} (join i _) h = Keeps-Numbered u.chain (Keeps-join _ u.system) h
  Step-Numbered {u} (announce i _) h = Keeps-Numbered u.chain (Keeps-publish _ _ u.system) h
  Step-Numbered {u} (count i _ _ _) h = Keeps-Numbered u.chain (Keeps-tally _ u.system) h
  Step-Numbered {u} (renew i raw _) h =
      Numbered-snoc id target u.chain u.system.current_block _ (Follows-new_round raw _ u.system) h
  Step-Numbered {u} (cast_vote i _) h = Keeps-Numbered u.chain (Keeps-vote _ u.system) h
  Step-Numbered {u} (shut_down i _ _) h = Keeps-Numbered u.chain (Keeps-leave _ u.system) h
  Step-Numbered _ h = h

  Reach-Numbered :
      {u v : World}
      → Reach u v
      → Numbered id target u.chain u.system.current_block
      → Numbered id target v.chain v.system.current_block
  Reach-Numbered here h = h
  Reach-Numbered (next r st) h = Step-Numbered st (Reach-Numbered r h)

first_block :
    (raw : List Miner) (m : Miner) (s : System)
    → let c = (start_first_round raw m s).0.current_block in (c.id ≡ 0) × (c.target ≡ 0)
unfolding start_first_round init_block
first_block raw m s = (refl, refl)

begun :
    (i : ℕ) (raw : List Miner) (u : World)
    → u.chain ≡ []
    → Numbered 0 0 (begin_first i raw u).chain (begin_first i raw u).system.current_block
unfolding begin_first
begun i raw u e =
    subst
      (λ bs.
        Numbered 0 0 bs (start_first_round raw (u.process i).this_miner u.system).0.current_block)
      (sym e) (first_block raw (u.process i).this_miner u.system)

-- From the creation of the memory on: any miners come, wait and leave, then the first miner begins,
-- and then all miners go on in any interleaving, even with several winners of one round. The blocks
-- that are finished have the ids 0, 1, 2, and so on, modulo 2 ^ 16; the first of them has the target
-- 0, and each later one the solution of the one before, and so has the block that is mined now.
pub boot-Numbered :
    {w u v : World} (i : ℕ) (raw : List Miner)
    → w.chain ≡ []
    → ((k : ℕ) → IsIdle (w.process k))
    → Reach w u
    → Reach (begin_first i raw u) v
    → Numbered 0 0 v.chain v.system.current_block
boot-Numbered {w} {u} i raw e idle r r' =
    Reach-Numbered 0 0 r' (begun i raw u ((IsIdle-for_ever idle r).1 ∙ e))
