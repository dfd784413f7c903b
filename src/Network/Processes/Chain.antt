-- ===== src/Network/Processes/Chain.antt =====
-- The chain of the blocks of Proyecto/launch/miner_launch.c under every interleaving of the miners.
use soper.Common.{
  ℕ, ◌+◌, ◌≡◌, ◌⊎◌, inl, inr, List, [], ◌∷◌, ◌++◌, refl, sym, ◌∙◌, ap, subst, i16, arith,
}
use soper.Miners.{Miner}
use soper.Network.{
  Block, System, init_block, register_miner, join_round, publish, vote, tally, new_round, leave,
}
use soper.Network.Processes.{
  World, Step, Reach, here, next, register, join, announce, count, renew, cast_vote, shut_down,
}

-- Block `c` takes the solution of block `b` as its target, and the next id.
pub record Follows (b c : Block) : Type 0 where
  pub target : c.target ≡ b.solution
  pub id : c.id ≡ i16 (b.id + 1)

-- Each block of a chain follows the one before, and the current block follows the last one.
abbrev pub Linked : List Block → Block → Type 0
Linked [] c = Unit
Linked (b ∷ []) c = Follows b c
Linked (b ∷ b' ∷ bs) c = Follows b b' × Linked (b' ∷ bs) c

Linked-same :
    (bs : List Block) (c c' : Block)
    → c'.target ≡ c.target
    → c'.id ≡ c.id
    → Linked bs c
    → Linked bs c'
Linked-same [] c c' t i h = tt
Linked-same (b ∷ []) c c' t i h = record { target = t ∙ h.target; id = i ∙ h.id }
Linked-same (b ∷ b' ∷ bs) c c' t i h = (h.0, Linked-same (b' ∷ bs) c c' t i h.1)

Linked-snoc :
    (bs : List Block) {c c' : Block} → Linked bs c → Follows c c' → Linked (bs ++ (c ∷ [])) c'
Linked-snoc [] h f = f
Linked-snoc (b ∷ []) h f = (h, f)
Linked-snoc (b ∷ b' ∷ bs) h f = (h.0, Linked-snoc (b' ∷ bs) h.1 f)

-- A section that neither starts a round nor ends one leaves what the chain rests on.
pub record Keeps (s s' : System) : Type 0 where
  pub target : s'.current_block.target ≡ s.current_block.target
  pub id : s'.current_block.id ≡ s.current_block.id
  pub last : s'.last_block ≡ s.last_block

Keeps-same : (s : System) → Keeps s s
Keeps-same s = record { target = refl; id = refl; last = refl }

pub Keeps-register : (m : Miner) (s : System) → Keeps s (register_miner m s)
unfolding register_miner
Keeps-register m s = record { target = refl; id = refl; last = refl }

pub Keeps-join : (m : Miner) (s : System) → Keeps s (join_round m s)
unfolding join_round
Keeps-join m s = record { target = refl; id = refl; last = refl }

pub Keeps-publish : (m : Miner) (x : ℕ) (s : System) → Keeps s (publish m x s).0
unfolding publish
Keeps-publish m x s = record { target = refl; id = refl; last = refl }

pub Keeps-vote : (x : ℕ) (s : System) → Keeps s (vote x s)
unfolding vote
Keeps-vote x s = record { target = refl; id = refl; last = refl }

pub Keeps-tally : (m : Miner) (s : System) → Keeps s (tally m s).0
unfolding tally
Keeps-tally m s = record { target = ground arith; id = ground arith; last = ground arith }

pub Keeps-leave : (m : Miner) (s : System) → Keeps s (leave m s).0
unfolding leave
Keeps-leave m s = record { target = refl; id = refl; last = refl }

pub Follows-new_round :
    (raw : List Miner) (m : Miner) (s : System)
    → Follows s.current_block (new_round raw m s).0.current_block
unfolding new_round init_block
Follows-new_round raw m s = record { target = refl; id = refl }

last-new_round :
    (raw : List Miner) (m : Miner) (s : System) → (new_round raw m s).0.last_block ≡ s.current_block
unfolding new_round
last-new_round raw m s = refl

-- The blocks recorded so far are linked, and the last of them is `last_block`.
pub record IsChain (chain : List Block) (s : System) : Type 0 where
  pub linked : Linked chain s.current_block
  pub last : (chain ≡ []) ⊎ ((bs : List Block) × (chain ≡ bs ++ (s.last_block ∷ [])))

Keeps-IsChain : {chain : List Block} {s t : System} → Keeps s t → IsChain chain s → IsChain chain t
Keeps-IsChain {chain} {s} {t} k h = record {
  linked = Linked-same chain s.current_block t.current_block k.target k.id h.linked;
  last =
      subst (λ b. (chain ≡ []) ⊎ ((bs : List Block) × (chain ≡ bs ++ (b ∷ [])))) (sym k.last)
        h.last;
}

IsChain-new_round :
    {chain : List Block} {s : System} (raw : List Miner) (m : Miner)
    → IsChain chain s
    → IsChain (chain ++ (s.current_block ∷ [])) (new_round raw m s).0
IsChain-new_round {chain} {s} raw m h = record {
  linked = Linked-snoc chain h.linked (Follows-new_round raw m s);
  last = inr (chain, ap (λ b. chain ++ (b ∷ [])) (sym (last-new_round raw m s)));
}

Step-IsChain : {u v : World} → Step u v → IsChain u.chain u.system → IsChain v.chain v.system
Step-IsChain {u} (register i _) h = Keeps-IsChain (Keeps-register _ u.system) h
Step-IsChain {u} (join i _) h = Keeps-IsChain (Keeps-join _ u.system) h
Step-IsChain {u} (announce i _) h = Keeps-IsChain (Keeps-publish _ _ u.system) h
Step-IsChain {u} (count i _ _ _) h = Keeps-IsChain (Keeps-tally _ u.system) h
Step-IsChain {u} (renew i raw _) h = IsChain-new_round raw _ h
Step-IsChain {u} (cast_vote i _) h = Keeps-IsChain (Keeps-vote _ u.system) h
Step-IsChain {u} (shut_down i _ _) h = Keeps-IsChain (Keeps-leave _ u.system) h
Step-IsChain _ h = h

-- However the miners are interleaved, and even when several of them win one round, the blocks that
-- became `last_block` form a chain: each takes the solution of the one before as its target and the
-- next id, the block that is mined now follows the last of them, and that one is `last_block`. The
-- history starts at any world whose chain is empty.
pub Reach-IsChain : {w v : World} → w.chain ≡ [] → Reach w v → IsChain v.chain v.system
Reach-IsChain {w} e here = record {
  linked = subst (λ bs. Linked bs w.system.current_block) (sym e) tt;
  last = inl e;
}
Reach-IsChain e (next r st) = Step-IsChain st (Reach-IsChain e r)
