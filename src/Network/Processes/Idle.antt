-- ===== src/Network/Processes/Idle.antt =====
-- The network without a miner that mines (Proyecto/launch/miner_launch.c).
mod Tests
use soper.Common.{
  ℕ, ◌≡◌, ◌≢◌, ◌⊎◌, List, Bool, true, false, not, ◌||◌, refl, arith, ap, ◌∙◌, ◌==◌, if◌then◌else◌,
  Bool-cases, ℕ_discrete, sym, inl, inr,
}
use soper.Miners.{Miner}
use soper.Network.{Block, System, keep_waiting, register_miner, leave}
use soper.Network.Processes.{
  World, Process, Phase, Step, Reach, here, next, update, resume, outside, admitted, loop_head,
  joining, mining, publishing, waiting, writing, sending, renewing, voting, suspending, suspended,
  gone, admit, register, begin, join, finish, announce, nap, count, to_register, send, renew,
  cast_vote, suspend, interrupt, nap_fails, write_fails, malloc_fails, threads_fail, shut_down,
}
use soper.Network.Processes.Moves.{update_other}

-- A miner that neither mines nor is about to: it waits for SIGUSR1, or will shut down.
unfoldable pub is_idle : Phase → Bool → Bool
is_idle outside down = true
is_idle admitted down = true
is_idle loop_head down = down
is_idle joining down = false
is_idle mining down = false
is_idle publishing down = false
is_idle (waiting v) down = false
is_idle writing down = false
is_idle sending down = false
is_idle renewing down = false
is_idle voting down = false
is_idle suspending down = true
is_idle suspended down = true
is_idle gone down = true

abbrev pub IsIdle : Process → Type 0
IsIdle p = is_idle p.phase p.shutdown ≡ true

update-IsIdle :
    (f : ℕ → Process) (i : ℕ) (p : Process)
    → ((k : ℕ) → IsIdle (f k))
    → IsIdle p
    → (k : ℕ) → IsIdle (update f i p k)
update-IsIdle f i p all h k = elim (Bool-cases (i == k)) [ inl e ↦ rw e h | inr e ↦ rw e (all k) ]

busy : (p : Process) (a : Phase) → p.phase ≡ a → is_idle a p.shutdown ≡ false → ¬ IsIdle p
busy p a e works h = absurd (cc (ap (λ x. is_idle x p.shutdown) e, works, h))

resume-idle : (a : Phase) (down : Bool) → is_idle a down ≡ true → is_idle (resume a) true ≡ true
unfolding is_idle
resume-idle joining down h = absurd (cc h)
resume-idle mining down h = absurd (cc h)
resume-idle publishing down h = absurd (cc h)
resume-idle (waiting v) down h = absurd (cc h)
resume-idle writing down h = absurd (cc h)
resume-idle sending down h = absurd (cc h)
resume-idle renewing down h = absurd (cc h)
resume-idle voting down h = absurd (cc h)
resume-idle _ down h = refl

register_miner-block :
    (m : Miner) (s : System) → (register_miner m s).current_block ≡ s.current_block
unfolding register_miner
register_miner-block m s = refl

leave-block : (m : Miner) (s : System) → (leave m s).0.current_block ≡ s.current_block
unfolding leave
leave-block m s = refl

-- Nothing was mined from `u` to `v`, and nothing will be.
abbrev Kept : World → World → Type 0
Kept u v =
    ((k : ℕ) → IsIdle (v.process k))
    × (v.chain ≡ u.chain)
    × (v.system.current_block ≡ u.system.current_block)

Step-Kept : {u v : World} → Step u v → ((k : ℕ) → IsIdle (u.process k)) → Kept u v
unfolding is_idle
Step-Kept {u} (admit i e n) all = (update-IsIdle u.process i _ all refl, refl, refl)
Step-Kept {u} (register i e) all =
    (update-IsIdle u.process i _ all refl, refl, register_miner-block _ u.system)
Step-Kept {u} (begin i e down) all = absurd (busy (u.process i) loop_head e down (all i))
Step-Kept {u} (join i e) all = absurd (busy (u.process i) joining e refl (all i))
Step-Kept {u} (finish i n e) all = absurd (busy (u.process i) mining e refl (all i))
Step-Kept {u} (announce i e) all = absurd (busy (u.process i) publishing e refl (all i))
Step-Kept {u} (nap i v e _) all = absurd (busy (u.process i) (waiting v) e refl (all i))
Step-Kept {u} (count i v e _) all = absurd (busy (u.process i) (waiting v) e refl (all i))
Step-Kept {u} (to_register i e) all = absurd (busy (u.process i) writing e refl (all i))
Step-Kept {u} (send i e) all = absurd (busy (u.process i) sending e refl (all i))
Step-Kept {u} (renew i raw e) all = absurd (busy (u.process i) renewing e refl (all i))
Step-Kept {u} (cast_vote i e) all = absurd (busy (u.process i) voting e refl (all i))
Step-Kept {u} (suspend i e) all = (update-IsIdle u.process i _ all refl, refl, refl)
Step-Kept {u} (interrupt i) all = (
  update-IsIdle u.process i _ all (resume-idle (u.process i).phase (u.process i).shutdown (all i)),
  refl,
  refl,
)
Step-Kept {u} (nap_fails i v e _) all = absurd (busy (u.process i) (waiting v) e refl (all i))
Step-Kept {u} (write_fails i e) all = absurd (busy (u.process i) writing e refl (all i))
Step-Kept {u} (malloc_fails i e new) all = (update-IsIdle u.process i _ all refl, refl, refl)
Step-Kept {u} (threads_fail i e) all = absurd (busy (u.process i) mining e refl (all i))
Step-Kept {u} (shut_down i e down) all =
    (update-IsIdle u.process i _ all refl, refl, leave-block _ u.system)

-- A network in which no miner mines stays like that: as long as each one has yet to enter, waits for
-- SIGUSR1, or will shut down, no block is finished and the current one does not change, whoever
-- comes, is interrupted or leaves. For only a miner that mines sends SIGUSR1.
pub IsIdle-for_ever :
    {w v : World}
    → ((k : ℕ) → IsIdle (w.process k))
    → Reach w v
    → ((k : ℕ) → IsIdle (v.process k))
      × (v.chain ≡ w.chain)
      × (v.system.current_block ≡ w.system.current_block)
IsIdle-for_ever all here = (all, refl, refl)
IsIdle-for_ever all (next r st) =
    let (all', chain, block) = IsIdle-for_ever all r in
    let (all'', chain', block') = Step-Kept st all' in (all'', chain' ∙ chain, block' ∙ block)

-- The world when process `i` has exited.
abbrev pub exits : ℕ → World → World
exits i w = record w { process = update w.process i (record (w.process i) { phase = gone }) }

update_here : (f : ℕ → Process) (i k : ℕ) (p : Process) → i ≡ k → update f i p k ≡ p
update_here f i k p e = ground arith

exits-IsIdle :
    (w : World) (i : ℕ)
    → ((k : ℕ) → k ≢ i → IsIdle (w.process k))
    → (k : ℕ) → IsIdle ((exits i w).process k)
unfolding is_idle
exits-IsIdle w i others k = elim (ℕ_discrete i k) [
  | yes e ↦ rw (update_here w.process i k _ e) refl
  | no ne ↦ rw (update_other w.process i k _ ne) (others k (λ e. ne (sym e)))
]

-- Where a call of a miner fails, or its nap is interrupted, so that it exits.
pub data Breaks (w : World) (p : Process) : Type 0 where
  malloc_breaks : p.phase ≡ loop_head → p.allocated ≡ false → Breaks w p
  thread_breaks : p.phase ≡ mining → Breaks w p
  nap_breaks :
      (voting : ℕ)
      → p.phase ≡ waiting voting
      → keep_waiting w.system.current_block voting ≡ true
      → Breaks w p
  write_breaks : p.phase ≡ writing → Breaks w p

breaks : (w : World) (i : ℕ) → Breaks w (w.process i) → Step w (exits i w)
breaks w i (malloc_breaks e new) = malloc_fails i e new
breaks w i (thread_breaks e) = threads_fail i e
breaks w i (nap_breaks v e more) = nap_fails i v e more
breaks w i (write_breaks e) = write_fails i e

-- A miner that exits by an error does so without starting the next round: before its first round when
-- a `malloc` fails, while it mines when a thread cannot be created or joined, while it waits for the
-- votes when its nap is interrupted, or behind them when it cannot write to its register. If each of
-- the others has yet to enter, waits for SIGUSR1, is about to shut down or has ended by then, the
-- network is dead: no block is finished and the current one does not change any more, whoever comes.
pub miner_exits :
    {w v : World} (i : ℕ)
    → Breaks w (w.process i)
    → ((k : ℕ) → k ≢ i → IsIdle (w.process k))
    → Reach (exits i w) v
    → Step w (exits i w) × (v.chain ≡ w.chain) × (v.system.current_block ≡ w.system.current_block)
miner_exits {w} i b others r =
    let (all, chain, block) = IsIdle-for_ever (exits-IsIdle w i others) r in
    (breaks w i b, chain, block)
