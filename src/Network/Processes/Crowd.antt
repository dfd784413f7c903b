-- ===== src/Network/Processes/Crowd.antt =====
-- Several miners of Proyecto/launch/miner_launch.c that take the same steps one after the other.
use soper.Common.{
  ℕ, ◌≡◌, ◌≢◌, List, [], ◌∷◌, map, true, false, refl, sym, ◌∙◌, ap, ap₂, subst, arith, Bool-cases,
  inl, inr, ℕ_discrete, if◌then◌else◌,
}
use soper.Miners.{Miner}
use soper.Mining.Outcome.{mined}
use soper.Network.{System, join_round, vote}
use soper.Network.Processes.Waits.{Reach-trans}
use soper.Network.Processes.Moves.{update_self, update_other}
use soper.Network.Votes.{join_all, vote_all}
use soper.Network.Processes.{
  loop_head, mining, Process, World, update, is_among, branch, Reach, here, next, begin, join,
  finish, cast_vote,
}

-- No index occurs twice.
abbrev pub Distinct : List ℕ → Type 0
Distinct [] = Unit
Distinct (k ∷ ks) = (is_among k ks ≡ false) × Distinct ks

pub map_cong :
    {A : Type 0} (ks : List ℕ) (f g : ℕ → A)
    → ((j : ℕ) → is_among j ks ≡ true → f j ≡ g j)
    → map f ks ≡ map g ks
map_cong [] f g h = refl
map_cong (k ∷ ks) f g h =
    ap₂ (λ x xs. x ∷ xs) (h k (ground arith)) (map_cong ks f g (λ j m. h j (ground (arith, m))))

-- A miner that has started the round with target `t` and joined it.
abbrev pub entered : ℕ → Process → Process
entered t p = record p { phase = mining; allocated = true; sigusr2_received = false; target = t }

-- Those of `ks` are changed by `g`.
abbrev pub change : (Process → Process) → List ℕ → (ℕ → Process) → ℕ → Process
change g ks f j = if is_among j ks then g (f j) else f j

pub apart : (k j : ℕ) (ks : List ℕ) → is_among k ks ≡ false → is_among j ks ≡ true → k ≢ j
apart k j ks out m e = ground (arith, sym out ∙ ap (λ n. is_among n ks) e ∙ m)

-- `f'` is `f` with `k` changed by `g`: the others in `ks` are as they were.
changed_rest :
    (g : Process → Process) (f f' : ℕ → Process) (k : ℕ) (ks : List ℕ)
    → ((j : ℕ) → f' j ≡ update f k (g (f k)) j)
    → is_among k ks ≡ false
    → (j : ℕ) → is_among j ks ≡ true
    → f' j ≡ f j
changed_rest g f f' k ks p out j m = p j ∙ update_other f k j (g (f k)) (apart k j ks out m)

-- When the others in `ks` are changed too, all of `k ∷ ks` are.
changed_all :
    (g : Process → Process) (f f' f'' : ℕ → Process) (k : ℕ) (ks : List ℕ)
    → ((j : ℕ) → f' j ≡ update f k (g (f k)) j)
    → ((j : ℕ) → f'' j ≡ change g ks f' j)
    → is_among k ks ≡ false
    → (j : ℕ) → f'' j ≡ change g (k ∷ ks) f j
changed_all g f f' f'' k ks p q out j = elim (Bool-cases (is_among j ks)) [
  | inl m ↦ ground (arith, q j, m, changed_rest g f f' k ks p out j m)
  | inr not_in ↦ elim (ℕ_discrete k j) [
    | yes same ↦ ground (arith, q j, not_in, p j, ap (λ n. g (f n)) same)
    | no ne ↦ ground (arith, q j, not_in, p j, ne)
  ]
]

pub head_among : (k : ℕ) (ks : List ℕ) → is_among k (k ∷ ks) ≡ true
head_among k ks = ground arith

pub tail_among : (k j : ℕ) (ks : List ℕ) → is_among j ks ≡ true → is_among j (k ∷ ks) ≡ true
tail_among k j ks m = ground (arith, m)

not_tail : (k j : ℕ) (ks : List ℕ) → is_among j (k ∷ ks) ≡ false → is_among j ks ≡ false
not_tail k j ks m = ground (arith, m)

not_head : (k j : ℕ) (ks : List ℕ) → is_among j (k ∷ ks) ≡ false → k ≢ j
not_head k j ks m e = ground (arith, m, e)

enter_one :
    (k : ℕ) (w : World)
    → (w.process k).phase ≡ loop_head
    → (w.process k).shutdown ≡ false
    → (v : World) × Reach w v
      × (v.system ≡ join_round (w.process k).this_miner w.system)
      × ((j : ℕ)
          → v.process j
            ≡ update w.process k (entered w.system.current_block.target (w.process k)) j)
enter_one k w head up = (
  _,
  next (next here (begin k head up)) (join k (ap (λ y. y.phase) (update_self w.process k _))),
  ap (λ y. join_round y.this_miner w.system) (update_self w.process k _),
  λ j. twice w.process k _ j,
)
  where
    twice :
        (f : ℕ → Process) (k : ℕ) (x : Process) (j : ℕ)
        → update (update f k x) k (record (update f k x k) { phase = mining }) j
          ≡ update f k (record x { phase = mining }) j
    twice f k x j = ground (arith, update_self f k x)

target-join_round :
    (m : Miner) (s : System) → (join_round m s).current_block.target ≡ s.current_block.target
unfolding join_round
target-join_round m s = refl

-- Miners that stand at the head of the loop start the round and join it, one after the other.
pub enter_all :
    (ks : List ℕ) (w : World)
    → Distinct ks
    → ((j : ℕ)
        → is_among j ks ≡ true
        → ((w.process j).phase ≡ loop_head) × ((w.process j).shutdown ≡ false))
    → (v : World) × Reach w v
      × (v.system ≡ join_all (map (λ k. (w.process k).this_miner) ks) w.system)
      × ((j : ℕ) → v.process j ≡ change (entered w.system.current_block.target) ks w.process j)
unfolding join_all
enter_all [] w d h = (w, here, refl, λ j. refl)
enter_all (k ∷ ks) w (d0, d) h =
    let mine = h k (head_among k ks) in
    let (w1, r1, s1, p1) = enter_one k w mine.0 mine.1 in
    let g = entered w.system.current_block.target in
    let same = changed_rest g w.process w1.process k ks p1 d0 in
    let (v, r2, s2, p2) = enter_all ks w1 d (λ j m.
      subst (λ x. (x.phase ≡ loop_head) × (x.shutdown ≡ false)) (sym (same j m))
        (h j (tail_among k j ks m))) in
    (
      v,
      Reach-trans r1 r2,
      s2 ∙ ap₂ join_all (map_cong ks _ _ (λ j m. ap (λ x. x.this_miner) (same j m))) s1,
      changed_all g w.process w1.process v.process k ks p1
          (subst (λ t. (j : ℕ) → v.process j ≡ change (entered t) ks w1.process j)
            (ap (λ s. s.current_block.target) s1 ∙ target-join_round _ w.system) p2)
          d0,
    )

-- What process `k` finds with `n k` threads.
abbrev pub result : (ℕ → ℕ) → World → ℕ → ℕ
result n w k = mined (n k) (w.process k).target (w.process k).solution

cast_one :
    (k n : ℕ) (w : World)
    → (w.process k).phase ≡ mining
    → (w.process k).sigusr2_received ≡ true
    → (v : World) × Reach w v
      × (v.system ≡ vote (mined n (w.process k).target (w.process k).solution) w.system)
      × ((j : ℕ) → k ≢ j → v.process j ≡ w.process j)
cast_one k n w at flag = (
  _,
  next (next here (finish k n at))
      (cast_vote k (ap (λ y. y.phase) (update_self w.process k _) ∙ ap branch flag)),
  ap (λ y. vote y.solution w.system) (update_self w.process k _),
  λ j ne. ground (arith, ne),
)

-- Miners that mine and have received SIGUSR2 finish and vote, one after the other.
pub cast_all :
    (ks : List ℕ) (n : ℕ → ℕ) (w : World)
    → Distinct ks
    → ((j : ℕ)
        → is_among j ks ≡ true
        → ((w.process j).phase ≡ mining) × ((w.process j).sigusr2_received ≡ true))
    → (v : World) × Reach w v
      × (v.system ≡ vote_all (map (result n w) ks) w.system)
      × ((j : ℕ) → is_among j ks ≡ false → v.process j ≡ w.process j)
unfolding vote_all
cast_all [] n w d h = (w, here, refl, λ j m. refl)
cast_all (k ∷ ks) n w (d0, d) h =
    let mine = h k (head_among k ks) in
    let (w1, r1, s1, p1) = cast_one k (n k) w mine.0 mine.1 in
    let same = λ (j : ℕ) (m : is_among j ks ≡ true). p1 j (apart k j ks d0 m) in
    let (v, r2, s2, p2) = cast_all ks n w1 d (λ j m.
      subst (λ x. (x.phase ≡ mining) × (x.sigusr2_received ≡ true)) (sym (same j m))
        (h j (tail_among k j ks m))) in
    (
      v,
      Reach-trans r1 r2,
      s2
          ∙ ap₂ vote_all
              (map_cong ks _ _ (λ j m. ap (λ x. mined (n j) x.target x.solution) (same j m))) s1,
      λ j m. p2 j (not_tail k j ks m) ∙ p1 j (not_head k j ks m),
    )
