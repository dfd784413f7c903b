-- ===== src/Course/Counter/Runs.antt =====
-- Runs of P3/file_mmap.c in a row, and runs at the same time.
use mathlib.Core.Path.{fun_ext}
use soper.Common.{
  ℕ, zero, suc, ◌+◌, ◌<◌, ◌≡◌, ◌≢◌, true, false, arith, refl, ap, sym, ◌∙◌, subst, ℕ_discrete,
}
use soper.Course.Counter.{
  Content, absent, empty, holds, Pc, start, reopen, truncate, map, clear, load, store, print, ended,
  failed, killed, truncated, advance, World, update, turn, opened, Reach, here, next, fail,
}

-- `k` steps of a run that nobody interrupts.
alone : ℕ → Content × Pc → Content × Pc
alone zero s = s
alone (suc k) s = alone k (advance s.0 s.1)

-- Run `i` stands at `p`, over the file `c`.
abbrev at : Content → (ℕ → Pc) → ℕ → Pc → World
at c f i p = record { content = c; pc = update f i p }

update_self : (f : ℕ → Pc) (i : ℕ) (p : Pc) → update f i p i ≡ p
update_self f i p = ground arith

update_at : (f : ℕ → Pc) (i j : ℕ) (p : Pc) → i ≡ j → update f i p j ≡ p
update_at f i j p h = ground arith

update_twice : (f : ℕ → Pc) (i : ℕ) (p q : Pc) → update (update f i p) i q ≡ update f i q
update_twice f i p q = fun_ext (λ k. ground arith)

update_ne : (f : ℕ → Pc) (i j : ℕ) (p : Pc) → i ≢ j → update f i p j ≡ f j
update_ne f i j p h = ground arith

turn-at :
    (c : Content) (f : ℕ → Pc) (i : ℕ) (p : Pc)
    → turn (at c f i p) i ≡ at (advance c p).0 f i (advance c p).1
unfolding turn
turn-at c f i p = rw (update_self f i p, update_twice f i p (advance c p).1) refl

alone-Reach :
    (k : ℕ) {w : World} (f : ℕ → Pc) (i : ℕ) (s : Content × Pc)
    → Reach w (at s.0 f i s.1)
    → Reach w (at (alone k s).0 f i (alone k s).1)
unfolding alone
alone-Reach zero f i s r = r
alone-Reach (suc k) f i s r =
    alone-Reach k f i (advance s.0 s.1) (subst (Reach _) (turn-at s.0 f i s.1) (next r i))

update_same : (f : ℕ → Pc) (i : ℕ) (p : Pc) → f i ≡ p → update f i p ≡ f
update_same f i p e = fun_ext (λ k. grind arith)

from_start :
    (k : ℕ) {w : World} (c : Content) (f : ℕ → Pc) (i : ℕ)
    → f i ≡ start
    → Reach w (record { content = c; pc = f })
    → Reach w (at (alone k (c, start)).0 f i (alone k (c, start)).1)
from_start k {w} c f i e r =
    alone-Reach k f i (c, start)
      (subst (λ g. Reach w (record { content = c; pc = g })) (sym (update_same f i start e)) r)

-- What the file holds after some runs.
abbrev after : ℕ → Content
after zero = absent
after (suc n) = holds (suc n)

-- Runs one after the other count: for any number of them, a state can be reached in which each one
-- has printed its place in the row, from 1 on, and the file holds their number.
pub runs_count :
    (n : ℕ)
    → (t : World) × Reach opened t
      × (t.content ≡ after n)
      × ((i : ℕ) → i < n → t.pc i ≡ ended (i + 1))
      × ((i : ℕ) → (i < n → ⊥) → t.pc i ≡ start)
unfolding alone advance truncated
runs_count zero = (opened, here, refl, λ i h. absurd (omega arith), λ i h. refl)
runs_count (suc zero) = (
  _,
  from_start 7 absent (λ _. start) 0 refl here,
  refl,
  λ i h.
      let e : 0 ≡ i = omega arith in
      update_at (λ _. start) 0 i (ended 1) e ∙ ap (λ k. ended (k + 1)) e,
  λ i h. update_ne (λ _. start) 0 i (ended 1) (λ e. h (omega arith)),
)
runs_count (suc (suc n)) =
    let (t, r, c, done, fresh) = runs_count (suc n) in
    (
      _,
      from_start 6 (holds (suc n)) t.pc (suc n) (fresh (suc n) (λ h. omega arith))
          (subst (λ x. Reach opened (record { content = x; pc = t.pc })) c r),
      ap holds (omega arith),
      λ i h. elim (ℕ_discrete (suc n) i) [
        | yes e ↦ update_at t.pc (suc n) i (ended (suc n + 1)) e ∙ ap (λ k. ended (k + 1)) e
        | no ne ↦ update_ne t.pc (suc n) i (ended (suc n + 1)) ne ∙ done i (omega arith)
      ],
      λ i h.
          update_ne t.pc (suc n) i (ended (suc n + 1)) (λ e. h (omega arith))
          ∙ fresh i (λ l. h (omega arith)),
    )

-- The creator sets the number to 0 after it has made the file: a run that has counted in between
-- can print 0. This holds for any two runs.
pub reset_race : (i j : ℕ) → i ≢ j → (t : World) × Reach opened t × (t.pc j ≡ ended 0)
unfolding alone advance truncated
reset_race i j ne =
    let f = λ (k : ℕ). start in
    let made = from_start 3 absent f i refl here in
    let g = update f i clear in
    let counted = from_start 5 (holds 0) g j (update_ne f i j clear ne) made in
    let h = update g j print in
    let there : h i ≡ clear = update_ne g j i print (λ e. ne (sym e)) ∙ update_self f i clear in
    let cleared =
      alone-Reach 1 h i (holds 1, clear)
        (subst (λ x. Reach opened (record { content = holds 1; pc = x }))
          (sym (update_same h i clear there)) counted) in
    let l = update h i load in
    let waits : l j ≡ print = update_ne h i j load ne ∙ update_self g j print in
    (
      _,
      alone-Reach 1 l j (holds 0, print)
          (subst (λ x. Reach opened (record { content = holds 0; pc = x }))
            (sym (update_same l j print waits)) cleared),
      update_self l j (ended 0),
    )

-- A run that cannot do anything with an empty file.
abbrev pub IsBlind : Pc → Type 0
IsBlind truncate = ⊥
IsBlind (store v) = ⊥
IsBlind (ended v) = ⊥
IsBlind _ = Unit

blind : (p : Pc) → IsBlind p → ((advance empty p).0 ≡ empty) × IsBlind (advance empty p).1
unfolding advance
blind start b = (refl, tt)
blind reopen b = (refl, tt)
blind truncate b = absurd b
blind (map true) b = (refl, tt)
blind (map false) b = (refl, tt)
blind clear b = (refl, tt)
blind load b = (refl, tt)
blind (store v) b = absurd b
blind print b = (refl, tt)
blind (ended v) b = absurd b
blind failed b = (refl, tt)
blind killed b = (refl, tt)

update-IsBlind :
    (f : ℕ → Pc) (i : ℕ) (p : Pc)
    → ((k : ℕ) → IsBlind (f k))
    → IsBlind p
    → (k : ℕ) → IsBlind (update f i p k)
update-IsBlind f i p all b k = elim (ℕ_discrete i k) [
  | yes e ↦ subst IsBlind (sym (update_at f i k p e)) b
  | no ne ↦ subst IsBlind (sym (update_ne f i k p ne)) (all k)
]

-- If the run that created the file exits before it has set its size, the counter is lost: whatever
-- runs come, however they run, the file stays empty and no number is printed any more.
pub spoiled :
    {w v : World}
    → w.content ≡ empty
    → ((k : ℕ) → IsBlind (w.pc k))
    → Reach w v
    → (v.content ≡ empty) × ((k : ℕ) → IsBlind (v.pc k))
unfolding turn
spoiled e all here = (e, all)
spoiled e all (next {v} r i) =
    let (c, b) = spoiled e all r in
    let (c', b') = blind (v.pc i) (b i) in
    (
      ap (λ x. (advance x (v.pc i)).0) c ∙ c',
      update-IsBlind v.pc i _ b (subst (λ x. IsBlind (advance x (v.pc i)).1) (sym c) b'),
    )
spoiled e all (fail {v} r i m) =
    let (c, b) = spoiled e all r in (c, update-IsBlind v.pc i failed b tt)
