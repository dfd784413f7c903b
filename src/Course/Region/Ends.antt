-- ===== src/Course/Region/Ends.antt =====
-- The two processes of P2/sem_create.c exclude one another, and both come to their end.
use soper.Common.{
  ℕ, zero, suc, ◌+◌, ◌≡◌, ◌≤◌, Bool, true, false, ◌⊎◌, inl, inr, arith, refl, ap, ◌∙◌, subst,
}
use soper.Course.Region.{
  Pc, want, inside, close, unlink, reap, ended, State, forked, Step, child_takes, child_posts,
  child_exits, parent_takes, parent_posts, parent_closes, parent_unlinks, parent_exits, Reach, here,
  next,
}

abbrev pub holds : Pc → ℕ
holds inside = 1
holds _ = 0

-- The steps that are left to a process.
abbrev left : Pc → ℕ
left want = 5
left inside = 4
left close = 3
left unlink = 2
left reap = 1
left ended = 0

-- The name is there until the parent has unlinked it.
abbrev named : Pc → Bool
named reap = false
named ended = false
named _ = true

-- The child has neither of the parent's own places.
abbrev IsChild : Pc → Type 0
IsChild unlink = ⊥
IsChild reap = ⊥
IsChild _ = Unit

record Inv (s : State) : Type 0 where
  sem : s.sem + holds s.child + holds s.parent ≡ 1
  name : s.name ≡ named s.parent
  child : IsChild s.child

Step-Inv : {s t : State} → Step s t → Inv s → Inv t
Step-Inv (child_takes k e f) v = ground arith
Step-Inv (child_posts e) v = ground arith
Step-Inv (child_exits e) v = ground arith
Step-Inv (parent_takes k e f) v = ground arith
Step-Inv (parent_posts e) v = ground arith
Step-Inv (parent_closes e) v = ground arith
Step-Inv (parent_unlinks e) v = ground arith
Step-Inv (parent_exits e f) v = ground arith

Reach-Inv : {s : State} → Reach forked s → Inv s
Reach-Inv here = record { sem = refl; name = refl; child = tt }
Reach-Inv (next r st) = Step-Inv st (Reach-Inv r)

-- The processes are never both in the critical region.
pub excluded : {s : State} → Reach forked s → holds s.child + holds s.parent ≤ 1
excluded r = omega (arith, (Reach-Inv r).sem)

-- Some process can go on, unless both have ended.
goes_on :
    (s : State) (c p : Pc)
    → s.child ≡ c
    → s.parent ≡ p
    → Inv s
    → ((c ≡ ended) × (p ≡ ended))
      ⊎ ((t : State) × Step s t × (suc (left t.child + left t.parent) ≤ left c + left p))
goes_on s inside p e f v = inr (_, child_posts e, ground arith)
goes_on s close p e f v = inr (_, child_exits e, ground arith)
goes_on s unlink p e f v = absurd (subst IsChild e v.child)
goes_on s reap p e f v = absurd (subst IsChild e v.child)
goes_on s want inside e f v = inr (_, parent_posts f, ground arith)
goes_on s want p e f v = inr (_, child_takes 0 e ground arith, ground arith)
goes_on s ended want e f v = inr (_, parent_takes 0 f ground arith, ground arith)
goes_on s ended inside e f v = inr (_, parent_posts f, ground arith)
goes_on s ended close e f v = inr (_, parent_closes f, ground arith)
goes_on s ended unlink e f v = inr (_, parent_unlinks f, ground arith)
goes_on s ended reap e f v = inr (_, parent_exits f e, ground arith)
goes_on s ended ended e f v = inl (refl, refl)

Reach-trans : {s t u : State} → Reach s t → Reach t u → Reach s u
Reach-trans r here = r
Reach-trans r (next q st) = next (Reach-trans r q) st

finishes :
    (n : ℕ) {s : State}
    → Inv s
    → left s.child + left s.parent ≤ n
    → (t : State) × Reach s t × (t.child ≡ ended) × (t.parent ≡ ended) × Inv t
finishes zero {s} v le = elim (goes_on s s.child s.parent refl refl v) [
  | inl (c, p) ↦ (s, here, c, p, v)
  | inr (t, st, less) ↦ absurd (omega arith)
]
finishes (suc n) {s} v le = elim (goes_on s s.child s.parent refl refl v) [
  | inl (c, p) ↦ (s, here, c, p, v)
  | inr (t, st, less) ↦
      let (u, r, c, p, w) = finishes n (Step-Inv st v) (omega arith) in
      (u, Reach-trans (next here st) r, c, p, w)
]

-- From every state that the processes can reach, one can be reached in which both have ended; the
-- semaphore is then free, and its name is gone.
pub both_end :
    {s : State}
    → Reach forked s
    → (t : State) × Reach s t
      × (t.child ≡ ended)
      × (t.parent ≡ ended)
      × (t.sem ≡ 1)
      × (t.name ≡ false)
both_end {s} r =
    let (t, q, c, p, v) = finishes (left s.child + left s.parent) (Reach-Inv r) (omega arith) in
    (t, q, c, p, ground (arith, v.sem), v.name ∙ ap named p)
