-- ===== src/Network/Mutex/Exclusion.antt =====
-- What the two ways to wait for the mutex keep of its exclusion (Proyecto/launch/miner_launch.c).
use soper.Common.{
  ℕ, zero, suc, ◌+◌, ◌≡◌, ◌≤◌, ap, subst, refl, arith, List, [], ◌∷◌, ◌++◌, Bool, true, false, some,
  replicate, append_assoc,
}
use soper.Network.Mutex.{
  Ends, taken, interrupted, sem_wait_safe, Pc, outside, waiting, inside, Mutex, opened, Step, want,
  take, interrupt, leave, Reach, here, next,
}

-- However often it is interrupted, the safe wait returns 0 once it has taken the semaphore.
pub sem_wait_safe_lem :
    (k : ℕ) (es : List Ends)
    → sem_wait_safe (replicate k interrupted ++ (taken ∷ es)) ≡ some (true, es)
unfolding sem_wait_safe
sem_wait_safe_lem zero es = refl
sem_wait_safe_lem (suc k) es = sem_wait_safe_lem k es

abbrev is_inside : Pc → ℕ
is_inside inside = 1
is_inside _ = 0

-- The number of processes in the section.
abbrev pub crowd : List Pc → ℕ
crowd [] = 0
crowd (p ∷ ps) = is_inside p + crowd ps

crowd-append :
    (ps : List Pc) (p : Pc) (qs : List Pc)
    → crowd (ps ++ (p ∷ qs)) ≡ crowd ps + is_inside p + crowd qs
crowd-append [] p qs = omega arith
crowd-append (x ∷ ps) p qs = omega (arith, crowd-append ps p qs)

crowd-outside : (n : ℕ) → crowd (replicate n outside) ≡ 0
crowd-outside zero = refl
crowd-outside (suc n) = omega (arith, crowd-outside n)

-- The count before and after a process moves.
moved :
    (s : Mutex) (ps qs : List Pc) (p q : Pc)
    → s.pcs ≡ ps ++ (p ∷ qs)
    → crowd s.pcs + is_inside q ≡ crowd (ps ++ (q ∷ qs)) + is_inside p
moved s ps qs p q e = omega (arith, ap crowd e, crowd-append ps p qs, crowd-append ps q qs)

Step-sum : {s t : Mutex} → Step true s t → t.value + crowd t.pcs ≡ s.value + crowd s.pcs
Step-sum {s} (want ps qs e) = omega (arith, moved s ps qs outside waiting e)
Step-sum {s} (take ps qs v e h) = omega (arith, moved s ps qs waiting inside e)
Step-sum {s} (interrupt ps qs e h) = omega (arith, moved s ps qs waiting waiting e)
Step-sum {s} (leave ps qs e) = omega (arith, moved s ps qs inside outside e)

Reach-sum : {s t : Mutex} → Reach true s t → t.value + crowd t.pcs ≡ s.value + crowd s.pcs
Reach-sum here = refl
Reach-sum (next r st) = omega (arith, Reach-sum r, Step-sum st)

-- With `_sem_wait_safe` at most one of any number of processes is in the section, whenever the
-- signals come.
pub safe-crowd : (n : ℕ) {t : Mutex} → Reach true (opened n) t → crowd t.pcs ≤ 1
safe-crowd n r = omega (arith, Reach-sum r, crowd-outside n)

pub Reach-trans : {safe : Bool} {s t u : Mutex} → Reach safe s t → Reach safe t u → Reach safe s u
Reach-trans r here = r
Reach-trans r (next q st) = next (Reach-trans r q) st

-- The processes `ps ++ replicate k p`, and what a run of them is with the first of the `k` apart.
abbrev at : ℕ → List Pc → Mutex
at v ps = record { value = v; pcs = ps }

regroup :
    {safe : Bool} (v v' : ℕ) (ps : List Pc) (p q : Pc) (k : ℕ)
    → Reach safe
        (at v ((ps ++ (q ∷ [])) ++ replicate k p))
        (at v' ((ps ++ (q ∷ [])) ++ replicate k q))
    → Reach safe (at v (ps ++ (q ∷ replicate k p))) (at v' (ps ++ replicate (suc k) q))
regroup {safe} v v' ps p q k r =
    subst (λ l. Reach safe (at v l) (at v' (ps ++ replicate (suc k) q)))
      (append_assoc ps (q ∷ []) (replicate k p))
      (subst (λ l. Reach safe (at v ((ps ++ (q ∷ [])) ++ replicate k p)) (at v' l))
        (append_assoc ps (q ∷ []) (replicate k q)) r)

-- All that wait while the semaphore is 0 get in.
push_in :
    (k : ℕ) (ps : List Pc)
    → Reach false (at 0 (ps ++ replicate k outside)) (at 0 (ps ++ replicate k inside))
push_in zero ps = here
push_in (suc k) ps =
    Reach-trans
      (next (next here (want ps (replicate k outside) refl))
        (interrupt ps (replicate k outside) refl refl))
      (regroup 0 0 ps outside inside k (push_in k (ps ++ (inside ∷ []))))

walk_out :
    (v k : ℕ) (ps : List Pc)
    → Reach false (at v (ps ++ replicate k inside)) (at (v + k) (ps ++ replicate k outside))
walk_out v zero ps =
    let e : v ≡ v + 0 = omega arith in
    subst (λ x. Reach false (at v (ps ++ [])) (at x (ps ++ []))) e here
walk_out v (suc k) ps =
    let e : v + 1 + k ≡ v + suc k = omega arith in
    Reach-trans (next here (leave ps (replicate k inside) refl)) (
      subst
        (λ x.
          Reach false (at (v + 1) (ps ++ (outside ∷ replicate k inside)))
            (at x (ps ++ replicate (suc k) outside)))
        e
        (regroup (v + 1) (v + 1 + k) ps inside outside k
          (walk_out (v + 1) k (ps ++ (outside ∷ [])))))

-- A semaphore at `k` lets `k` processes in without a signal.
let_in :
    (k : ℕ) (ps : List Pc)
    → Reach true (at k (ps ++ replicate k outside)) (at 0 (ps ++ replicate k inside))
let_in zero ps = here
let_in (suc k) ps =
    Reach-trans
      (next (next here (want ps (replicate k outside) refl))
        (take ps (replicate k outside) k refl refl))
      (regroup k 0 ps outside inside k (let_in k (ps ++ (inside ∷ []))))

-- With `sem_wait` as the code calls it, signals can bring all of any number of processes into the
-- section at once. When they have left it the semaphore is at their number, so that all of them can be
-- in the section at once again, now without a signal and even by `_sem_wait_safe`.
pub direct-crowd :
    (n : ℕ)
    → Reach false (opened (suc n)) (record { value = 0; pcs = replicate (suc n) inside })
      × Reach false
          (record { value = 0; pcs = replicate (suc n) inside })
          (record { value = suc n; pcs = replicate (suc n) outside })
      × Reach true
          (record { value = suc n; pcs = replicate (suc n) outside })
          (record { value = 0; pcs = replicate (suc n) inside })
direct-crowd n =
    let e : 0 + suc n ≡ suc n = omega arith in
    (
      Reach-trans
          (next (next here (want [] (replicate n outside) refl))
            (take [] (replicate n outside) 0 refl refl))
          (push_in n (inside ∷ [])),
      subst (λ x. Reach false (at 0 (replicate (suc n) inside)) (at x (replicate (suc n) outside)))
          e (walk_out 0 (suc n) []),
      let_in (suc n) [],
    )
