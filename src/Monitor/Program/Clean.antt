-- ===== src/Monitor/Program/Clean.antt =====
-- Which names stay when the checker and the monitor have ended.
use soper.Common.{
  ℕ, ◌≡◌, ◌≢◌, List, [], ◌∷◌, ◌++◌, Bool, true, false, All, ◌⊎◌, inl, inr, refl, arith, ◌∙◌,
}
use soper.Setup.{serving, Shop, open_shop}
use soper.Monitor.{receive_failed}
use soper.Monitor.Program.{
  Name, facepulls_shm, mq_facepulls, Effect, create, unlink, End, returns, exits, goes_on,
  CheckerMeets, serve_end, after_wait, comprobador, Try, opens, missing, refused, monitor, main_end,
  main, Merge, nil, left, right, same, exists_after,
}

abbrev IsUnlink : Effect → Type 0
IsUnlink (create n) = ⊥
IsUnlink (unlink n) = Unit

-- A process that only unlinks leaves at most what the other leaves.
Merge-gone :
    (n : Name) (b c : Bool) {xs ys zs : List Effect}
    → Merge xs ys zs
    → All IsUnlink ys
    → (b ≡ true → c ≡ true)
    → exists_after n c xs ≡ false
    → exists_after n b zs ≡ false
unfolding exists_after
Merge-gone n b c nil u le h = ground arith
Merge-gone n b c (left (create m) r) u le h = Merge-gone n _ _ r u (ground arith) h
Merge-gone n b c (left (unlink m) r) u le h = Merge-gone n _ _ r u (ground arith) h
Merge-gone n b c (right (create m) r) u le h = absurd u.0
Merge-gone n b c (right (unlink m) r) u le h = Merge-gone n _ c r u.1 (ground arith) h

-- The effect does not unlink the name.
abbrev Spares : Name → Effect → Type 0
Spares n (create m) = Unit
Spares n (unlink m) = same n m ≡ false

Merge-left :
    (n : Name) (b c : Bool) {xs ys zs : List Effect}
    → Merge xs ys zs
    → All (Spares n) ys
    → (c ≡ true → b ≡ true)
    → exists_after n c xs ≡ true
    → exists_after n b zs ≡ true
unfolding exists_after
Merge-left n b c nil u le h = le h
Merge-left n b c (left (create m) r) u le h = Merge-left n _ _ r u (ground arith) h
Merge-left n b c (left (unlink m) r) u le h = Merge-left n _ _ r u (ground arith) h
Merge-left n b c (right (create m) r) u le h = Merge-left n _ c r u.1 (ground arith) h
Merge-left n b c (right (unlink m) r) u le h = Merge-left n _ c r u.1 (ground arith) h

exists_after-append :
    (n : Name) (b : Bool) (xs ys : List Effect)
    → exists_after n b (xs ++ ys) ≡ exists_after n (exists_after n b xs) ys
unfolding exists_after
exists_after-append n b [] ys = refl
exists_after-append n b (create m ∷ xs) ys = exists_after-append n _ xs ys
exists_after-append n b (unlink m ∷ xs) ys = exists_after-append n _ xs ys

-- The child only unlinks.
child-IsUnlink :
    (tries : List Try) (mapped : Bool) → All IsUnlink (main_end (monitor tries mapped)).0
unfolding main_end monitor
child-IsUnlink [] mapped = tt
child-IsUnlink (opens ∷ ts) true = (tt, (tt, tt))
child-IsUnlink (opens ∷ ts) false = (tt, tt)
child-IsUnlink (missing ∷ ts) mapped = child-IsUnlink ts mapped
child-IsUnlink (refused ∷ ts) mapped = (tt, tt)

child-Spares :
    (tries : List Try) (mapped : Bool)
    → (main_end (monitor tries mapped)).1 ≢ exits 0
    → All (Spares mq_facepulls) (main_end (monitor tries mapped)).0
unfolding main_end monitor
child-Spares [] mapped h = tt
child-Spares (opens ∷ ts) true h = absurd (h refl)
child-Spares (opens ∷ ts) false h = (refl, tt)
child-Spares (missing ∷ ts) mapped h = child-Spares ts mapped h
child-Spares (refused ∷ ts) mapped h = (refl, tt)

-- `main` of the parent, when the checker has returned.
returned :
    (n : Name) (r : List Effect × End)
    → r.1 ≡ returns
    → same n facepulls_shm ≡ true ⊎ same n mq_facepulls ≡ true
    → exists_after n true (main_end r).0 ≡ false
unfolding main_end exists_after
returned n (es, returns) e (inl h) = exists_after-append n true es _ ∙ ground arith
returned n (es, returns) e (inr h) = exists_after-append n true es _ ∙ ground arith
returned n (es, exits code) e h = absurd (cc)
returned n (es, goes_on) e h = absurd (cc)

-- If the checker returns, by its test of `shutdown` or since SIGINT came while it waited for the
-- miners, the names of the ring and of the queue are gone when both processes have ended, whatever
-- existed before and in whatever order the processes ran.
pub returns_clean :
    (m : CheckerMeets) (tries : List Try) (mapped : Bool) (before : Bool) {zs : List Effect}
    → (comprobador m).1 ≡ returns
    → Merge (main true true m tries mapped).parent.0 (main true true m tries mapped).child.0 zs
    → (exists_after facepulls_shm before zs ≡ false) × (exists_after mq_facepulls before zs ≡ false)
unfolding main
returns_clean m tries mapped before e r =
    let u = child-IsUnlink tries mapped in
    (
      Merge-gone facepulls_shm before true r u (λ h. refl)
          (returned facepulls_shm (comprobador m) e (inl refl)),
      Merge-gone mq_facepulls before true r u (λ h. refl)
          (returned mq_facepulls (comprobador m) e (inr refl)),
    )

-- The effects of an early exit.
exited :
    (m : CheckerMeets) (s : Shop) {code : ℕ}
    → m.calls.shm_open ≡ true
    → open_shop m.calls ≡ serving s
    → (comprobador m).1 ≡ exits code
    → exists_after mq_facepulls false (main_end (comprobador m)).0 ≡ true
unfolding comprobador main_end exists_after after_wait serve_end receive_failed
exited m s c e x = ground arith

-- If the checker exits once it has opened its queue - since the memory of the miners cannot be
-- mapped, or `mq_receive` fails - the name of the queue stays, in whatever order the processes ran,
-- unless the monitor's program comes to its own end.
pub exits-queue :
    (m : CheckerMeets) (s : Shop) (tries : List Try) (mapped before : Bool) {code : ℕ}
    {zs : List Effect}
    → m.calls.shm_open ≡ true
    → open_shop m.calls ≡ serving s
    → (comprobador m).1 ≡ exits code
    → (main true true m tries mapped).child.1 ≢ exits 0
    → Merge (main true true m tries mapped).parent.0 (main true true m tries mapped).child.0 zs
    → exists_after mq_facepulls before zs ≡ true
unfolding main
exits-queue m s tries mapped before c e x h r =
    Merge-left mq_facepulls before false r (child-Spares tries mapped h) (λ f. cc)
      (exited m s c e x)
