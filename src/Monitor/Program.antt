-- ===== src/Monitor/Program.antt =====
-- `main` of Proyecto/launch/monitor_launch.c around the loops of the checker and the monitor: the
-- names that the parent, which is the checker, and the child, which is the monitor, create and
-- unlink, and how each of them ends.
pub mod Clean
mod Tests
use soper.Common.{ℕ, List, [], ◌∷◌, ◌++◌, Bool, true, false, not, ◌&&◌, if◌then◌else◌}
use soper.Setup.{Opened, serving, gone, ShopCalls, open_shop}
use soper.Monitor.{receive_failed}

-- SHM_NAME, SYSTEM_SHM and MQ_NAME.
pub data Name : Type 0 where
  facepulls_shm : Name
  deadlift_shm : Name
  mq_facepulls : Name

pub data Effect : Type 0 where
  create : Name → Effect
  unlink : Name → Effect

-- How a process ends.
pub data End : Type 0 where
  returns : End  -- its function returns to `main`
  exits : (code : ℕ) → End
  goes_on : End

-- The names that the start of the checker creates and unlinks, up to `mq_open`.
abbrev pub shop_effects : Opened → List Effect
shop_effects (serving s) = create facepulls_shm ∷ create mq_facepulls ∷ []
shop_effects (gone s) = create facepulls_shm ∷ (if s.name then [] else unlink facepulls_shm ∷ [])

-- The wait for the memory of the miners.
pub data Waited : Type 0 where
  found : Waited
  interrupted : Waited
  waiting : Waited

-- A turn of the loop: whether SIGINT ended its `sleep`, and whether its `shm_open` succeeds. `opens`
-- is the `shm_open` before. A `sleep` to its end leaves the errno of that one, which is no EINTR.
pub record Turn : Type 0 where
  pub interrupted : Bool
  pub opens : Bool

unfoldable pub wait_system : Bool → List Turn → Waited
wait_system true ts = found
wait_system false [] = waiting
wait_system false (t ∷ ts) =
    let rest = wait_system t.opens ts in if t.interrupted then interrupted else rest

-- How the loop of the checker ends.
pub data LoopEnd : Type 0 where
  down : LoopEnd  -- by its test
  receive_fails : (using errno : ℕ) → LoopEnd

-- What the checker meets.
pub record CheckerMeets : Type 0 where
  pub calls : ShopCalls
  pub system : Bool  -- the first `shm_open` of the memory of the miners
  pub turns : List Turn
  pub mapped : Bool
  pub loop : LoopEnd

-- The end of the loop and what is behind it.
unfoldable pub serve_end : LoopEnd → List Effect × End
serve_end down = (unlink deadlift_shm ∷ [], returns)
serve_end (receive_fails using errno) =
    let a = receive_failed using errno in
    (
      (if a.destroyed then unlink facepulls_shm ∷ unlink deadlift_shm ∷ [] else []),
      exits a.exit_code,
    )

unfoldable pub after_wait : Bool → LoopEnd → Waited → List Effect × End
unfolding serve_end
after_wait mapped l found = if mapped then serve_end l else (unlink deadlift_shm ∷ [], exits 1)
after_wait mapped l interrupted = (unlink facepulls_shm ∷ unlink mq_facepulls ∷ [], returns)
after_wait mapped l waiting = ([], goes_on)

abbrev pub behind_start : Opened → List Effect × End → List Effect × End
behind_start (serving s) r = (shop_effects (serving s) ++ r.0, r.1)
behind_start (gone s) r = (shop_effects (gone s), exits 1)

unfoldable pub comprobador : CheckerMeets → List Effect × End
unfolding after_wait wait_system open_shop
comprobador m =
    if m.calls.shm_open
    then behind_start (open_shop m.calls)
        (after_wait m.mapped m.loop (wait_system m.system m.turns))
    else ([], exits 1)

-- One `shm_open` of the monitor.
pub data Try : Type 0 where
  opens : Try
  missing : Try  -- ENOENT
  refused : Try  -- another error, so that `mmap` fails

-- `mapped` is whether `mmap` succeeds; the monitor returns when it is shut down.
unfoldable pub monitor : List Try → Bool → List Effect × End
monitor [] mapped = ([], goes_on)
monitor (opens ∷ ts) mapped = if mapped then ([], returns) else (unlink facepulls_shm ∷ [], exits 1)
monitor (missing ∷ ts) mapped = monitor ts mapped
monitor (refused ∷ ts) mapped = (unlink facepulls_shm ∷ [], exits 1)

-- The end of `main`, in the parent behind `wait`, and in the child.
unfoldable pub main_end : List Effect × End → List Effect × End
main_end (es, returns) = (es ++ (unlink facepulls_shm ∷ unlink mq_facepulls ∷ []), exits 0)
main_end (es, exits code) = (es, exits code)
main_end (es, goes_on) = (es, goes_on)

-- What the parent and the child do; a child that was not created does nothing.
pub record Program : Type 0 where
  pub parent : List Effect × End
  pub child : List Effect × End

unfoldable pub main : (sigaction fork : Bool) → CheckerMeets → List Try → Bool → Program
unfolding main_end comprobador monitor
main sigaction fork m tries mapped =
    if sigaction && fork
    then record { parent = main_end (comprobador m); child = main_end (monitor tries mapped) }
    else record { parent = ([], exits 1); child = ([], exits 1) }

-- The effects of two processes in some order.
pub data Merge : List Effect → List Effect → List Effect → Type 0 where
  nil : Merge [] [] []
  left : (e : Effect) {xs ys zs : List Effect} → Merge xs ys zs → Merge (e ∷ xs) ys (e ∷ zs)
  right : (e : Effect) {xs ys zs : List Effect} → Merge xs ys zs → Merge xs (e ∷ ys) (e ∷ zs)

abbrev pub same : Name → Name → Bool
same facepulls_shm facepulls_shm = true
same deadlift_shm deadlift_shm = true
same mq_facepulls mq_facepulls = true
same _ _ = false

-- Whether a name is there after some effects.
unfoldable pub exists_after : Name → Bool → List Effect → Bool
exists_after n b [] = b
exists_after n b (create m ∷ es) = exists_after n (if same n m then true else b) es
exists_after n b (unlink m ∷ es) = exists_after n (if same n m then false else b) es
