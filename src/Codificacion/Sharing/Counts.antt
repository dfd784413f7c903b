-- ===== src/Codificacion/Sharing/Counts.antt =====
-- What the semaphores count, with any number of monitors (P3/Codificacion/monitor.c).
use soper.Common.{
  ℕ, zero, suc, ◌+◌, ◌≡◌, ◌∙◌, ap, List, [], ◌∷◌, Option, some, Bool, true, false, length,
  length-append, get_elem?, set, replicate, arith, refl, ◌==◌, if◌then◌else◌, eqb_ℤ, pos,
}
use soper.Buffer.{read}
use soper.Codificacion.{Block, Entry}
use soper.Codificacion.Sharing.{
  State, Shared, Checker, Monitor, Step, Reach, opened, slots, resign, abort, counter_range,
  skip_write, skip_read, put, get, after_put, after_get, is_stop, entry_for, take, receive_failed,
  wait_empty, put_entry, post, attach, wait_fill, get_entry, go_on, close, post_fill, outside,
  want_fill, post_empty, closing, finished, here, next,
}

-- A sum over the monitors, and how it changes when one of them moves.
abbrev pub total : (Monitor → ℕ) → List Monitor → ℕ
total f [] = 0
total f (p ∷ ps) = f p + total f ps

pub total-set :
    (f : Monitor → ℕ) (ps : List Monitor) (i : ℕ) (p q : Monitor)
    → get_elem? ps i ≡ some p
    → total f (set ps i q) + f p ≡ total f ps + f q
total-set f [] i p q e = absurd (cc e)
total-set f (x ∷ ps) zero p q e = let same : x ≡ p = cc e in rw same (omega arith)
total-set f (x ∷ ps) (suc i) p q e = omega (arith, total-set f ps i p q e)

-- A filled slot taken and not yet read; a slot read and not yet posted; done with the loop.
abbrev pub claims : Monitor → ℕ
claims Monitor.want_mutex = 1
claims _ = 0

abbrev pub unposted : Monitor → ℕ
unposted post_empty = 1
unposted closing = 1
unposted _ = 0

abbrev pub over : Monitor → ℕ
over closing = 1
over finished = 1
over _ = 0

-- An empty slot taken and not yet written; written and not yet posted.
abbrev pub reserved : Checker → ℕ
reserved (Checker.want_mutex _) = 1
reserved _ = 0

abbrev pub unfilled : Checker → ℕ
unfilled (post_fill _) = 1
unfilled _ = 0

pub total_outside : (f : Monitor → ℕ) (n : ℕ) → f outside ≡ 0 → total f (replicate n outside) ≡ 0
total_outside f zero z = refl
total_outside f (suc n) z = omega (arith, z, total_outside f n z)

pub record Counts (s : State) : Type 0 where
  pub filled :
      s.shared.gym_fill + total claims s.monitors + length s.got + unfilled s.checker
      ≡ length s.sent
  pub empty :
      s.shared.gym_empty + reserved s.checker + length s.sent + total unposted s.monitors
      ≡ slots + length s.got

-- `gym_empty` and `gym_fill`, which no protected part changes.
abbrev sems : Shared → ℕ × ℕ
sems m = (m.gym_empty, m.gym_fill)

sems-if :
    (c : Bool) (x y : Shared) (p : ℕ × ℕ) → sems x ≡ p → sems y ≡ p → sems (if c then x else y) ≡ p
sems-if true x y p e e' = e
sems-if false x y p e e' = e'

resign-sems : (m : Shared) → sems (resign m) ≡ sems m
unfolding resign
resign-sems m = sems-if (eqb_ℤ m.using (pos 1)) _ _ _ refl refl

skip_write-sems : (m : Shared) → sems (skip_write m) ≡ sems m
unfolding skip_write
skip_write-sems m = sems-if (eqb_ℤ m.using (pos 1)) _ _ _ refl refl

skip_read-sems : (m : Shared) → sems (skip_read m) ≡ sems m
unfolding skip_read
skip_read-sems m = sems-if (eqb_ℤ m.using (pos 1)) _ _ _ refl refl

put-sems : (b : Block) (m : Shared) → sems (put b m) ≡ sems m
unfolding put
put-sems b m = sems-if (b.end == 1) _ _ _ (resign-sems _ ∙ skip_write-sems _) refl

get-sems : (m : Shared) → sems (get m).1 ≡ sems m
unfolding get
get-sems m =
    sems-if (is_stop (read slots counter_range m.ring).0) _ _ _ (resign-sems _ ∙ skip_read-sems _)
      refl

after_put-holds : (b : Block) → (reserved (after_put b) ≡ 0) × (unfilled (after_put b) ≡ 0)
unfolding after_put
after_put-holds b = (ground arith, ground arith)

monitor-if :
    (c : Bool)
    → (claims (if c then closing else post_empty) ≡ 0)
      × (unposted (if c then closing else post_empty) ≡ 1)
monitor-if true = (refl, refl)
monitor-if false = (refl, refl)

after_get-holds : (e : Option Entry) → (claims (after_get e) ≡ 0) × (unposted (after_get e) ≡ 1)
unfolding after_get
after_get-holds e = monitor-if (is_stop e)

abort-sems : (m : Shared) → sems (abort m) ≡ sems m
unfolding abort
abort-sems m = refl

-- The three sums when the monitor at `i` moves from `p` to `q`.
pub sums :
    (ps : List Monitor) (i : ℕ) (p q : Monitor)
    → get_elem? ps i ≡ some p
    → (total claims (set ps i q) + claims p ≡ total claims ps + claims q)
      × (total unposted (set ps i q) + unposted p ≡ total unposted ps + unposted q)
      × (total over (set ps i q) + over p ≡ total over ps + over q)
sums ps i p q e =
    (total-set claims ps i p q e, total-set unposted ps i p q e, total-set over ps i p q e)

pub put-fields :
    (b : Block) (m : Shared)
    → ((put b m).gym_empty ≡ m.gym_empty) × ((put b m).gym_fill ≡ m.gym_fill)
put-fields b m = (ap (λ p. p.0) (put-sems b m), ap (λ p. p.1) (put-sems b m))

pub get-fields :
    (m : Shared) → ((get m).1.gym_empty ≡ m.gym_empty) × ((get m).1.gym_fill ≡ m.gym_fill)
get-fields m = (ap (λ p. p.0) (get-sems m), ap (λ p. p.1) (get-sems m))

pub Step-Counts : {s t : State} → Step s t → Counts s → Counts t
Step-Counts (take b e) c = ground arith
Step-Counts {s} (receive_failed e) c =
    ground (arith, ap (λ p. p.0) (abort-sems s.shared), ap (λ p. p.1) (abort-sems s.shared))
Step-Counts (wait_empty b k e h) c = ground arith
Step-Counts {s} (put_entry b e) c =
    ground (arith, length-append s.sent (entry_for b s.shared.ring ∷ []), put-fields b s.shared)
Step-Counts (post b e) c = ground (arith, after_put-holds b)
Step-Counts {s} (attach i e) c = ground (arith, sums s.monitors i outside want_fill e)
Step-Counts {s} (wait_fill i k e h) c =
    ground (arith, sums s.monitors i want_fill Monitor.want_mutex e)
Step-Counts {s} (get_entry i e) c = ground (
  arith,
  sums s.monitors i Monitor.want_mutex (after_get (get s.shared).0) e,
  after_get-holds (get s.shared).0,
  length-append s.got ((get s.shared).0 ∷ []),
  get-fields s.shared,
)
Step-Counts {s} (go_on i e) c = ground (arith, sums s.monitors i post_empty want_fill e)
Step-Counts {s} (close i e) c = ground (arith, sums s.monitors i closing finished e)

pub opened-Counts : (blocks : List Entry) (n : ℕ) → Counts (opened blocks n)
opened-Counts blocks n = omega (arith, total_outside claims n refl, total_outside unposted n refl)

pub Reach-Counts : {blocks : List Entry} (n : ℕ) {s : State} → Reach (opened blocks n) s → Counts s
Reach-Counts {blocks} n here = opened-Counts blocks n
Reach-Counts n (next r st) = Step-Counts st (Reach-Counts n r)
