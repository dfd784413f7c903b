-- ===== src/Codificacion/Sharing/End.antt =====
-- How a run with several monitors ends: the mark of the end is written once, so that one monitor
-- reads it and the others wait for ever (P3/Codificacion/monitor.c).
use soper.Common.{
  ℕ, ◌≡◌, ◌≢◌, ◌≤◌, inl, inr, ◌∙◌, ap, sym, List, some, All, length, get_elem?, get_elem?-set_ne,
  set, arith, refl,
}
use soper.Codificacion.{Entry}
use soper.Codificacion.Sharing.{
  State, Monitor, Step, Reach, opened, slots, counter_range, take, receive_failed, wait_empty,
  put_entry, post, attach, wait_fill, get_entry, go_on, close, ended, outside, want_fill,
  post_empty, closing, finished, here, next,
}
use soper.Codificacion.Sharing.Counts.{total, claims, over, sums, Reach-Counts}
use soper.Codificacion.Sharing.Phases.{IsPlain, Over}
use soper.Codificacion.Sharing.Invariant.{Reach-Inv}

-- When a monitor has read the mark: every other one is outside, waits, or is about to.
Reach-Over :
    {blocks : List Entry} (n : ℕ) {s : State}
    → Reach (opened blocks n) s
    → length blocks ≡ slots
    → All IsPlain s.received
    → length s.sent ≤ counter_range
    → 1 ≤ total over s.monitors
    → Over s
Reach-Over n {s} r e plain small done = elim (Reach-Inv n r e plain small).phase [
  | inl o ↦ absurd (omega (arith, o.none_over))
  | inr o ↦ o
]

-- With any number of monitors, as long as no message reads as -1 and -1 in `int`s and the counters
-- do not overflow: at most one monitor ever reads the mark of the end. Once one has, everything that was
-- written has been read, no filled slot is left, no monitor holds one, and the checker has ended.
pub one_finishes :
    {blocks : List Entry} (n : ℕ) {s : State}
    → Reach (opened blocks n) s
    → length blocks ≡ slots
    → All IsPlain s.received
    → length s.sent ≤ counter_range
    → 1 ≤ total over s.monitors
    → (total over s.monitors ≡ 1)
      × (length s.got ≡ length s.sent)
      × (s.shared.gym_fill ≡ 0)
      × (total claims s.monitors ≡ 0)
      × (s.checker ≡ ended)
one_finishes n {s} r e plain small done =
    let o = Reach-Over n r e plain small done in
    let c = (Reach-Counts n r).filled in
    (o.one_over, o.all_read, omega (arith, o.all_read, c), omega (arith, o.all_read, c), o.gone)

-- What is left of a run then: nothing to take, and nobody who fills.
record Quiet (s : State) : Type 0 where
  stopped : s.checker ≡ ended
  drained : s.shared.gym_fill ≡ 0
  unclaimed : total claims s.monitors ≡ 0

no_claim :
    (ps : List Monitor) (i : ℕ) → get_elem? ps i ≡ some Monitor.want_mutex → total claims ps ≢ 0
no_claim ps i e z = absurd (omega (arith, sums ps i Monitor.want_mutex outside e))

Step-Quiet : {s t : State} → Step s t → Quiet s → Quiet t
Step-Quiet (take b e) q = absurd (cc (e, q.stopped))
Step-Quiet (receive_failed e) q = absurd (cc (e, q.stopped))
Step-Quiet (wait_empty b k e h) q = absurd (cc (e, q.stopped))
Step-Quiet (put_entry b e) q = absurd (cc (e, q.stopped))
Step-Quiet (post b e) q = absurd (cc (e, q.stopped))
Step-Quiet {s} (attach i e) q = record {
  stopped = q.stopped;
  drained = q.drained;
  unclaimed = omega (arith, sums s.monitors i outside want_fill e, q.unclaimed);
}
Step-Quiet (wait_fill i k e h) q = absurd (omega (arith, q.drained))
Step-Quiet {s} (get_entry i e) q = absurd (no_claim s.monitors i e q.unclaimed)
Step-Quiet {s} (go_on i e) q = record {
  stopped = q.stopped;
  drained = q.drained;
  unclaimed = omega (arith, sums s.monitors i post_empty want_fill e, q.unclaimed);
}
Step-Quiet {s} (close i e) q = record {
  stopped = q.stopped;
  drained = q.drained;
  unclaimed = omega (arith, sums s.monitors i closing finished e, q.unclaimed);
}

-- A move of a monitor that does not wait leaves those that do.
waits-set :
    (ps : List Monitor) (i j : ℕ) (p q : Monitor)
    → get_elem? ps j ≡ some p
    → some p ≢ some want_fill
    → get_elem? ps i ≡ some want_fill
    → get_elem? (set ps j q) i ≡ some want_fill
waits-set ps i j p q e ne w =
    get_elem?-set_ne ps j i q (λ same. ne (sym e ∙ ap (get_elem? ps) same ∙ w)) ∙ w

Step-waits :
    {s t : State} (i : ℕ)
    → Step s t
    → Quiet s
    → get_elem? s.monitors i ≡ some want_fill
    → (get_elem? t.monitors i ≡ some want_fill) × (t.got ≡ s.got)
Step-waits {s} i (attach j e) q w =
    (waits-set s.monitors i j outside want_fill e (λ x. cc x) w, refl)
Step-waits i (wait_fill j k e h) q w = absurd (omega (arith, q.drained))
Step-waits {s} i (get_entry j e) q w = absurd (no_claim s.monitors j e q.unclaimed)
Step-waits {s} i (go_on j e) q w =
    (waits-set s.monitors i j post_empty want_fill e (λ x. cc x) w, refl)
Step-waits {s} i (close j e) q w = (waits-set s.monitors i j closing finished e (λ x. cc x) w, refl)
Step-waits i _ q w = (w, refl)

Reach-Quiet : {s t : State} → Reach s t → Quiet s → Quiet t
Reach-Quiet here q = q
Reach-Quiet (next r st) q = Step-Quiet st (Reach-Quiet r q)

waits_on :
    {s t : State} (i : ℕ)
    → Reach s t
    → Quiet s
    → get_elem? s.monitors i ≡ some want_fill
    → (get_elem? t.monitors i ≡ some want_fill) × (t.got ≡ s.got)
waits_on i here q w = (w, refl)
waits_on i (next r st) q w =
    let (w', e) = waits_on i r q w in
    let (w'', e') = Step-waits i st (Reach-Quiet r q) w' in (w'', e' ∙ e)

-- Once a monitor has read the mark of the end, any other one that waits for a filled slot waits for
-- ever, whatever the processes do from then on, and nothing more is read. No message reads as -1
-- and -1 in `int`s, and the counters do not overflow.
pub other_waits :
    {blocks : List Entry} (n i : ℕ) {s t : State}
    → Reach (opened blocks n) s
    → length blocks ≡ slots
    → All IsPlain s.received
    → length s.sent ≤ counter_range
    → 1 ≤ total over s.monitors
    → get_elem? s.monitors i ≡ some want_fill
    → Reach s t
    → (get_elem? t.monitors i ≡ some want_fill) × (t.got ≡ s.got)
other_waits n i r e plain small done w r' =
    let (one, all, drained, unclaimed, stopped) = one_finishes n r e plain small done in
    waits_on i r' (record { stopped = stopped; drained = drained; unclaimed = unclaimed }) w
