-- ===== src/Codificacion/Sharing/Reads.antt =====
-- A read in the first phase: it goes on, or it is the last one (P3/Codificacion/monitor.c).
use soper.Common.{
  ℕ, ◌+◌, ◌≡◌, ◌≤◌, ◌<◌, ◌∙◌, ap, sym, [], ◌∷◌, ◌++◌, Option, none, some, true, false, length,
  length-append, get_elem?, set, arith, refl,
}
use soper.Buffer.{Ring, read}
use soper.Buffer.Fifo.{Window, read-Window}
use soper.Codificacion.{Entry}
use soper.Codificacion.Sharing.{
  State, Shared, Checker, Monitor, slots, counter_range, get, after_get, is_stop, receive,
  want_empty, post_fill, ended, outside,
}
use soper.Codificacion.Sharing.Counts.{over, unfilled, Counts, sums}
use soper.Codificacion.Sharing.Phases.{is_past, at_length, Marked, Open, Over}

get-plain :
    (m : Shared) → is_stop (get m).0 ≡ false → (get m).1.ring ≡ (read slots counter_range m.ring).1
unfolding get
get-plain m e = rw e

get-read : (m : Shared) → (get m).0 ≡ (read slots counter_range m.ring).0
unfolding get
get-read m = refl

-- A read.
after_get-over : (e : Option Entry) → is_stop e ≡ false → over (after_get e) ≡ 0
unfolding after_get
after_get-over e h = rw h

after_get-closing : (e : Option Entry) → is_stop e ≡ true → over (after_get e) ≡ 1
unfolding after_get
after_get-closing e h = rw h

some_stop : (e : Option Entry) → is_stop e ≡ true → (x : Entry) × (e ≡ some x)
unfolding is_stop
some_stop none h = absurd (cc h)
some_stop (some x) h = (x, refl)

pub unread_left :
    (s : State) (i : ℕ)
    → get_elem? s.monitors i ≡ some Monitor.want_mutex
    → Counts s
    → length s.got < length s.sent
unread_left s i e c = omega (arith, sums s.monitors i Monitor.want_mutex outside e, c.filled)

get-Window :
    (s : State) (i : ℕ)
    → get_elem? s.monitors i ≡ some Monitor.want_mutex
    → Counts s
    → length s.sent ≤ counter_range
    → Open s
    → ((get s.shared).0 ≡ get_elem? s.sent (length s.got))
      × Window slots counter_range
          (at_length (read slots counter_range s.shared.ring).1 s.sent)
          s.sent
          (length s.got + 1)
unfolding read
get-Window s i e c small o =
    let (f, w) =
      read-Window (omega arith) (at_length s.shared.ring s.sent) s.sent (length s.got)
        (unread_left s i e c) small o.window in
    (get-read s.shared ∙ f, w)

pub ended_lem : (c : Checker) → is_past c ≡ true → unfilled c ≡ 0 → c ≡ ended
ended_lem receive p z = absurd (cc p)
ended_lem (want_empty b) p z = absurd (cc p)
ended_lem (Checker.want_mutex b) p z = absurd (cc p)
ended_lem (post_fill b) p z = absurd (omega arith)
ended_lem ended p z = refl

-- The state after a read.
abbrev pub got_entry : ℕ → State → State
got_entry i s = record s {
  monitors = set s.monitors i (after_get (get s.shared).0);
  shared = (get s.shared).1;
  got = s.got ++ ((get s.shared).0 ∷ []);
}

read-writing : (r : Ring Entry) → (read slots counter_range r).1.writing ≡ r.writing
unfolding read
read-writing r = refl

pub get-Open :
    (s : State) (i : ℕ)
    → get_elem? s.monitors i ≡ some Monitor.want_mutex
    → Counts s
    → length s.sent ≤ counter_range
    → Open s
    → is_stop (get s.shared).0 ≡ false
    → Open (got_entry i s)
get-Open s i e c small o go = record {
  none_over = omega (
    arith,
    sums s.monitors i Monitor.want_mutex (after_get (get s.shared).0) e,
    after_get-over (get s.shared).0 go,
    o.none_over,
  );
  window =
      rw (length-append s.got ((get s.shared).0 ∷ []), get-plain s.shared go)
        (get-Window s i e c small o).1;
  running =
      λ p. ap (λ r. r.writing) (get-plain s.shared go) ∙ read-writing s.shared.ring ∙ o.running p;
}

pub get-Over :
    (s : State) (i : ℕ)
    → get_elem? s.monitors i ≡ some Monitor.want_mutex
    → Counts s
    → Marked s
    → length s.sent ≤ counter_range
    → Open s
    → is_stop (get s.shared).0 ≡ true
    → Over (got_entry i s)
get-Over s i e c mk small o stops =
    let (x, is) = some_stop (get s.shared).0 stops in
    let (last, past) =
      mk (length s.got) x (sym (get-Window s i e c small o).0 ∙ is) (ap is_stop (sym is) ∙ stops) in
    record {
      one_over = omega (
        arith,
        sums s.monitors i Monitor.want_mutex (after_get (get s.shared).0) e,
        after_get-closing (get s.shared).0 stops,
        o.none_over,
      );
      all_read = omega (arith, length-append s.got ((get s.shared).0 ∷ []), last);
      gone =
          ended_lem s.checker past
            (omega (arith, sums s.monitors i Monitor.want_mutex outside e, c.filled, last));
    }
