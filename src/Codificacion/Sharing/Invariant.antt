-- ===== src/Codificacion/Sharing/Invariant.antt =====
-- The invariant of a run with several monitors (P3/Codificacion/monitor.c).
use soper.Common.{
  ℕ, ◌≡◌, ◌≢◌, ◌≤◌, ◌<◌, ◌⊎◌, inl, inr, ◌∙◌, ap, sym, subst, List, [], ◌∷◌, some, true, All, length,
  length-append, get_elem?, arith, refl, ◌==◌, Bool-cases,
}
use soper.Codificacion.{Block, Entry}
use soper.Codificacion.Sharing.{
  State, Shared, Checker, Monitor, Step, Reach, opened, with_monitor, slots, counter_range, abort,
  get, after_put, is_stop, entry_for, take, receive_failed, wait_empty, put_entry, post, attach,
  wait_fill, get_entry, go_on, close, want_empty, ended, outside, want_fill, post_empty, closing,
  finished, here, next,
}
use soper.Codificacion.Sharing.Counts.{
  over, Counts, sums, Step-Counts, opened-Counts, total_outside,
}
use soper.Codificacion.Sharing.Phases.{
  is_past, IsPlain, Hand, Marked, Open, Over, put_block, put-Open, put-Marked,
}
use soper.Codificacion.Sharing.Reads.{get-Open, get-Over, unread_left, got_entry}

pub record Inv (s : State) : Type 0 where
  counts : Counts s
  marked : Marked s
  hand : Hand s.checker
  pub phase : Open s ⊎ Over s

-- A step that leaves the ring and the checker alone.
move-Inv :
    (s : State) (i : ℕ) (p q : Monitor) (m : Shared)
    → get_elem? s.monitors i ≡ some p
    → over p ≡ over q
    → m.ring ≡ s.shared.ring
    → Counts (with_monitor i q m s)
    → Inv s
    → Inv (with_monitor i q m s)
move-Inv s i p q m e same r c v = record {
  counts = c;
  marked = v.marked;
  hand = v.hand;
  phase = elim v.phase [
    | inl o ↦ inl (record {
      none_over = omega (arith, sums s.monitors i p q e, o.none_over);
      window = rw r o.window;
      running = λ h. ap (λ x. x.writing) r ∙ o.running h;
    })
    | inr o ↦ inr (record {
      one_over = omega (arith, sums s.monitors i p q e, o.one_over);
      all_read = o.all_read;
      gone = o.gone;
    })
  ];
}

-- A step of the checker that leaves the ring alone.
checker-Inv :
    (s : State) (c : Checker) (m : Shared) (l : List Block)
    → s.checker ≢ ended
    → (is_past s.checker ≡ true → is_past c ≡ true)
    → m.ring ≡ s.shared.ring
    → Hand c
    → Counts (record s { checker = c; shared = m; received = l })
    → Inv s
    → Inv (record s { checker = c; shared = m; received = l })
checker-Inv s c m l ne up r h n v = record {
  counts = n;
  marked = λ k e at stops. let (last, past) = v.marked k e at stops in (last, up past);
  hand = h;
  phase = elim v.phase [
    | inl o ↦ inl (record {
      none_over = o.none_over;
      window = rw r o.window;
      running = λ run. elim (Bool-cases (is_past s.checker)) [
        | inl past ↦ absurd (cc (up past, run))
        | inr still ↦ ap (λ x. x.writing) r ∙ o.running still
      ];
    })
    | inr o ↦ absurd (ne o.gone)
  ];
}

-- Being past is kept by the step that leaves `post_fill`, and not reached before it.
after_put-past : (b : Block) → (b.end == 1) ≡ is_past (after_put b)
unfolding after_put
after_put-past b = elim (Bool-cases (b.end == 1)) [ inl e ↦ rw e | inr e ↦ rw e ]

after_put-Hand : (b : Block) → Hand (after_put b)
unfolding after_put
after_put-Hand b = elim (Bool-cases (b.end == 1)) [ inl e ↦ rw e tt | inr e ↦ rw e tt ]

abort-ring : (m : Shared) → (abort m).ring ≡ m.ring
unfolding abort
abort-ring m = refl

get-Phase :
    (s : State) (i : ℕ)
    → get_elem? s.monitors i ≡ some Monitor.want_mutex
    → length s.sent ≤ counter_range
    → Inv s
    → Open (got_entry i s) ⊎ Over (got_entry i s)
get-Phase s i e small v = elim v.phase [
  | inl o ↦ elim (Bool-cases (is_stop (get s.shared).0)) [
    | inl stops ↦ inr (get-Over s i e v.counts v.marked small o stops)
    | inr go ↦ inl (get-Open s i e v.counts small o go)
  ]
  | inr o ↦ absurd (omega (arith, unread_left s i e v.counts, o.all_read))
]

put-Phase :
    (s : State) (b : Block)
    → s.checker ≡ Checker.want_mutex b
    → length s.sent < counter_range
    → Inv s
    → Open (put_block b s)
put-Phase s b e small v = elim v.phase [
  | inl o ↦ put-Open b e v.counts small o
  | inr o ↦ absurd (cc (e, o.gone))
]

Step-Inv :
    {s t : State}
    → Step s t
    → All IsPlain t.received
    → length t.sent ≤ counter_range
    → Inv s
    → Inv t
Step-Inv {s} (take b e) plain small v =
    checker-Inv s (want_empty b) s.shared (b ∷ s.received) (λ g. absurd (cc (e, g)))
      (λ p. absurd (cc (ap is_past e, p))) refl plain.0 (Step-Counts (take b e) v.counts) v
Step-Inv {s} (receive_failed e) plain small v =
    checker-Inv s ended (abort s.shared) s.received (λ g. absurd (cc (e, g))) (λ p. refl)
      (abort-ring s.shared) tt (Step-Counts (receive_failed e) v.counts) v
Step-Inv {s} (wait_empty b k e h) plain small v =
    checker-Inv s (Checker.want_mutex b) _ s.received (λ g. absurd (cc (e, g)))
      (λ p. absurd (cc (ap is_past e, p))) refl (subst Hand e v.hand)
      (Step-Counts (wait_empty b k e h) v.counts) v
Step-Inv {s} (put_entry b e) plain small v = record {
  counts = Step-Counts (put_entry b e) v.counts;
  marked = put-Marked s b e (subst Hand e v.hand) v.marked;
  hand = tt;
  phase =
      inl
        (put-Phase s b e (omega (arith, length-append s.sent (entry_for b s.shared.ring ∷ []))) v);
}
Step-Inv {s} (post b e) plain small v =
    checker-Inv s (after_put b) _ s.received (λ g. absurd (cc (e, g)))
      (λ p. sym (after_put-past b) ∙ sym (ap is_past e) ∙ p) refl (after_put-Hand b)
      (Step-Counts (post b e) v.counts) v
Step-Inv {s} (attach i e) plain small v =
    move-Inv s i outside want_fill _ e refl refl (Step-Counts (attach i e) v.counts) v
Step-Inv {s} (wait_fill i k e h) plain small v =
    move-Inv s i want_fill Monitor.want_mutex _ e refl refl
      (Step-Counts (wait_fill i k e h) v.counts) v
Step-Inv {s} (get_entry i e) plain small v = record {
  counts = Step-Counts (get_entry i e) v.counts;
  marked = v.marked;
  hand = v.hand;
  phase = get-Phase s i e small v;
}
Step-Inv {s} (go_on i e) plain small v =
    move-Inv s i post_empty want_fill _ e refl refl (Step-Counts (go_on i e) v.counts) v
Step-Inv {s} (close i e) plain small v =
    move-Inv s i closing finished _ e refl refl (Step-Counts (close i e) v.counts) v

sent_grows : {s t : State} → Step s t → length s.sent ≤ length t.sent
sent_grows {s} (put_entry b e) =
    omega (arith, length-append s.sent (entry_for b s.shared.ring ∷ []))
sent_grows _ = omega arith

received_before : {s t : State} → Step s t → All IsPlain t.received → All IsPlain s.received
received_before (take b e) h = h.1
received_before _ h = h

opened-Inv : (blocks : List Entry) (n : ℕ) → length blocks ≡ slots → Inv (opened blocks n)
opened-Inv blocks n e = record {
  counts = opened-Counts blocks n;
  marked = λ k x at stops. absurd (cc at);
  hand = tt;
  phase = inl (record {
    none_over = total_outside over n refl;
    window = record {
      fits = e;
      reads = omega arith;
      writes = refl;
      held = λ k lo hi. absurd (omega arith);
    };
    running = λ _. omega arith;
  });
}

pub Reach-Inv :
    {blocks : List Entry} (n : ℕ) {s : State}
    → Reach (opened blocks n) s
    → length blocks ≡ slots
    → All IsPlain s.received
    → length s.sent ≤ counter_range
    → Inv s
Reach-Inv {blocks} n here e plain small = opened-Inv blocks n e
Reach-Inv n (next r st) e plain small =
    Step-Inv st plain small
      (Reach-Inv n r e (received_before st plain) (omega (arith, sent_grows st)))
