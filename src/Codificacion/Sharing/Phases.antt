-- ===== src/Codificacion/Sharing/Phases.antt =====
-- The phases of a run with several monitors: until a monitor reads the mark of the end, and from then
-- on (P3/Codificacion/monitor.c).
use soper.Common.{
  ℕ, zero, suc, ◌+◌, ◌%◌, ◌≡◌, ◌≢◌, ◌<◌, inl, inr, ◌∙◌, ap, sym, List, [], ◌∷◌, ◌++◌, some, Bool,
  true, false, length, length-append, get_elem?, get_elem?-append_left, get_elem?-append_last,
  arith, refl, ◌==◌, if◌then◌else◌, eqb_ℤ, pos, dec_lt, Bool-cases,
}
use soper.Buffer.{Ring, write}
use soper.Buffer.Fifo.{Window, write-Window}
use soper.Codificacion.{Block, Entry, check}
use soper.Codificacion.Sharing.{
  State, Shared, Checker, slots, counter_range, resign, skip_write, put, is_stop, entry_for,
  want_empty, post_fill, ended,
}
use soper.Codificacion.Sharing.Counts.{total, over, Counts}

-- Whether the checker has written the mark of the end or has left.
abbrev pub is_past : Checker → Bool
is_past (post_fill b) = b.end == 1
is_past ended = true
is_past _ = false

-- A message that does not read as the mark.
abbrev pub IsPlain : Block → Type 0
IsPlain b = is_stop (some (check b)) ≡ false

abbrev pub Hand : Checker → Type 0
Hand (want_empty b) = IsPlain b
Hand (Checker.want_mutex b) = IsPlain b
Hand _ = Unit

-- The ring up to `writing`, which is counted up twice at the end.
abbrev pub at_length : Ring Entry → List Entry → Ring Entry
at_length r sent = record r { writing = length sent % counter_range }

pub record Open (s : State) : Type 0 where
  pub none_over : total over s.monitors ≡ 0
  pub window : Window slots counter_range (at_length s.shared.ring s.sent) s.sent (length s.got)
  pub running : is_past s.checker ≡ false → s.shared.ring.writing ≡ length s.sent % counter_range

pub record Over (s : State) : Type 0 where
  pub one_over : total over s.monitors ≡ 1
  pub all_read : length s.got ≡ length s.sent
  pub gone : s.checker ≡ ended

-- The mark is the last entry.
abbrev pub Marked : State → Type 0
Marked s =
    (k : ℕ) (e : Entry)
    → get_elem? s.sent k ≡ some e
    → is_stop (some e) ≡ true
    → (k + 1 ≡ length s.sent) × (is_past s.checker ≡ true)

-- What a protected part leaves of the ring.
abbrev shape : Shared → List Entry × ℕ
shape m = (m.ring.blocks, m.ring.reading)

shape-if :
    (c : Bool) (x y : Shared) (p : List Entry × ℕ)
    → shape x ≡ p
    → shape y ≡ p
    → shape (if c then x else y) ≡ p
shape-if true x y p e e' = e
shape-if false x y p e e' = e'

resign-shape : (m : Shared) → shape (resign m) ≡ shape m
unfolding resign
resign-shape m = shape-if (eqb_ℤ m.using (pos 1)) _ _ _ refl refl

skip_write-shape : (m : Shared) → shape (skip_write m) ≡ shape m
unfolding skip_write
skip_write-shape m = shape-if (eqb_ℤ m.using (pos 1)) _ _ _ refl refl

abbrev pub written : Block → Shared → Ring Entry
written b m = write slots counter_range (entry_for b m.ring) m.ring

put-shape :
    (b : Block) (m : Shared) → shape (put b m) ≡ ((written b m).blocks, (written b m).reading)
unfolding put
put-shape b m = shape-if (b.end == 1) _ _ _ (resign-shape _ ∙ skip_write-shape _) refl

put-running : (b : Block) (m : Shared) → (b.end == 1) ≡ false → (put b m).ring ≡ written b m
unfolding put
put-running b m e = rw e

entry_for-plain : (b : Block) (r : Ring Entry) → (b.end == 1) ≡ false → entry_for b r ≡ check b
unfolding entry_for
entry_for-plain b r e = rw e

get_elem?-lt : {A : Type 0} (xs : List A) (k : ℕ) (x : A) → get_elem? xs k ≡ some x → k < length xs
get_elem?-lt [] k x e = absurd (cc e)
get_elem?-lt (_ ∷ xs) zero x e = omega arith
get_elem?-lt (_ ∷ xs) (suc k) x e = omega (arith, get_elem?-lt xs k x e)

-- The state after a write.
abbrev pub put_block : Block → State → State
put_block b s = record s {
  checker = post_fill b;
  shared = put b s.shared;
  sent = s.sent ++ (entry_for b s.shared.ring ∷ []);
}

pub put-Open :
    {s : State} (b : Block)
    → s.checker ≡ Checker.want_mutex b
    → Counts s
    → length s.sent < counter_range
    → Open s
    → Open (put_block b s)
put-Open {s} b e c small o = record {
  none_over = o.none_over;
  window = record {
    fits = ap length (ap (λ p. p.0) (put-shape b s.shared)) ∙ w.fits;
    reads = ap (λ p. p.1) (put-shape b s.shared) ∙ w.reads;
    writes = refl;
    held = λ k lo hi. ap (λ p. get_elem? p.0 (k % slots)) (put-shape b s.shared) ∙ w.held k lo hi;
  };
  running = λ p. ap (λ r. r.writing) (put-running b s.shared p) ∙ w.writes;
}
  where
    at : s.shared.ring.writing ≡ length s.sent % counter_range
    at = o.running (rw e)

    w :
        Window slots counter_range
          (written b s.shared)
          (s.sent ++ (entry_for b s.shared.ring ∷ []))
          (length s.got)
    w =
        write-Window (omega arith) (entry_for b s.shared.ring) s.shared.ring s.sent (length s.got)
          small (ground arith) (ground arith)
          (record {
            fits = o.window.fits;
            reads = o.window.reads;
            writes = at;
            held = o.window.held;
          })

-- Nothing written while the checker runs is a mark.
pub running-Marked :
    (s : State) (k : ℕ) (e : Entry)
    → Marked s
    → is_past s.checker ≡ false
    → get_elem? s.sent k ≡ some e
    → is_stop (some e) ≢ true
running-Marked s k e mk run at stops = let p = (mk k e at stops).1 in absurd (cc (p, run))

marked_end :
    (b : Block) (r : Ring Entry)
    → IsPlain b
    → is_stop (some (entry_for b r)) ≡ true
    → (b.end == 1) ≡ true
marked_end b r plain stops = elim (Bool-cases (b.end == 1)) [
  | inl e ↦ e
  | inr e ↦ absurd (cc (stops, entry_for-plain b r e, plain))
]

pub put-Marked :
    (s : State) (b : Block)
    → s.checker ≡ Checker.want_mutex b
    → IsPlain b
    → Marked s
    → Marked (put_block b s)
put-Marked s b h plain mk k e at stops = elim (dec_lt k (length s.sent)) [
  | yes old ↦ absurd (
      running-Marked s k e mk (rw h) (sym (get_elem?-append_left s.sent (x ∷ []) k old) ∙ at) stops)
  | no new ↦
      let here : k ≡ length s.sent =
        omega (arith, get_elem?-lt (s.sent ++ (x ∷ [])) k e at, length-append s.sent (x ∷ [])) in
      let same : some x ≡ some e =
        sym (get_elem?-append_last s.sent x)
        ∙ ap (get_elem? (s.sent ++ (x ∷ []))) (sym here)
        ∙ at in
      (
        omega (arith, length-append s.sent (x ∷ [])),
        marked_end b s.shared.ring plain (ap is_stop same ∙ stops),
      )
]
  where
    x : Entry
    x = entry_for b s.shared.ring
