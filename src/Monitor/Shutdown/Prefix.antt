-- ===== src/Monitor/Shutdown/Prefix.antt =====
-- What the monitor prints while SIGINT may come to it, and not to the checker.
use soper.Common.{
  ℕ, zero, suc, ◌≡◌, ◌≤◌, List, [], ◌∷◌, ◌++◌, true, false, Bool-cases, inl, inr, length, take,
  drop, length-append, append_assoc, append-nil, arith, refl, ap, sym, ◌∙◌,
}
use soper.Network.{Block}
use soper.Buffer.Fifo.{read_in_order}
use soper.Monitor.{buffer_length, counter_range, monitor_loop}
use soper.Monitor.Delivery.{copied, copied-map}
use soper.Monitor.Shutdown.{
  Monitor, World, Step, Reach, begin, next, write_block, look, stop, take_fill, monitor_lock,
  read_block, monitor_unlock, post_empty, break, keep, print, wakes_fill, wakes_monitor_lock,
}
use soper.Monitor.Shutdown.Following.{held, Follows, Reach-Follows, checker_up}
use soper.Monitor.Shutdown.Printing.{Reach-printed}

-- The block that it prints also if the signal comes now.
abbrev due : Monitor → List Block
due (Monitor.report b) = b ∷ []
due _ = []

-- What is printed comes, in order, from the blocks that were written first.
abbrev pub Begins : World → Type 0
Begins s = (rest : List Block) × (s.written ≡ (s.shown ++ due s.monitor) ++ rest)

take-drop : (n : ℕ) (xs : List Block) → take n xs ++ drop n xs ≡ xs
take-drop zero xs = refl
take-drop (suc n) [] = refl
take-drop (suc n) (x ∷ xs) = ap (λ l. x ∷ l) (take-drop n xs)

-- The block that is held is due, or will not be printed if the signal comes now.
held-due : (m : Monitor) → (rest : List Block) × (held m ≡ due m ++ rest)
held-due Monitor.head = ([], refl)
held-due Monitor.want_fill = ([], refl)
held-due Monitor.want_mutex = ([], refl)
held-due Monitor.reading = ([], refl)
held-due (Monitor.leave b) = (b ∷ [], refl)
held-due (Monitor.post_empty b) = (b ∷ [], refl)
held-due (Monitor.test b) = (b ∷ [], refl)
held-due (Monitor.report b) = ([], refl)
held-due Monitor.ended = ([], refl)

split_at :
    (shown d rest : List Block) {h written : List Block} (n : ℕ)
    → h ≡ d ++ rest
    → shown ++ h ≡ take n written
    → written ≡ (shown ++ d) ++ (rest ++ drop n written)
split_at shown d rest {written} n e first =
    sym (take-drop n written)
    ∙ ap (λ l. l ++ drop n written) (sym first ∙ ap (λ l. shown ++ l) e)
    ∙ simp (append_assoc)

Follows-Begins :
    {blocks : List Block} {s : World}
    → length blocks ≡ buffer_length
    → length s.written ≤ counter_range
    → Follows blocks s
    → Begins s
Follows-Begins {blocks} {s} e small (u, r, f) =
    let order = (read_in_order (omega arith) r e (omega (arith, ap length f.sent))).1 in
    let first : s.shown ++ held s.monitor ≡ take (length u.got) s.written =
      sym (copied-map _)
      ∙ ap copied (sym f.got ∙ order)
      ∙ copied-map _
      ∙ ap (take (length u.got)) f.sent in
    let (rest, e') = held-due s.monitor in
    (
      rest ++ drop (length u.got) s.written,
      split_at s.shown (due s.monitor) rest (length u.got) e' first,
    )

due_at :
    (shown rest : List Block) {m m' : Monitor} {written : List Block}
    → m ≡ m'
    → written ≡ (shown ++ due m) ++ rest
    → written ≡ (shown ++ due m') ++ rest
due_at shown rest at e = e ∙ ap (λ x. (shown ++ due x) ++ rest) at

-- Once the signal has come nothing is due any more but the block that is being printed.
Step-Begins : {s t : World} → Step s t → t.monitor_down ≡ true → Begins s → Begins t
Step-Begins {s} (write_block b at) m (rest, e) =
    (rest ++ (b ∷ []), rw e (append_assoc (s.shown ++ due s.monitor) rest (b ∷ [])))
Step-Begins (look at up) m w = absurd (cc)
Step-Begins {s} (stop at down) m (rest, e) = (rest, due_at s.shown rest at e)
Step-Begins {s} (take_fill e at e') m (rest, h) = (rest, due_at s.shown rest at h)
Step-Begins {s} (monitor_lock e at e') m (rest, h) = (rest, due_at s.shown rest at h)
Step-Begins {s} (read_block b at e) m (rest, h) = (rest, due_at s.shown rest at h)
Step-Begins {s} (monitor_unlock b at) m (rest, e) = (rest, due_at s.shown rest at e)
Step-Begins {s} (post_empty b at) m (rest, e) = (rest, due_at s.shown rest at e)
Step-Begins {s} (break b at down) m (rest, e) = (rest, due_at s.shown rest at e)
Step-Begins (keep b at up) m w = absurd (cc)
Step-Begins {s} (print b at) m (rest, e) =
    (rest, due_at s.shown rest at e ∙ ap (λ l. l ++ rest) (sym (append-nil (s.shown ++ (b ∷ [])))))
Step-Begins {s} (wakes_fill at e) m (rest, h) = (rest, due_at s.shown rest at h)
Step-Begins {s} (wakes_monitor_lock at e) m (rest, h) = (rest, due_at s.shown rest at h)
Step-Begins _ m w = w

written_grows : {s t : World} → Step s t → length s.written ≤ length t.written
written_grows {s} (write_block b at) = omega (arith, length-append s.written (b ∷ []))
written_grows _ = omega arith

Reach-Begins :
    {blocks : List Block} {s : World}
    → Reach blocks s
    → length blocks ≡ buffer_length
    → s.checker_down ≡ false
    → length s.written ≤ counter_range
    → Begins s
Reach-Begins begin e c small = ([], refl)
Reach-Begins {s = t} (next {s} r st) e c small = elim (Bool-cases t.monitor_down) [
  | inl down ↦
      Step-Begins st down (Reach-Begins r e (checker_up st c) (omega (arith, written_grows st)))
  | inr up ↦ Follows-Begins e small (Reach-Follows (next r st) c up)
]

-- SIGINT may come to the monitor at any moment and as often as it likes, also while it waits, and
-- then it reads a slot that may hold nothing new. Whatever it has printed is, in order and without a
-- gap, what `monitor_loop` prints of the blocks that were written first. No signal has come to the
-- checker, and it has written at most 256 blocks.
pub printed_first :
    {blocks : List Block} {s : World}
    → Reach blocks s
    → length blocks ≡ buffer_length
    → s.checker_down ≡ false
    → length s.written ≤ counter_range
    → (rest : List Block) × (s.written ≡ s.shown ++ rest) × (s.printed ≡ monitor_loop 0 s.shown)
printed_first {s = s} r e c small =
    let (rest, first) = Reach-Begins r e c small in
    (due s.monitor ++ rest, first ∙ append_assoc s.shown (due s.monitor) rest, Reach-printed r)
