-- ===== src/Voting/Signals/Lost.antt =====
-- SIGINT that comes between the `check_sigint` at the start of `loop` and `sig_recieved = 0`.
use soper.Common.{
  ℕ, ◌+◌, ◌<◌, ap, ◌≡◌, ◌≢◌, ◌==◌, true, false, Bool-cases, inl, inr, sym, ◌∙◌, some, arith, refl,
}
use soper.Voting.{
  Signal, sigint, sigalrm, sigusr1, sigusr2, Recieved, nothing, usr1, int, handler, must_exit,
}
use soper.Voting.Signals.{
  Pc, starting, head, reset, enter, lost, waiting, woken, dozing, voting, drowsy, voted, candidate,
  calling, called, suspended, polling, napping, dismissing, gone, Parent, killing, reaping, World,
  put, wakes, noted, deliver, move, behind_check, Step, check, quit, quit_inside, read_pids, clear,
  win, lose, test_usr1, test_other, pause, write_vote, pause_voted, stand, call, call_end, alarm,
  look, alarm_napping, resign, dismiss, dismiss_end, stop, kill_child, reap, end, opened, Reach,
  here, next,
}

-- The parent waits for child `i`, which has not noticed its SIGINT and has not exited.
record Holds (i : ℕ) (parent : Parent) (sig_recieved : ℕ → Recieved) (pc : ℕ → Pc) : Type 0 where
  reaps : parent ≡ reaping i
  unaware : must_exit (sig_recieved i) ≡ false
  lives : pc i ≢ gone

abbrev Waits : ℕ → World → Type 0
Waits i s = Holds i s.parent s.sig_recieved s.pc

module _ (i : ℕ) {a : Parent} {f : ℕ → Recieved} {g : ℕ → Pc} where
  moved : (j : ℕ) (p : Pc) → p ≢ gone → Holds i a f g → Holds i a f (put g j p)
  moved j p ne w = record {
    reaps = w.reaps;
    unaware = w.unaware;
    lives = elim (Bool-cases (j == i)) [
      | inl same ↦ λ e. ne (sym (rw same refl) ∙ e)
      | inr other ↦ λ e. w.lives (sym (rw other refl) ∙ e)
    ];
  }

  -- A child that exits has noticed its SIGINT, and is another.
  exited : (j : ℕ) → must_exit (f j) ≡ true → Holds i a f g → Holds i a f (put g j gone)
  exited j down w = record {
    reaps = w.reaps;
    unaware = w.unaware;
    lives = elim (Bool-cases (j == i)) [
      | inl same ↦
          let e : j ≡ i = ground arith in
          λ x. absurd (cc (ap (λ k. must_exit (f k)) e, down, w.unaware))
      | inr other ↦ λ e. w.lives (sym (rw other refl) ∙ e)
    ];
  }

pub behind-ne-gone : (q : Pc) {p : Pc} → behind_check q ≡ some p → p ≢ gone
behind-ne-gone starting e f = absurd (cc)
behind-ne-gone head e f = absurd (cc)
behind-ne-gone lost e f = absurd (cc)
behind-ne-gone woken e f = absurd (cc)
behind-ne-gone candidate e f = absurd (cc)
behind-ne-gone called e f = absurd (cc)
behind-ne-gone polling e f = absurd (cc)
behind-ne-gone _ e f = absurd (cc)

pub wakes-ne-gone : (sig : Signal) (p : Pc) → p ≢ gone → wakes sig p ≢ gone
wakes-ne-gone _ waiting h e = absurd (cc)
wakes-ne-gone _ voted h e = absurd (cc)
wakes-ne-gone sigint suspended h e = absurd (cc)
wakes-ne-gone sigalrm suspended h e = absurd (cc)
wakes-ne-gone sigint napping h e = absurd (cc)
wakes-ne-gone sigalrm napping h e = absurd (cc)
wakes-ne-gone _ p h e = h e

pub unaware-noted :
    (sig : Signal) (r : Recieved)
    → sig ≢ sigint
    → must_exit r ≡ false
    → must_exit (noted (handler false sig r)) ≡ false
unfolding handler must_exit
unaware-noted sigint r ne h = absurd (ne refl)
unaware-noted sigalrm r ne h = h
unaware-noted sigusr1 nothing ne h = refl
unaware-noted sigusr1 usr1 ne h = refl
unaware-noted sigusr1 int ne h = h
unaware-noted sigusr2 r ne h = h

-- A signal other than SIGINT, to any child.
delivered :
    (i : ℕ) (sig : Signal) (j : ℕ) (s : World)
    → sig ≢ sigint
    → Waits i s
    → Waits i (deliver sig j s)
unfolding deliver
delivered i sig j s ne w = record {
  reaps = w.reaps;
  unaware = elim (Bool-cases (j == i)) [
    | inl same ↦
        let e : j ≡ i = ground arith in
        rw (same, e) (unaware-noted sig (s.sig_recieved i) ne w.unaware)
    | inr other ↦ rw other w.unaware
  ];
  lives = elim (Bool-cases (j == i)) [
    | inl same ↦ let e : j ≡ i = ground arith in rw (same, e) (wakes-ne-gone sig (s.pc i) w.lives)
    | inr other ↦ rw other w.lives
  ];
}

module _ (i : ℕ) {n : ℕ} where
  Step-Waits : {s t : World} → Step n s t → Waits i s → Waits i t
  unfolding must_exit
  Step-Waits {s} (check j p h e up) w = moved i j p (behind-ne-gone (s.pc j) e) w
  Step-Waits (quit j p h e down) w = exited i j down w
  Step-Waits (quit_inside j k h e p down) w = exited i j down w
  Step-Waits (read_pids j k h e p up) w = moved i j head (λ f. cc) w
  Step-Waits {s} (clear j h e) w =
      moved i j enter (λ f. cc)
        (record {
          reaps = w.reaps;
          unaware = elim (Bool-cases (j == i)) [
            | inl same ↦ rw same refl
            | inr other ↦ rw other w.unaware
          ];
          lives = w.lives;
        })
  Step-Waits (win j k h e p) w = moved i j candidate (λ f. cc) w
  Step-Waits (lose j h e p) w = moved i j lost (λ f. cc) w
  Step-Waits (test_usr1 j h e f) w = moved i j voting (λ f. cc) w
  Step-Waits (test_other j h e f) w = moved i j dozing (λ f. cc) w
  Step-Waits (pause j h e) w = moved i j waiting (λ f. cc) w
  Step-Waits (write_vote j rand k h e p up) w = moved i j drowsy (λ f. cc) w
  Step-Waits (pause_voted j h e) w = moved i j voted (λ f. cc) w
  Step-Waits (stand j rand k h e p up) w = moved i j (calling 0) (λ f. cc) w
  Step-Waits {s} (call j k h e k') w =
      delivered i sigusr1 k (move s j (calling (k + 1))) (λ f. cc)
        (moved i j (calling (k + 1)) (λ f. cc) w)
  Step-Waits (call_end j h e) w = moved i j called (λ f. cc) w
  Step-Waits {s} (alarm j h e) w = delivered i sigalrm j s (λ f. cc) w
  Step-Waits (look j k h e p) w = moved i j napping (λ f. cc) w
  Step-Waits {s} (alarm_napping j h e) w = delivered i sigalrm j s (λ f. cc) w
  Step-Waits (resign j h e) w = moved i j (dismissing 0) (λ f. cc) w
  Step-Waits {s} (dismiss j k h e k') w =
      delivered i sigusr1 k (move s j (dismissing (k + 1))) (λ f. cc)
        (moved i j (dismissing (k + 1)) (λ f. cc) w)
  Step-Waits (dismiss_end j h e) w = moved i j head (λ f. cc) w
  Step-Waits (stop e) w = absurd (cc (e, w.reaps))
  Step-Waits (kill_child j e h) w = absurd (cc (e, w.reaps))
  Step-Waits {s} (reap j e g) w = absurd (ground arith)
  Step-Waits (end e) w = absurd (cc (e, w.reaps))

  Reach-Waits : {s t : World} → Reach n s t → Waits i s → Waits i t
  Reach-Waits here w = w
  Reach-Waits (next r st) w = Step-Waits st (Reach-Waits r w)

pub put_self : {A : Type 0} (f : ℕ → A) (i : ℕ) (a : A) → put f i a i ≡ a
put_self f i a = ground arith

-- From every state in which the parent is about to send SIGINT to child `i`, and this child stands
-- between its `check_sigint` and `sig_recieved = 0`, a state can be reached in which the signal has
-- been sent and forgotten. From then on, whatever the processes do as long as no call inside of a
-- section fails, the child does not exit, and the parent waits for it and stops none of the children
-- behind it.
pub int_lost :
    {n : ℕ} {s : World} (i : ℕ)
    → Reach n opened s
    → i < n
    → s.parent ≡ killing i
    → s.pc i ≡ reset
    → (t : World) × Reach n opened t
      × ((v : World) → Reach n t v → (v.parent ≡ reaping i) × (v.pc i ≢ gone))
unfolding deliver handler must_exit
int_lost {n} {s} i r h k e =
    let d = deliver sigint i (record s { parent = reaping i }) in
    let at : d.pc i ≡ reset = ground arith in
    (
      _,
      next (next r (kill_child i k h)) (clear i h at),
      λ v q.
          let w = Reach-Waits i q (record {
            reaps = refl;
            unaware = ap must_exit (put_self d.sig_recieved i nothing);
            lives = λ f. cc (put_self d.pc i enter, f);
          }) in
          (w.reaps, w.lives),
    )
