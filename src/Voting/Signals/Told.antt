-- ===== src/Voting/Signals/Told.antt =====
-- Who exits, and when: the handler of the parent stops its children one by one.
use soper.Common.{
  ℕ, ◌+◌, ◌<◌, ◌≤◌, ◌≡◌, ◌≢◌, ◌==◌, true, false, Bool-cases, inl, inr, sym, ◌∙◌, arith, subst, ◌⊎◌,
  refl, ap,
}
use soper.Voting.{
  Signal, sigint, sigalrm, sigusr1, sigusr2, Recieved, nothing, usr1, int, handler, must_exit,
}
use soper.Voting.Signals.Lost.{put_self, behind-ne-gone}
use soper.Voting.Signals.{
  Pc, head, enter, lost, dozing, waiting, voting, drowsy, voted, candidate, calling, called,
  suspended, napping, dismissing, gone, Parent, pausing, killing, reaping, ended, World, put, wakes,
  noted, deliver, move, Step, check, quit, quit_inside, read_pids, clear, win, lose, test_usr1,
  test_other, pause, write_vote, pause_voted, stand, call, call_end, alarm, look, alarm_napping,
  resign, dismiss, dismiss_end, stop, kill_child, reap, end, opened, Reach, here, next,
}

-- SIGINT has been sent to child `i`.
abbrev pub IsTold : Parent → ℕ → Type 0
IsTold pausing i = ⊥
IsTold (killing k) i = i < k
IsTold (reaping k) i = i ≤ k
IsTold ended i = Unit

-- A child that has noticed SIGINT, or has exited, has been sent it.
record Told (a : Parent) (f : ℕ → Recieved) (g : ℕ → Pc) : Type 0 where
  noticed : (i : ℕ) → must_exit (f i) ≡ true → IsTold a i
  exited : (i : ℕ) → g i ≡ gone → IsTold a i

abbrev AreTold : World → Type 0
AreTold s = Told s.parent s.sig_recieved s.pc

module _ {a : Parent} {f : ℕ → Recieved} {g : ℕ → Pc} where
  moves : (j : ℕ) (p : Pc) → p ≢ gone → Told a f g → Told a f (put g j p)
  moves j p ne w = record {
    noticed = w.noticed;
    exited = λ i e. elim (Bool-cases (j == i)) [
      | inl same ↦ absurd (ne (sym (rw same refl) ∙ e))
      | inr other ↦ w.exited i (sym (rw other refl) ∙ e)
    ];
  }

  exits : (j : ℕ) → must_exit (f j) ≡ true → Told a f g → Told a f (put g j gone)
  exits j down w = record {
    noticed = w.noticed;
    exited = λ i e. elim (Bool-cases (j == i)) [
      | inl same ↦
          let h : j ≡ i = ground arith in w.noticed i (sym (ap (λ k. must_exit (f k)) h) ∙ down)
      | inr other ↦ w.exited i (sym (rw other refl) ∙ e)
    ];
  }

noted-cases :
    (sig : Signal) (r : Recieved)
    → must_exit (noted (handler false sig r)) ≡ true
    → (sig ≡ sigint) ⊎ (must_exit r ≡ true)
unfolding handler must_exit
noted-cases sigint r h = inl refl
noted-cases sigalrm r h = inr h
noted-cases sigusr1 nothing h = absurd (cc)
noted-cases sigusr1 usr1 h = absurd (cc)
noted-cases sigusr1 int h = inr h
noted-cases sigusr2 r h = inr h

wakes-gone : (sig : Signal) (p : Pc) → wakes sig p ≡ gone → p ≡ gone
wakes-gone _ waiting e = absurd (cc)
wakes-gone _ voted e = absurd (cc)
wakes-gone sigint suspended e = absurd (cc)
wakes-gone sigalrm suspended e = absurd (cc)
wakes-gone sigint napping e = absurd (cc)
wakes-gone sigalrm napping e = absurd (cc)
wakes-gone _ p e = e

delivered :
    (sig : Signal) (j : ℕ) (s : World)
    → (sig ≡ sigint → IsTold s.parent j)
    → AreTold s
    → AreTold (deliver sig j s)
unfolding deliver
delivered sig j s t w = record {
  noticed = λ i e. elim (Bool-cases (j == i)) [
    | inl same ↦
        let h : j ≡ i = ground arith in
        subst (IsTold s.parent) h
          (elim (noted-cases sig (s.sig_recieved j) (sym (rw same refl) ∙ e)) [
            | inl told ↦ t told
            | inr old ↦ w.noticed j old
          ])
    | inr other ↦ w.noticed i (sym (rw other refl) ∙ e)
  ];
  exited = λ i e. elim (Bool-cases (j == i)) [
    | inl same ↦
        let h : j ≡ i = ground arith in
        subst (IsTold s.parent) h (w.exited j (wakes-gone sig (s.pc j) (sym (rw same refl) ∙ e)))
    | inr other ↦ w.exited i (sym (rw other refl) ∙ e)
  ];
}

-- The parent goes on in its handler.
goes_on :
    {a b : Parent} {f : ℕ → Recieved} {g : ℕ → Pc}
    → ((i : ℕ) → IsTold a i → IsTold b i)
    → Told a f g
    → Told b f g
goes_on le w = record { noticed = λ i e. le i (w.noticed i e); exited = λ i e. le i (w.exited i e) }

module _ {n : ℕ} where
  Step-Told : {s t : World} → Step n s t → AreTold s → AreTold t
  unfolding must_exit
  Step-Told {s} (check j p h e up) w = moves j p (behind-ne-gone (s.pc j) e) w
  Step-Told (quit j p h e down) w = exits j down w
  Step-Told (quit_inside j k h e p down) w = exits j down w
  Step-Told (read_pids j k h e p up) w = moves j head (λ f. cc) w
  Step-Told {s} (clear j h e) w =
      moves j enter (λ f. cc)
        (record {
          noticed = λ i e'. elim (Bool-cases (j == i)) [
            | inl same ↦
                let h' : j ≡ i = ground arith in
                absurd (
                  cc (
                    ap must_exit (put_self s.sig_recieved j nothing),
                    ap (λ k. must_exit (put s.sig_recieved j nothing k)) h',
                    e',
                  ))
            | inr other ↦ w.noticed i (sym (rw other refl) ∙ e')
          ];
          exited = w.exited;
        })
  Step-Told (win j k h e p) w = moves j candidate (λ f. cc) w
  Step-Told (lose j h e p) w = moves j lost (λ f. cc) w
  Step-Told (test_usr1 j h e f) w = moves j voting (λ f. cc) w
  Step-Told (test_other j h e f) w = moves j dozing (λ f. cc) w
  Step-Told (pause j h e) w = moves j waiting (λ f. cc) w
  Step-Told (write_vote j rand k h e p up) w = moves j drowsy (λ f. cc) w
  Step-Told (pause_voted j h e) w = moves j voted (λ f. cc) w
  Step-Told (stand j rand k h e p up) w = moves j (calling 0) (λ f. cc) w
  Step-Told {s} (call j k h e k') w =
      delivered sigusr1 k (move s j (calling (k + 1))) (λ f. absurd (cc))
        (moves j (calling (k + 1)) (λ f. cc) w)
  Step-Told (call_end j h e) w = moves j called (λ f. cc) w
  Step-Told {s} (alarm j h e) w = delivered sigalrm j s (λ f. absurd (cc)) w
  Step-Told (look j k h e p) w = moves j napping (λ f. cc) w
  Step-Told {s} (alarm_napping j h e) w = delivered sigalrm j s (λ f. absurd (cc)) w
  Step-Told (resign j h e) w = moves j (dismissing 0) (λ f. cc) w
  Step-Told {s} (dismiss j k h e k') w =
      delivered sigusr1 k (move s j (dismissing (k + 1))) (λ f. absurd (cc))
        (moves j (dismissing (k + 1)) (λ f. cc) w)
  Step-Told (dismiss_end j h e) w = moves j head (λ f. cc) w
  Step-Told (stop e) w = goes_on (λ i t. absurd (subst (λ a. IsTold a i) e t)) w
  Step-Told {s} (kill_child j e h) w =
      delivered sigint j (record s { parent = reaping j }) (λ f. omega arith)
        (goes_on (λ i t. let t' = subst (λ a. IsTold a i) e t in omega arith) w)
  Step-Told (reap j e g) w = goes_on (λ i t. let t' = subst (λ a. IsTold a i) e t in omega arith) w
  Step-Told (end e) w = goes_on (λ i t. tt) w

  Reach-Told : {s : World} → Reach n opened s → AreTold s
  unfolding must_exit
  Reach-Told here = record { noticed = λ i e. absurd (cc); exited = λ i e. absurd (cc) }
  Reach-Told (next r st) = Step-Told st (Reach-Told r)

-- In every state that the processes can reach, a child that has exited was sent SIGINT by the parent.
pub exits-IsTold :
    {n : ℕ} {s : World} (i : ℕ) → Reach n opened s → s.pc i ≡ gone → IsTold s.parent i
exits-IsTold i r e = (Reach-Told r).exited i e
