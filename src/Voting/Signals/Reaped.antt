-- ===== src/Voting/Signals/Reaped.antt =====
-- What the parent's handler has waited for: the children that it has done with have exited.
use soper.Common.{
  ℕ, ◌+◌, ◌<◌, ◌≡◌, ◌≢◌, ◌==◌, Bool-cases, inl, inr, ◌∙◌, some, arith, dec_lt, subst, refl, ap,
}
use soper.Voting.{Signal, sigint, sigalrm, sigusr1}
use soper.Voting.Signals.{
  Pc, head, enter, lost, dozing, waiting, voting, drowsy, voted, candidate, calling, called,
  napping, dismissing, gone, Parent, pausing, killing, reaping, ended, World, put, wakes, deliver,
  move, behind_check, is_checked_inside, Step, check, quit, quit_inside, read_pids, clear, win,
  lose, test_usr1, test_other, pause, write_vote, pause_voted, stand, call, call_end, alarm, look,
  alarm_napping, resign, dismiss, dismiss_end, stop, kill_child, reap, end, opened, Reach, here,
  next,
}

-- The children that the handler has done with have exited.
abbrev Reaped : ℕ → Parent → (ℕ → Pc) → Type 0
Reaped n pausing g = Unit
Reaped n (killing k) g = (i : ℕ) → i < k → g i ≡ gone
Reaped n (reaping k) g = (i : ℕ) → i < k → g i ≡ gone
Reaped n ended g = (i : ℕ) → i < n → g i ≡ gone

Reaped-mono :
    (n : ℕ) (a : Parent) {f g : ℕ → Pc}
    → ((i : ℕ) → f i ≡ gone → g i ≡ gone)
    → Reaped n a f
    → Reaped n a g
Reaped-mono n pausing stays w = tt
Reaped-mono n (killing k) stays w = λ i h. stays i (w i h)
Reaped-mono n (reaping k) stays w = λ i h. stays i (w i h)
Reaped-mono n ended stays w = λ i h. stays i (w i h)

put-gone : (f : ℕ → Pc) (j : ℕ) (p : Pc) → f j ≢ gone → (i : ℕ) → f i ≡ gone → put f j p i ≡ gone
put-gone f j p ne i e = elim (Bool-cases (j == i)) [
  | inl same ↦ let h : j ≡ i = ground arith in absurd (ne (ap f h ∙ e))
  | inr other ↦ rw other e
]

wakes-stays : (sig : Signal) (p : Pc) → p ≡ gone → wakes sig p ≡ gone
wakes-stays sig p e = rw e refl

deliver-gone :
    (sig : Signal) (j : ℕ) (s : World) (i : ℕ) → s.pc i ≡ gone → (deliver sig j s).pc i ≡ gone
unfolding deliver
deliver-gone sig j s i e = elim (Bool-cases (j == i)) [
  | inl same ↦ let h : j ≡ i = ground arith in rw (same, h) (wakes-stays sig (s.pc i) e)
  | inr other ↦ rw other e
]

checks-ne-gone : (q : Pc) {p : Pc} → behind_check q ≡ some p → q ≢ gone
checks-ne-gone q e f = absurd (cc (ap behind_check f, e))

-- A child that has exited stays so.
Step-gone : {n : ℕ} {s t : World} → Step n s t → (i : ℕ) → s.pc i ≡ gone → t.pc i ≡ gone
Step-gone {s} (check j p h e up) = put-gone s.pc j p (checks-ne-gone (s.pc j) e)
Step-gone {s} (quit j p h e down) = put-gone s.pc j gone (checks-ne-gone (s.pc j) e)
Step-gone {s} (quit_inside j k h e p down) =
    put-gone s.pc j gone (λ f. cc (ap is_checked_inside f, e))
Step-gone {s} (read_pids j k h e p up) = put-gone s.pc j head (λ f. cc)
Step-gone {s} (clear j h e) = put-gone s.pc j enter (λ f. cc)
Step-gone {s} (win j k h e p) = put-gone s.pc j candidate (λ f. cc)
Step-gone {s} (lose j h e p) = put-gone s.pc j lost (λ f. cc)
Step-gone {s} (test_usr1 j h e f) = put-gone s.pc j voting (λ f'. cc)
Step-gone {s} (test_other j h e f) = put-gone s.pc j dozing (λ f'. cc)
Step-gone {s} (pause j h e) = put-gone s.pc j waiting (λ f. cc)
Step-gone {s} (write_vote j rand k h e p up) = put-gone s.pc j drowsy (λ f. cc)
Step-gone {s} (pause_voted j h e) = put-gone s.pc j voted (λ f. cc)
Step-gone {s} (stand j rand k h e p up) = put-gone s.pc j (calling 0) (λ f. cc)
Step-gone {s} (call j k h e k') = λ i g.
    deliver-gone sigusr1 k (move s j (calling (k + 1))) i
      (put-gone s.pc j (calling (k + 1)) (λ f. cc) i g)
Step-gone {s} (call_end j h e) = put-gone s.pc j called (λ f. cc)
Step-gone {s} (alarm j h e) = deliver-gone sigalrm j s
Step-gone {s} (look j k h e p) = put-gone s.pc j napping (λ f. cc)
Step-gone {s} (alarm_napping j h e) = deliver-gone sigalrm j s
Step-gone {s} (resign j h e) = put-gone s.pc j (dismissing 0) (λ f. cc)
Step-gone {s} (dismiss j k h e k') = λ i g.
    deliver-gone sigusr1 k (move s j (dismissing (k + 1))) i
      (put-gone s.pc j (dismissing (k + 1)) (λ f. cc) i g)
Step-gone {s} (dismiss_end j h e) = put-gone s.pc j head (λ f. cc)
Step-gone {s} (kill_child j e h) = deliver-gone sigint j (record s { parent = reaping j })
Step-gone _ = λ i g. g

Step-Reaped : {n : ℕ} {s t : World} → Step n s t → Reaped n s.parent s.pc → Reaped n t.parent t.pc
unfolding deliver
Step-Reaped (stop e) w = λ i h. absurd (omega arith)
Step-Reaped {n} {s} (kill_child j e h) w =
    Reaped-mono n (reaping j) (deliver-gone sigint j (record s { parent = reaping j }))
      (subst (λ a. Reaped n a s.pc) e w)
Step-Reaped {n} {s} (reap j e g) w = λ i h. elim (dec_lt i j) [
  | yes lt ↦ subst (λ a. Reaped n a s.pc) e w i lt
  | no ge ↦ let e' : i ≡ j = omega arith in ap s.pc e' ∙ g
]
Step-Reaped {n} {s} (end e) w = subst (λ a. Reaped n a s.pc) e w
Step-Reaped {n} {s} st w = Reaped-mono n s.parent (Step-gone st) w

Reach-Reaped : {n : ℕ} {s : World} → Reach n opened s → Reaped n s.parent s.pc
Reach-Reaped here = tt
Reach-Reaped (next r st) = Step-Reaped st (Reach-Reaped r)

-- When the parent's handler has come to its end, all children have exited, however the processes ran.
pub ended-gone :
    {n : ℕ} {s : World} (i : ℕ) → Reach n opened s → s.parent ≡ ended → i < n → s.pc i ≡ gone
ended-gone {n} {s} i r e h = subst (λ a. Reaped n a s.pc) e (Reach-Reaped r) i h
