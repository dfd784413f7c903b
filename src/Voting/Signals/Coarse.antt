-- ===== src/Voting/Signals/Coarse.antt =====
-- The processes with their signals do nothing that `Voting` does not allow.
use mathlib.Core.Path.{fun_ext}
use soper.Common.{
  ℕ, ◌+◌, ◌<◌, ◌≡◌, true, some, arith, [], ◌∷◌, ◌++◌, refl, ap, sym, subst, inl, inr, ◌⊎◌,
}
use soper.Voting
use soper.Voting.{Enters, Signal, sigint, sigalrm, sigusr1, Election, Recieved, must_exit, handler}
use soper.Voting.Signals.{
  Pc, starting, reading, head, reset, enter, lost, tested, dozing, waiting, woken, voting, drowsy,
  voted, candidate, standing, calling, called, suspended, polling, looking, napping, resigning,
  dismissing, gone, reaping, World, put, wakes, deliver, move, behind_check, is_checked_inside,
  Step, check, quit, quit_inside, read_pids, clear, win, lose, test_usr1, test_other, pause,
  write_vote, pause_voted, stand, call, call_end, alarm, look, alarm_napping, resign, dismiss,
  dismiss_end, stop, kill_child, reap, end, opened, Reach, here, next,
}

-- Where `Voting` has a child.
abbrev pub place : Pc → Voting.Pc
place starting = Voting.reading
place reading = Voting.reading
place head = Voting.enter
place reset = Voting.enter
place enter = Voting.enter
place lost = Voting.waiting
place tested = Voting.waiting
place dozing = Voting.waiting
place waiting = Voting.waiting
place woken = Voting.waiting
place voting = Voting.voting
place drowsy = Voting.voted
place voted = Voting.voted
place candidate = Voting.candidate
place standing = Voting.candidate
place (calling j) = Voting.polling
place called = Voting.polling
place suspended = Voting.polling
place polling = Voting.polling
place looking = Voting.polling
place napping = Voting.resigning
place resigning = Voting.resigning
place (dismissing j) = Voting.enter
place gone = Voting.gone

-- The state of `Voting` that a world shows: the flags and the parent are left out.
abbrev pub view : World → Election
view s = record {
  sem_candida = s.sem_candida;
  sem_en = s.sem_en;
  file = s.file;
  printed = s.printed;
  pc = λ i. place (s.pc i);
}

-- A child that moves is a process that moves.
place-put :
    (f : ℕ → Pc) (i : ℕ) (p : Pc) {q : Voting.Pc}
    → place p ≡ q
    → Voting.update (λ k. place (f k)) i q ≡ (λ k. place (put f i p k))
place-put f i p e = fun_ext (λ k. ground arith)

-- A move that `Voting` does not see.
place-same :
    (f : ℕ → Pc) (i : ℕ) (p : Pc)
    → place p ≡ place (f i)
    → ◌≡◌ {A = ℕ → Voting.Pc} (λ k. place (f k)) (λ k. place (put f i p k))
place-same f i p e = fun_ext (λ k. grind arith)

module _ {n : ℕ} where
  stays :
      (s : World) (i : ℕ) (p : Pc)
      → place p ≡ place (s.pc i)
      → Voting.Reach n (view s) (view (move s i p))
  stays s i p e =
      subst (λ f. Voting.Reach n (view s) (record (view s) { pc = f })) (place-same s.pc i p e)
        Voting.here

  -- A step of `Voting`, from any world, that puts process `i` somewhere.
  steps :
      {u : Election} (v : Election) (f : ℕ → Pc) (i : ℕ) (p : Pc) {q : Voting.Pc}
      → Voting.Step n u (record v { pc = Voting.update (λ k. place (f k)) i q })
      → place p ≡ q
      → Voting.Reach n u (record v { pc = λ k. place (put f i p k) })
  steps {u} v f i p st e =
      subst (λ g. Voting.Reach n u (record v { pc = g })) (place-put f i p e)
        (Voting.next Voting.here st)

behind-place :
    (q : Pc) {p : Pc} → behind_check q ≡ some p → (place q ≡ place p) ⊎ ((q ≡ woken) × (p ≡ voting))
behind-place starting e = inl (cc)
behind-place head e = inl (cc)
behind-place lost e = inl (cc)
behind-place woken e = inr (refl, cc)
behind-place candidate e = inl (cc)
behind-place called e = inl (cc)
behind-place polling e = inl (cc)
behind-place _ e = absurd (cc)

-- A signal that ends the `pause` behind a vote is a step of `Voting`.
wakes-place :
    (sig : Signal) (q : Pc) → (place (wakes sig q) ≡ place q) ⊎ ((q ≡ voted) × (wakes sig q ≡ head))
wakes-place sig voted = inr (refl, refl)
wakes-place sigint suspended = inl refl
wakes-place sigint napping = inl refl
wakes-place _ _ = inl refl

module _ {n : ℕ} where
  deliver-view :
      (sig : Signal) (j : ℕ) (s : World) → j < n → Voting.Reach n (view s) (view (deliver sig j s))
  unfolding deliver
  deliver-view sig j s h = elim (wakes-place sig (s.pc j)) [
    | inl e ↦ stays s j (wakes sig (s.pc j)) e
    | inr (e, e') ↦
        steps (view s) s.pc j (wakes sig (s.pc j)) (Voting.again j h (ap place e)) (ap place e')
  ]

  check-view :
      (s : World) (i : ℕ) (p : Pc)
      → i < n
      → behind_check (s.pc i) ≡ some p
      → Voting.Reach n (view s) (view (move s i p))
  check-view s i p h e = elim (behind-place (s.pc i) e) [
    | inl same ↦ stays s i p (sym same)
    | inr (at, to) ↦ steps (view s) s.pc i p (Voting.wake i h (ap place at)) (ap place to)
  ]

-- `check_sigint` is called there in `Voting` too.
checked : (q : Pc) {p : Pc} → behind_check q ≡ some p → Voting.is_checked (place q) ≡ true
checked starting e = refl
checked head e = refl
checked lost e = refl
checked woken e = refl
checked candidate e = refl
checked called e = refl
checked polling e = refl
checked _ e = absurd (cc)

checked_inside : (q : Pc) → is_checked_inside q ≡ true → Voting.is_checked_inside (place q) ≡ true
checked_inside reading e = refl
checked_inside standing e = refl
checked_inside voting e = refl
checked_inside _ e = absurd (cc)

Reach-trans :
    {n : ℕ} {s t u : Election} → Voting.Reach n s t → Voting.Reach n t u → Voting.Reach n s u
Reach-trans r Voting.here = r
Reach-trans r (Voting.next q st) = Voting.next (Reach-trans r q) st

module _ {n : ℕ} where
  Step-view : {s t : World} → Step n s t → Voting.Reach n (view s) (view t)
  Step-view {s} (check i p h e up) = check-view s i p h e
  Step-view {s} (quit i p h e down) =
      steps (view s) s.pc i gone (Voting.quit i h (checked (s.pc i) e)) refl
  Step-view {s} (quit_inside i k h e p down) =
      steps (record (view s) { sem_en = k }) s.pc i gone
        (Voting.quit_inside i k h (checked_inside (s.pc i) e) p) refl
  Step-view {s} (read_pids i k h e p up) =
      steps (record (view s) { sem_en = k + 1 }) s.pc i head (Voting.read_pids i k h (ap place e) p)
        refl
  Step-view {s} (clear i h e) = stays s i enter (sym (ap place e))
  Step-view {s} (win i k h e p) =
      steps (record (view s) { sem_candida = k }) s.pc i candidate (Voting.win i k h (ap place e) p)
        refl
  Step-view {s} (lose i h e p) = steps (view s) s.pc i lost (Voting.lose i h (ap place e) p) refl
  Step-view {s} (test_usr1 i h e f) =
      steps (view s) s.pc i voting (Voting.wake i h (ap place e)) refl
  Step-view {s} (test_other i h e f) = stays s i dozing (sym (ap place e))
  Step-view {s} (pause i h e) = stays s i waiting (sym (ap place e))
  Step-view {s} (write_vote i rand k h e p up) =
      steps (record (view s) { sem_en = k + 1; file = s.file ++ (Voting.cast i rand ∷ []) }) s.pc i
        drowsy (Voting.write_vote i rand k h (ap place e) p) refl
  Step-view {s} (pause_voted i h e) = stays s i voted (sym (ap place e))
  Step-view {s} (stand i rand k h e p up) =
      steps (record (view s) { sem_en = k + 1; file = s.file ++ (Voting.cast i rand ∷ []) }) s.pc i
        (calling 0) (Voting.stand i rand k h (ap place e) p) refl
  Step-view {s} (call i j h e j') =
      Reach-trans (stays s i (calling (j + 1)) (sym (ap place e)))
        (deliver-view sigusr1 j (move s i (calling (j + 1))) j')
  Step-view {s} (call_end i h e) = stays s i called (sym (ap place e))
  Step-view {s} (alarm i h e) = deliver-view sigalrm i s h
  Step-view {s} (look i k h e p) =
      steps
        (record (view s) {
          sem_en = k + 1;
          printed = Voting.print (Voting.announce n s.file) s.printed;
        })
        s.pc i napping (Voting.look i k h (ap place e) p) refl
  Step-view {s} (alarm_napping i h e) = deliver-view sigalrm i s h
  Step-view {s} (resign i h e) =
      steps (record (view s) { sem_candida = s.sem_candida + 1 }) s.pc i (dismissing 0)
        (Voting.resign i h (ap place e)) refl
  Step-view {s} (dismiss i j h e j') =
      Reach-trans (stays s i (dismissing (j + 1)) (sym (ap place e)))
        (deliver-view sigusr1 j (move s i (dismissing (j + 1))) j')
  Step-view {s} (dismiss_end i h e) = stays s i head (sym (ap place e))
  Step-view (stop e) = Voting.here
  Step-view {s} (kill_child i e h) = deliver-view sigint i (record s { parent = reaping i }) h
  Step-view (reap i e g) = Voting.here
  Step-view (end e) = Voting.here

-- The processes with their signals do what `Voting` allows: however they run, as long as no call
-- inside of a section fails, what they show of the semaphores, the file, the verdicts and the places
-- of the processes is reached in `Voting`.
pub Reach-view : {n : ℕ} {s : World} → Reach n opened s → Voting.Reach n Voting.opened (view s)
Reach-view here = Voting.here
Reach-view (next r st) = Reach-trans (Reach-view r) (Step-view st)
