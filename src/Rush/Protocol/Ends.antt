-- ===== src/Rush/Protocol/Ends.antt =====
-- Whatever the order in which the miner and the monitor of P1/Ejercicio13 run, they come to what the
-- rounds taken one after the other come to.
use soper.Common.{
  ℕ, zero, suc, ◌≡◌, ◌∙◌, ap, refl, sym, List, [], ◌∷◌, ◌++◌, append-nil, append_assoc, Bool, true,
  false, if◌then◌else◌,
}
use soper.Rush.{PipeData, Globals, threads, answer, Exit, success, invalidated, rounds_from, miner}
use soper.Rush.Protocol.{
  MinerPc, MonitorPc, State, mining, asking, reading, answering, opened, take_answer, miner_step,
  take_pair, monitor_step, turn, run,
}

-- The pairs of the lines that accept.
abbrev pub accepts : List (PipeData × Bool) → List PipeData
accepts [] = []
accepts ((p, true) ∷ ls) = p ∷ accepts ls
accepts ((p, false) ∷ ls) = accepts ls

accepts-snoc :
    (ls : List (PipeData × Bool)) (p : PipeData) (b : Bool)
    → accepts (ls ++ ((p, b) ∷ [])) ≡ accepts ls ++ (if b then p ∷ [] else [])
accepts-snoc [] p true = refl
accepts-snoc [] p false = refl
accepts-snoc ((q, true) ∷ ls) p b = ap (λ l. q ∷ l) (accepts-snoc ls p b)
accepts-snoc ((q, false) ∷ ls) p b = accepts-snoc ls p b

abbrev state : MinerPc → MonitorPc → List PipeData → List Bool → List (PipeData × Bool) → State
state m o ps rs ls = record {
  miner = m;
  monitor = o;
  miner_pipe = ps;
  monitor_pipe = rs;
  printed = ls;
}

-- What is still to come when an answer is on its way.
abbrev left : ℕ → ℕ → Globals → Bool → List PipeData × Exit
left n k g b =
    if b
    then rounds_from n k g.pipe_data.solution (record g { magic_flag = false })
    else ([], invalidated)

-- The lines and what is to come make up the whole.
abbrev Owes : List PipeData × Exit → List (PipeData × Bool) → List PipeData × Exit → Type 0
Owes whole ls r = (accepts ls ++ r.0 ≡ whole.0) × (r.1 ≡ whole.1)

-- A line moves from what is to come to what is printed.
Owes-next :
    (whole : List PipeData × Exit) (ls : List (PipeData × Bool)) (p : PipeData) (b : Bool)
    (r : List PipeData × Exit)
    → Owes whole ls (if b then (p ∷ r.0, r.1) else ([], invalidated))
    → Owes whole (ls ++ ((p, b) ∷ [])) (if b then r else ([], invalidated))
Owes-next whole ls p true r (e, x) =
    (ap (λ l. l ++ r.0) (accepts-snoc ls p true) ∙ append_assoc (accepts ls) (p ∷ []) r.0 ∙ e, x)
Owes-next whole ls p false r (e, x) =
    (ap (λ l. l ++ []) (accepts-snoc ls p false ∙ append-nil (accepts ls)) ∙ e, x)

module _ (n : ℕ) (whole : List PipeData × Exit) where
  -- The states that a run goes through.
  data At : State → Type 0 where
    in_mining :
        (k t : ℕ) (g : Globals) (ls : List (PipeData × Bool))
        → Owes whole ls (rounds_from n k t g)
        → At (state (mining k t g) reading [] [] ls)
    in_asking :
        (k : ℕ) (g : Globals) (ls : List (PipeData × Bool))
        → Owes whole
            (ls ++ ((g.pipe_data, answer g.pipe_data) ∷ []))
            (left n k g (answer g.pipe_data))
        → At (state (asking k g) reading (g.pipe_data ∷ []) [] ls)
    in_answering :
        (k : ℕ) (g : Globals) (ls : List (PipeData × Bool)) (b : Bool)
        → Owes whole ls (left n k g b)
        → At (state (asking k g) (answering b) [] [] ls)
    in_answered :
        (k : ℕ) (g : Globals) (ls : List (PipeData × Bool)) (b : Bool)
        → Owes whole ls (left n k g b)
        → At (state (asking k g) reading [] (b ∷ []) ls)
    at_end :
        (e : Exit) (ls : List (PipeData × Bool))
        → Owes whole ls ([], e)
        → At (state (MinerPc.ended e) reading [] [] ls)
    closed :
        (e : Exit) (ls : List (PipeData × Bool))
        → Owes whole ls ([], e)
        → At (state (MinerPc.ended e) MonitorPc.ended [] [] ls)

  turn-At : (who : Bool) (s : State) → At s → At (turn n who s)
  unfolding turn miner_step monitor_step take_answer take_pair rounds_from
  turn-At true _ (in_mining zero t g ls o) = at_end success ls o
  turn-At true _ (in_mining (suc k) t g ls o) = in_asking k (threads n t n g) ls (
      Owes-next whole ls (threads n t n g).pipe_data (answer (threads n t n g).pipe_data)
        (rounds_from n k (threads n t n g).pipe_data.solution
          (record (threads n t n g) { magic_flag = false }))
        o)
  turn-At false _ (in_mining k t g ls o) = in_mining k t g ls o
  turn-At true _ (in_asking k g ls o) = in_asking k g ls o
  turn-At false _ (in_asking k g ls o) = in_answering k g _ _ o
  turn-At true _ (in_answering k g ls b o) = in_answering k g ls b o
  turn-At false _ (in_answering k g ls b o) = in_answered k g ls b o
  turn-At true _ (in_answered k g ls true o) = in_mining k _ _ ls o
  turn-At true _ (in_answered k g ls false o) = at_end invalidated ls o
  turn-At false _ (in_answered k g ls b o) = in_answered k g ls b o
  turn-At true _ (at_end e ls o) = at_end e ls o
  turn-At false _ (at_end e ls o) = closed e ls o
  turn-At true _ (closed e ls o) = closed e ls o
  turn-At false _ (closed e ls o) = closed e ls o

  run-At : (schedule : List Bool) (s : State) → At s → At (run n schedule s)
  unfolding run
  run-At [] s a = a
  run-At (who ∷ schedule) s a = run-At schedule (turn n who s) (turn-At who s a)

  closed-At :
      (s : State)
      → At s
      → s.monitor ≡ MonitorPc.ended
      → (accepts s.printed ≡ whole.0) × (s.miner ≡ MinerPc.ended whole.1)
  closed-At _ (closed e ls (o, x)) h = (sym (append-nil (accepts ls)) ∙ o, ap MinerPc.ended x)
  closed-At _ (in_mining k t g ls o) h = absurd (cc h)
  closed-At _ (in_asking k g ls o) h = absurd (cc h)
  closed-At _ (in_answering k g ls b o) h = absurd (cc h)
  closed-At _ (in_answered k g ls b o) h = absurd (cc h)
  closed-At _ (at_end e ls o) h = absurd (cc h)

-- Whatever the order in which the two processes run: if the monitor has ended, it has accepted
-- exactly the pairs that the rounds one after the other come to, in their order, and the miner has
-- ended as they do.
pub run-miner :
    (rounds n target : ℕ) (schedule : List Bool)
    → (run n schedule (opened rounds target)).monitor ≡ MonitorPc.ended
    → let s = run n schedule (opened rounds target) in
      (accepts s.printed ≡ (miner rounds n target).0)
      × (s.miner ≡ MinerPc.ended (miner rounds n target).1)
unfolding miner
run-miner rounds n target schedule h =
    closed-At n (miner rounds n target) _
      (run-At n (miner rounds n target) schedule (opened rounds target)
        (in_mining rounds target _ [] (refl, refl)))
      h

-- A schedule that brings a state to its end.
abbrev Ending : ℕ → State → Type 0
Ending n s = (more : List Bool) × ((run n more s).monitor ≡ MonitorPc.ended)

step_first : (n : ℕ) (who : Bool) (s : State) → Ending n (turn n who s) → Ending n s
unfolding run
step_first n who s (more, e) = (who ∷ more, e)

module _ (n : ℕ) where
  Ending-answered :
      (k : ℕ) (g : Globals) (ls : List (PipeData × Bool)) (b : Bool)
      → ((t : ℕ) (h : Globals) → Ending n (state (mining k t h) reading [] [] ls))
      → Ending n (state (asking k g) reading [] (b ∷ []) ls)
  unfolding run turn miner_step monitor_step take_answer take_pair
  Ending-answered k g ls true f = step_first n true _ (f _ _)
  Ending-answered k g ls false f = (true ∷ false ∷ [], refl)

  Ending-mining :
      (k t : ℕ) (g : Globals) (ls : List (PipeData × Bool))
      → Ending n (state (mining k t g) reading [] [] ls)
  unfolding run turn miner_step monitor_step take_answer take_pair
  Ending-mining zero t g ls = (true ∷ false ∷ [], refl)
  Ending-mining (suc k) t g ls = step_first n true _ (
      step_first n false _ (
        step_first n false _
          (Ending-answered k (threads n t n g) _ _ (λ t' h. Ending-mining k t' h _))))

  At-Ending : (whole : List PipeData × Exit) (s : State) → At n whole s → Ending n s
  unfolding run turn miner_step monitor_step take_answer take_pair
  At-Ending whole _ (in_mining k t g ls o) = Ending-mining k t g ls
  At-Ending whole _ (in_asking k g ls o) =
      step_first n false _
        (step_first n false _ (Ending-answered k g _ _ (λ t h. Ending-mining k t h _)))
  At-Ending whole _ (in_answering k g ls b o) =
      step_first n false _ (Ending-answered k g ls b (λ t h. Ending-mining k t h ls))
  At-Ending whole _ (in_answered k g ls b o) =
      Ending-answered k g ls b (λ t h. Ending-mining k t h ls)
  At-Ending whole _ (at_end e ls o) = (false ∷ [], refl)
  At-Ending whole _ (closed e ls o) = ([], refl)

run-append : (n : ℕ) (xs ys : List Bool) (s : State) → run n (xs ++ ys) s ≡ run n ys (run n xs s)
unfolding run
run-append n [] ys s = refl
run-append n (x ∷ xs) ys s = run-append n xs ys (turn n x s)

-- No deadlock: whatever has happened, the two processes can go on so that the monitor ends.
pub run-ends :
    (rounds n target : ℕ) (schedule : List Bool)
    → (more : List Bool) × ((run n (schedule ++ more) (opened rounds target)).monitor
        ≡ MonitorPc.ended)
unfolding miner
run-ends rounds n target schedule =
    let at =
      run-At n (miner rounds n target) schedule (opened rounds target)
        (in_mining rounds target _ [] (refl, refl)) in
    let (more, e) = At-Ending n (miner rounds n target) _ at in
    (more, ap (λ s. s.monitor) (run-append n schedule more (opened rounds target)) ∙ e)
