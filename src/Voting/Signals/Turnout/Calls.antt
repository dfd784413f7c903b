-- ===== src/Voting/Signals/Turnout/Calls.antt =====
-- The candidate of P2/voting.c calls the children, and they vote.
use soper.Common.{
  ℕ, zero, suc, ◌+◌, ◌<◌, ◌≡◌, [], ◌∷◌, ◌++◌, false, arith, refl, subst, ap, sym, ◌∙◌, ℕ_discrete,
}
use soper.Voting.{taken, sigusr1, Recieved, handler, must_exit, cast}
use soper.Voting.Signals.Lost.{put_self, unaware-noted}
use soper.Voting.Signals.{
  Pc, waiting, voting, drowsy, voted, calling, called, suspended, World, put, wakes, noted, deliver,
  move, behind_check, check, write_vote, pause_voted, stand, call, call_end, Reach, here, next,
}
use soper.Voting.Signals.Turnout.{Reach-trans, votes_of, put_ne, Settled, Called, Voted}

-- The candidate signals itself as well, and goes on.
first_at : (k m : ℕ) (f : ℕ → Pc) → f 0 ≡ calling m → put f k (wakes sigusr1 (f k)) 0 ≡ calling m
first_at zero m f e = put_self f 0 (wakes sigusr1 (f 0)) ∙ ap (wakes sigusr1) e
first_at (suc k) m f e = put_ne f (suc k) 0 (wakes sigusr1 (f (suc k))) (λ h. omega arith) ∙ e

unaware_at :
    (k i : ℕ) (f : ℕ → Recieved)
    → ((j : ℕ) → must_exit (f j) ≡ false)
    → must_exit (put f k (noted (handler false sigusr1 (f k))) i) ≡ false
unaware_at k i f h = elim (ℕ_discrete k i) [
  | yes e ↦
      ap (λ j. must_exit (put f k (noted (handler false sigusr1 (f k))) j)) (sym e)
      ∙ ap must_exit (put_self f k (noted (handler false sigusr1 (f k))))
      ∙ unaware-noted sigusr1 (f k) (λ x. cc) (h k)
  | no ne ↦ ap must_exit (put_ne f k i (noted (handler false sigusr1 (f k))) ne) ∙ h i
]

module _ {n : ℕ} (rand : ℕ → ℕ) where
  calls :
      (k : ℕ) {s : World}
      → 0 < n
      → k < n
      → Called rand n k s
      → (t : World) × Reach n s t × Called rand n (k + 1) t
  unfolding deliver
  calls k {s} h lt w =
      let f = put s.pc 0 (calling (k + 1)) in
      (
        deliver sigusr1 k (move s 0 (calling (k + 1))),
        next here (call 0 k h w.first lt),
        record {
          sem_en = w.sem_en;
          file = w.file;
          printed = w.printed;
          first = first_at k (k + 1) f (put_self s.pc 0 (calling (k + 1)));
          up = λ i p le. elim (ℕ_discrete k i) [
            | yes e ↦
                let at : f k ≡ waiting =
                  put_ne s.pc 0 k (calling (k + 1)) (λ z. omega arith)
                  ∙ w.paused k (omega arith) (omega arith) lt in
                ap (put f k (wakes sigusr1 (f k))) (sym e)
                ∙ put_self f k (wakes sigusr1 (f k))
                ∙ ap (wakes sigusr1) at
            | no ne ↦
                put_ne f k i (wakes sigusr1 (f k)) ne
                ∙ put_ne s.pc 0 i (calling (k + 1)) (λ z. omega arith)
                ∙ w.up i p (omega arith)
          ];
          paused = λ i p le l. ground (arith, w.paused i);
          unaware = λ i. unaware_at k i s.sig_recieved w.unaware;
        },
      )

  votes :
      (k : ℕ) {s : World}
      → 0 < k
      → k < n
      → Voted rand n k s
      → (t : World) × Reach n s t × Voted rand n (suc k) t
  unfolding votes_of
  votes k {s} pos h w =
      let at = w.up k pos (omega arith) h in
      let s1 = move s k voting in
      let s2 = record s1 {
        sem_en = 0 + 1;
        file = s1.file ++ (cast k (rand k) ∷ []);
        pc = put s1.pc k drowsy;
      } in
      (
        move s2 k voted,
        next
            (next (next here (check k voting h (ap behind_check at) (w.unaware k)))
              (write_vote k (rand k) 0 h (put_self s.pc k voting) (taken w.sem_en) (w.unaware k)))
            (pause_voted k h (put_self s1.pc k drowsy)),
        record {
          sem_en = refl;
          file = ap (λ l. l ++ (cast k (rand k) ∷ [])) w.file;
          printed = w.printed;
          first = ground (arith, w.first);
          up = λ i p le l. ground (arith, w.up i);
          unaware = w.unaware;
        },
      )

  pub call_all :
      (m k : ℕ) {s : World}
      → k + m ≡ n
      → 0 < n
      → Called rand n k s
      → (t : World) × Reach n s t × Called rand n n t
  call_all zero k {s} e h w =
      let e' : k ≡ n = omega arith in (s, here, subst (λ x. Called rand n x s) e' w)
  call_all (suc m) k e h w =
      let (t, r, w') = calls k h (omega arith) w in
      let (u, r', w'') = call_all m (k + 1) (omega arith) h w' in (u, Reach-trans r r', w'')

  pub vote_all :
      (m k : ℕ) {s : World}
      → k + m ≡ n
      → 0 < k
      → Voted rand n k s
      → (t : World) × Reach n s t × Voted rand n n t
  vote_all zero k {s} e h w =
      let e' : k ≡ n = omega arith in (s, here, subst (λ x. Voted rand n x s) e' w)
  vote_all (suc m) k e h w =
      let (t, r, w') = votes k h (omega arith) w in
      let (u, r', w'') = vote_all m (suc k) (omega arith) (omega arith) w' in
      (u, Reach-trans r r', w'')

  -- The candidate votes.
  pub stands : {s : World} → 0 < n → Settled n s → (t : World) × Reach n s t × Called rand n 0 t
  unfolding votes_of must_exit
  stands {s} h w = (
    _,
    next here (stand 0 (rand 0) 0 h w.first (taken w.sem_en) (ap must_exit (w.quiet 0))),
    record {
      sem_en = refl;
      file = ap (λ l. l ++ (cast 0 (rand 0) ∷ [])) w.file;
      printed = w.printed;
      first = put_self s.pc 0 (calling 0);
      up = λ i p lt. absurd (omega arith);
      paused = λ i p le l. put_ne s.pc 0 i (calling 0) (λ z. omega arith) ∙ w.paused i p l;
      unaware = λ i. ap must_exit (w.quiet i);
    },
  )

  pub suspends :
      {s : World} → 0 < n → Called rand n n s → (t : World) × Reach n s t × Voted rand n 1 t
  suspends {s} h w = (
    move (move s 0 called) 0 suspended,
    next (next here (call_end 0 h w.first))
        (check 0 suspended h (ap behind_check (put_self s.pc 0 called)) (w.unaware 0)),
    record {
      sem_en = w.sem_en;
      file = w.file;
      printed = w.printed;
      first = put_self (put s.pc 0 called) 0 suspended;
      up = λ i p le l.
          put_ne (put s.pc 0 called) 0 i suspended (λ z. omega arith)
          ∙ put_ne s.pc 0 i called (λ z. omega arith)
          ∙ w.up i p l;
      unaware = w.unaware;
    },
  )
