-- ===== src/Voting/Signals/Turnout/Settling.antt =====
-- The children come to their first `pause` of P2/voting.c, one after the other.
use soper.Common.{ℕ, zero, suc, ◌+◌, ◌<◌, ◌≡◌, false, arith, refl, subst, ap}
use soper.Voting.{taken, nothing, must_exit}
use soper.Voting.Signals.Lost.{put_self}
use soper.Voting.Signals.{
  reading, head, reset, enter, lost, tested, dozing, waiting, standing, World, put, move,
  behind_check, check, read_pids, clear, win, lose, test_other, pause, opened, Reach, here, next,
}
use soper.Voting.Signals.Turnout.{Reach-trans, Settled}

module _ {n : ℕ} where
  settle :
      (k : ℕ) {s : World}
      → 0 < k
      → k < n
      → Settled k s
      → (t : World) × Reach n s t × Settled (suc k) t
  unfolding must_exit
  settle k {s} pos h w =
      let at = w.fresh k (omega arith) in
      let up : must_exit (s.sig_recieved k) ≡ false = ap must_exit (w.quiet k) in
      let s1 = move s k reading in
      let s2 = record (move s1 k head) { sem_en = 0 + 1 } in
      let s3 = move s2 k reset in
      let s4 = record (move s3 k enter) { sig_recieved = put s3.sig_recieved k nothing } in
      let s5 = move s4 k lost in
      let s6 = move s5 k tested in
      let s7 = move s6 k dozing in
      let none : s4.sig_recieved k ≡ nothing = put_self s3.sig_recieved k nothing in
      (
        move s7 k waiting,
        next
            (next
              (next
                (next
                  (next
                    (next
                      (next (next here (check k reading h (ap behind_check at) up))
                        (read_pids k 0 h (put_self s.pc k reading) (taken w.sem_en) up))
                      (check k reset h (ap behind_check (put_self s1.pc k head)) up))
                    (clear k h (put_self s2.pc k reset)))
                  (lose k h (put_self s3.pc k enter) w.sem_candida))
                (check k tested h (ap behind_check (put_self s4.pc k lost)) (ap must_exit none)))
              (test_other k h (put_self s5.pc k tested) (λ e. cc (none, e))))
            (pause k h (put_self s6.pc k dozing)),
        record {
          sem_candida = w.sem_candida;
          sem_en = refl;
          file = w.file;
          printed = w.printed;
          first = ground (arith, w.first);
          paused = λ i p lt. ground (arith, w.paused i);
          fresh = λ i le. ground (arith, w.fresh i);
          quiet = λ i. ground (arith, w.quiet i);
        },
      )

  pub settle_all :
      (m k : ℕ) {s : World}
      → k + m ≡ n
      → 0 < k
      → Settled k s
      → (t : World) × Reach n s t × Settled n t
  settle_all zero k {s} e pos w =
      let e' : k ≡ n = omega arith in (s, here, subst (λ x. Settled x s) e' w)
  settle_all (suc m) k e pos w =
      let (t, r, w') = settle k pos (omega arith) w in
      let (u, r', w'') = settle_all m (suc k) (omega arith) (omega arith) w' in
      (u, Reach-trans r r', w'')

  -- Child 0 comes first.
  pub comes_first : 0 < n → (t : World) × Reach n opened t × Settled 1 t
  unfolding must_exit
  comes_first h = (
    _,
    next
        (next
          (next
            (next
              (next (next here (check 0 reading h refl refl))
                (read_pids 0 0 h refl (taken refl) refl))
              (check 0 reset h refl refl))
            (clear 0 h refl))
          (win 0 0 h refl refl))
        (check 0 standing h refl refl),
    record {
      sem_candida = refl;
      sem_en = refl;
      file = refl;
      printed = refl;
      first = refl;
      paused = λ i p lt. absurd (omega arith);
      fresh = λ i le. ground arith;
      quiet = λ i. ground arith;
    },
  )
