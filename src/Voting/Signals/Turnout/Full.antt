-- ===== src/Voting/Signals/Turnout/Full.antt =====
-- A whole round of P2/voting.c.
use soper.Common.{ℕ, ◌+◌, ◌-◌, ◌*◌, ◌<◌, ◌≡◌, [], ◌∷◌, arith, refl, ap, ◌∙◌, ltb, if◌then◌else◌}
use soper.Voting.{taken, sigalrm, handler, accepted, rejected, announce, print}
use soper.Voting.Count.{yes_votes, announce_lem}
use soper.Voting.Signals.Lost.{put_self}
use soper.Voting.Signals.{
  polling, looking, World, wakes, deliver, behind_check, check, alarm, look, opened, Reach, here,
  next,
}
use soper.Voting.Signals.Turnout.{Reach-trans, votes_of, length-votes_of, Voted}
use soper.Voting.Signals.Turnout.Settling.{comes_first, settle_all}
use soper.Voting.Signals.Turnout.Calls.{stands, call_all, suspends, vote_all}

-- The candidate wakes from its nap and looks at the file.
looks :
    {n : ℕ} (rand : ℕ → ℕ) {s : World}
    → 0 < n
    → Voted rand n n s
    → (t : World) × Reach n s t
      × (t.file ≡ votes_of rand n)
      × (t.printed ≡ print (announce n (votes_of rand n)) [])
unfolding deliver handler
looks {n} rand {s} h w =
    let s1 = deliver sigalrm 0 s in
    let at : s1.pc 0 ≡ polling =
      put_self s.pc 0 (wakes sigalrm (s.pc 0)) ∙ ap (wakes sigalrm) w.first in
    (
      _,
      next
          (next (next here (alarm 0 h w.first))
            (check 0 looking h (ap behind_check at) (w.unaware 0)))
          (look 0 0 h (put_self s1.pc 0 looking) (taken w.sem_en)),
      w.file,
      rw (w.file, w.printed) refl,
    )

-- A round can go as it should: for any number of children, at least one, and whatever `rand` returns
-- to them, a state can be reached in which the file holds one vote of each child, in order, and the
-- verdict on these votes is printed: accepted exactly if more than half of them are 'Y'.
pub full_turnout :
    (n : ℕ) (rand : ℕ → ℕ)
    → 0 < n
    → (t : World) × Reach n opened t
      × (t.file ≡ votes_of rand n)
      × (t.printed ≡ (if ltb n (2 * yes_votes (votes_of rand n)) then accepted else rejected) ∷ [])
full_turnout n rand h =
    let rest : 1 + (n - 1) ≡ n = omega arith in
    let one : ◌<◌ 0 1 = omega arith in
    let all : 0 + n ≡ n = omega arith in
    let (a, r, w) = comes_first h in
    let (b, r', w') = settle_all (n - 1) 1 rest one w in
    let (c, r'', w'') = stands rand h w' in
    let (d, q, v) = call_all rand n 0 all h w'' in
    let (e, q', v') = suspends rand h v in
    let (f, q'', v'') = vote_all rand (n - 1) 1 rest one v' in
    let (t, l, file, printed) = looks rand h v'' in
    (
      t,
      Reach-trans
          (Reach-trans (Reach-trans (Reach-trans (Reach-trans (Reach-trans r r') r'') q) q') q'') l,
      file,
      printed ∙ ap (λ x. print x []) (announce_lem n (votes_of rand n) (length-votes_of rand n)),
    )
