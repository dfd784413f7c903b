-- ===== src/Voting/Stuffing.antt =====
-- A process of P2/voting.c that votes again and again.
use soper.Common.{
  ℕ, ◌+◌, ◌*◌, ◌<◌, ◌≡◌, ◌∙◌, List, [], ◌∷◌, ◌++◌, map, length, arith, refl, sym, ap, ap₂, none,
  ltb, if◌then◌else◌, append-nil, append_assoc, length-append,
}
use soper.Voting.{
  enter, Vote, cast, accepted, rejected, announce, print, Election, read_pids, win, stand, look,
  resign, taken, opened, Reach, here, next, update,
}
use soper.Voting.Count.{yes_votes, announce_lem}

Reach-trans : {n : ℕ} {s t u : Election} → Reach n s t → Reach n t u → Reach n s u
Reach-trans r here = r
Reach-trans r (next q st) = next (Reach-trans r q) st

-- Process 0 stands before the semaphores, which are both free.
record Ready (s : Election) : Type 0 where
  at : s.pc 0 ≡ enter
  free : s.sem_candida ≡ 1
  open_ : s.sem_en ≡ 1

-- It becomes the candidate, votes, looks at the file and resigns.
one_turn :
    (n rand : ℕ) (s : Election)
    → 0 < n
    → Ready s
    → (t : Election) × Reach n s t
      × Ready t
      × (t.file ≡ s.file ++ (cast 0 rand ∷ []))
      × (t.printed ≡ print (announce n (s.file ++ (cast 0 rand ∷ []))) s.printed)
one_turn n rand s h r = (
  _,
  next
      (next (next (next here (win 0 0 h r.at r.free)) (stand 0 rand 0 h refl (taken r.open_)))
        (look 0 0 h refl (taken refl)))
      (resign 0 h refl),
  record { at = refl; free = omega arith; open_ = refl },
  refl,
  refl,
)

announce_too_short : (n : ℕ) (file : List Vote) → length file < n → announce n file ≡ none
unfolding announce
announce_too_short n file h = ground arith

-- Turns that leave the file short print nothing.
turns :
    (n : ℕ) (rands : List ℕ) (s : Election)
    → Ready s
    → length s.file + length rands < n
    → (t : Election) × Reach n s t
      × Ready t
      × (t.file ≡ s.file ++ map (cast 0) rands)
      × (t.printed ≡ s.printed)
turns n [] s r h = (s, here, r, sym (append-nil s.file), refl)
turns n (x ∷ xs) s r h =
    let (t, q, r', f, p) = one_turn n x s (omega arith) r in
    let grown = ap length f ∙ length-append s.file (cast 0 x ∷ []) in
    let (u, q', r'', f', p') = turns n xs t r' (omega (arith, grown)) in
    (
      u,
      Reach-trans q q',
      r'',
      f' ∙ ap (λ l. l ++ map (cast 0) xs) f ∙ append_assoc s.file (cast 0 x ∷ []) (map (cast 0) xs),
      p'
          ∙ p
          ∙ ap (λ v. print v s.printed)
              (announce_too_short n (s.file ++ (cast 0 x ∷ []))
                (omega (arith, length-append s.file (cast 0 x ∷ [])))),
    )

length-casts : (rands : List ℕ) → length (map (cast 0) rands) ≡ length rands
length-casts [] = refl
length-casts (x ∷ xs) = omega (arith, length-casts xs)

-- The election of the candidate does not keep a process from voting twice: from the start of a
-- voting of any number of processes, a state can be reached in which all votes in the file are those
-- of process 0, one for each process, and the verdict on them is printed.
pub ballot_stuffing :
    (n : ℕ) (rands : List ℕ) (rand : ℕ)
    → length rands + 1 ≡ n
    → (t : Election) × Reach n opened t
      × (t.file ≡ map (cast 0) rands ++ (cast 0 rand ∷ []))
      × (t.printed
          ≡ (if ltb n (2 * yes_votes (map (cast 0) rands ++ (cast 0 rand ∷ [])))
              then accepted
              else rejected)
            ∷ [])
ballot_stuffing n rands rand e =
    let (s, q, r, f, p) =
      turns n rands (record opened { pc = update opened.pc 0 enter })
        (record { at = refl; free = refl; open_ = refl }) (omega arith) in
    let (t, q', r', f', p') = one_turn n rand s (omega arith) r in
    let file = ap (λ l. l ++ (cast 0 rand ∷ [])) f in
    (
      t,
      Reach-trans (Reach-trans (next here (read_pids 0 0 (omega arith) refl (taken refl))) q) q',
      f' ∙ file,
      p'
          ∙ ap₂ print
              (ap (announce n) file
                ∙ announce_lem n _ (
                    omega (
                      arith,
                      length-append (map (cast 0) rands) (cast 0 rand ∷ []),
                      length-casts rands,
                    )))
              p,
    )
