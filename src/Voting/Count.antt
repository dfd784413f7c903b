-- ===== src/Voting/Count.antt =====
-- The verdict against the number of 'Y' votes, and what becomes of the voting file.
use soper.Common.{
  ℕ, zero, suc, ◌+◌, ◌*◌, ◌<◌, ◌≤◌, ◌≡◌, List, [], ◌∷◌, none, some, ltb, ◌==◌, if◌then◌else◌, take,
  drop, length, true, arith, refl, drop-cons, take-length, length-append, ◌∙◌, ap,
}
use Prim.Native.Nat.add
use soper.Voting.{
  Vote, count_from, accepted, rejected, announce, cast, Election, Step, stand, look, write_vote,
  Reach, here, next,
}

unfoldable pub yes_votes : List Vote → ℕ
yes_votes [] = 0
yes_votes (v ∷ vs) = (if v.vote == b'Y' then 1 else 0) + yes_votes vs

count_from_lem :
    (votes : List Vote) (k i count : ℕ)
    → i + k ≤ length votes
    → count_from votes k i count ≡ count + yes_votes (take k (drop i votes))
unfolding count_from yes_votes
count_from_lem votes zero i count h = omega arith
count_from_lem votes (suc k) i count h =
    rw
      (
        drop-cons i votes (record { pid = 0; vote = 0 }) (omega arith),
        step,
        count_from_lem votes k (suc i) _ (omega arith),
      )
      (ground arith)
  where
    step : i + 1 ≡ suc i
    step = omega arith

-- A file with one vote for each process gets its verdict: accepted exactly if more than half of the
-- votes are 'Y', and else rejected.
pub announce_lem :
    (n : ℕ) (file : List Vote)
    → length file ≡ n
    → announce n file ≡ some (if ltb n (2 * yes_votes file) then accepted else rejected)
unfolding announce
announce_lem n file e = rw (full, whole, counted) (ground arith)
  where
    full : (length file * 8 == n * 8) ≡ true
    full = ground arith

    whole : take n file ≡ file
    whole = take-length n file (omega arith)

    counted : count_from file n 0 0 ≡ yes_votes file
    counted =
        count_from_lem file n 0 0 (omega arith)
        ∙ add.zero (yes_votes (take n file))
        ∙ ap yes_votes whole

announce_too_long : (n : ℕ) (file : List Vote) → n < length file → announce n file ≡ none
unfolding announce
announce_too_long n file h = ground arith

Step-file : {n : ℕ} {s t : Election} → Step n s t → length s.file ≤ length t.file
Step-file {s = s} (stand i r _ h e _) = omega (arith, length-append s.file (cast i r ∷ []))
Step-file {s = s} (write_vote i r _ h e _) = omega (arith, length-append s.file (cast i r ∷ []))
Step-file _ = omega arith

Step-printed : {n : ℕ} {s t : Election} → Step n s t → n < length s.file → t.printed ≡ s.printed
Step-printed {n} {s} (look i _ h e _) long = rw (announce_too_long n s.file long)
Step-printed _ long = refl

Reach-file : {n : ℕ} {s t : Election} → Reach n s t → length s.file ≤ length t.file
Reach-file here = omega arith
Reach-file (next r st) = omega (arith, Reach-file r, Step-file st)

-- The voting file is never emptied: once it holds more votes than there are processes, no verdict
-- is printed any more, whatever the processes do.
pub Reach-printed :
    {n : ℕ} {s t : Election} → Reach n s t → n < length s.file → t.printed ≡ s.printed
Reach-printed here long = refl
Reach-printed (next r st) long =
    Step-printed st (omega (arith, Reach-file r)) ∙ Reach-printed r long
