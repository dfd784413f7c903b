-- ===== src/Network/Processes/Tests.antt =====
-- Two miners that mine one block, and the theorems on the processes at concrete inputs.
use soper.Common.{
  ◌==◌, if◌then◌else◌, ℕ, ◌+◌, ◌≡◌, ◌≢◌, [], ◌∷◌, false, true, refl, arith, replicate, map, i16,
  length, get_or,
}
use soper.Miners.{Miner, blank, max_miners}
use soper.Network.{System, raw_block, join_round, publish, tally}
use soper.Network.Processes.{
  is_among, waiting, voting, finish, announce, nap, count, to_register, Phase, outside, mining,
  suspending, loop_head, Process, World, Reach, here, next, join, begin, renew,
}
use soper.Network.Processes.Bounds.{IsBounded, Reach-IsBounded}
use soper.Network.Processes.Moves.{At}
use soper.Network.Processes.Winners.{two_winners}
use soper.Mining.Outcome.{mined}
use soper.Network.Processes.Sections.{sections}
use soper.Network.Processes.OneWinner.{Counted, Voting, OneRound, OneRound-run_round}
use soper.Network.Processes.Late.{late_vote}
use soper.Network.Processes.Progress.{mines_on}
use soper.Network.Processes.Rounds.{crowd, found, run_round-reached}
use soper.Network.Round.{IsFresh, run_round}
use soper.Network.Processes.Room.{overfull}

abbrev miner_of : ℕ → Miner
miner_of k = record { pid = 100 + k; coins = 0 }

abbrev process_at : Phase → ℕ → Process
process_at p k = record {
  this_miner = miner_of k;
  phase = p;
  sigusr2_received = false;
  shutdown = false;
  allocated = false;
  target = 0;
  solution = 0;
}

abbrev memory : ℕ → System
memory n = record {
  miners = replicate max_miners blank;
  num_miners = n;
  last_block = raw_block [];
  current_block = raw_block (replicate max_miners blank);
  monitor_up = 0;
}

-- All processes stand at one place.
abbrev world_at : Phase → ℕ → World
world_at p n = record { system = memory n; process = process_at p; chain = [] }

-- Miner 0 starts a round and joins it.
abbrev joined_world : (v : World) × Reach (world_at loop_head 2) v
joined_world = (_, next (next here (begin 0 refl refl)) (join 0 refl))

world-IsBounded : IsBounded (world_at loop_head 2)
world-IsBounded = record {
  current = (omega arith, omega arith);
  own = λ k. (omega arith, omega arith);
  chain = tt;
}

Reach-IsBounded_example : IsBounded joined_world.0
Reach-IsBounded_example = Reach-IsBounded world-IsBounded joined_world.1

apart : ◌≢◌ {A = ℕ} 0 1
apart e = ground (arith, e)

world-At : (p : Phase) (n k : ℕ) → At (world_at p n) k p (miner_of k)
world-At p n k = record { phase = refl; miner = refl }

two_winners_example :
    (v : World) × Reach (world_at mining 2) v
    × ((v.process 0).this_miner ≡ record (miner_of 0) { coins = i16 (0 + 1) })
    × ((v.process 1).this_miner ≡ record (miner_of 1) { coins = i16 (0 + 1) })
    × (v.system.last_block.winner ≡ 101)
    × (v.system.last_block.solution ≡ 0)
    × (v.system.current_block.target ≡ 0)
two_winners_example =
    two_winners (world_at mining 2) 0 1 3 3 (miner_of 0) (miner_of 1) [] [] apart
      (world-At mining 2 0) (world-At mining 2 1) refl refl refl

overfull_example :
    (v : World) × Reach (world_at outside 99) v
    × ((v.process 0).phase ≡ suspending)
    × ((v.process 1).phase ≡ suspending)
    × (get_or v.system.miners 99 blank ≡ miner_of 0)
    × (v.system.num_miners ≡ 102)
overfull_example =
    overfull (world_at outside 99) 0 1 (miner_of 0) (miner_of 1) apart (world-At outside 99 0)
      (world-At outside 99 1) refl refl

memory-IsFresh : IsFresh (memory 2).current_block
memory-IsFresh = record {
  voters = refl;
  total = refl;
  winner = refl;
  favorable = refl;
  room = refl;
}

other_pids :
    (j : ℕ)
    → is_among j (1 ∷ []) ≡ true
    → (process_at loop_head j).this_miner.pid ≢ (process_at loop_head 0).this_miner.pid
other_pids j m e = ground (arith, m, e)

run_round-reached_example :
    let (s, m) =
      run_round
        (replicate max_miners blank)
        (crowd (world_at loop_head 2) (0 ∷ 1 ∷ []))
        (miner_of 0)
        (found (λ k. 3) (world_at loop_head 2) 0)
        (map (found (λ k. 3) (world_at loop_head 2)) (1 ∷ []))
        (memory 2) in
    (v : World) × Reach (world_at loop_head 2) v × (v.system ≡ s) × ((v.process 0).this_miner ≡ m)
run_round-reached_example =
    run_round-reached (replicate max_miners blank) (world_at loop_head 2) 0 (1 ∷ []) (λ k. 3)
      (refl, (refl, tt)) (λ j m. (refl, refl)) other_pids memory-IsFresh (omega arith)

-- Two miners join, the second of them between the end of the first one's search and its
-- publication.
abbrev published : (v : World) × Reach (world_at loop_head 2) v
published = (
  _,
  (next
      (next
        (next (next (next (next here (begin 0 refl refl)) (join 0 refl)) (begin 1 refl refl))
          (finish 0 3 refl))
        (join 1 refl))
      (announce 0 refl)),
)

-- It waits for the vote of the second in vain.
abbrev late_joiner : (v : World) × Reach (world_at loop_head 2) v
unfolding join_round publish tally
late_joiner = (
  _,
  (next
      (next
        (next
          (next
            (next
              (next (next (next published.1 (nap 0 0 refl refl)) (nap 0 1 refl refl))
                (nap 0 2 refl refl))
              (nap 0 3 refl refl))
            (nap 0 4 refl refl))
          (count 0 5 refl refl))
        (to_register 0 refl))
      (renew 0 [] refl)),
)

late_joiner-OneRound :
    OneRound []
      (miner_of 0)
      (mined 3 0 0)
      (miner_of 0 ∷ miner_of 1 ∷ [])
      []
      (sections late_joiner.1)
unfolding sections late_joiner
late_joiner-OneRound = OneRound.idle (
    OneRound.joined _ (
      OneRound.idle (
        OneRound.idle (
          OneRound.joined _ (
            OneRound.published (
              Voting.idle (
                Voting.idle (
                  Voting.idle (
                    Voting.idle
                      (Voting.idle (Voting.counted (Counted.idle (Counted.renewed _)))))))))))))

OneRound-run_round_example :
    late_joiner.0.system
    ≡ (run_round [] (miner_of 0 ∷ miner_of 1 ∷ []) (miner_of 0) (mined 3 0 0) [] (memory 2)).0
OneRound-run_round_example = OneRound-run_round late_joiner.1 late_joiner-OneRound

-- Miner 0 waits for the vote of miner 1, which found 5.
abbrev one_votes : World
one_votes = record {
  system = memory 2;
  process = λ k.
      if k == 0 then process_at (waiting 0) k else record (process_at voting k) { solution = 5 };
  chain = [];
}

five : ◌≢◌ {A = ℕ} 5 0
five e = absurd (omega (arith, e))

late_vote_example :
    (v : World) × Reach one_votes v
    × (v.system.last_block ≡ (tally (miner_of 0) (memory 2)).0.current_block)
    × (v.system.current_block.num_voters ≡ 0)
    × (v.system.current_block.total_votes ≡ 1)
    × (v.system.current_block.favorable_votes ≡ 0)
late_vote_example = late_vote one_votes 0 1 0 [] apart refl (omega arith) refl five

down : ◌≢◌ {A = ℕ} 0 1
down e = apart e

mines_on_example : (v : World) × Reach (world_at loop_head 2) v × (length v.chain ≡ 7)
mines_on_example = mines_on 7 (world_at loop_head 2) 1 3 refl refl down
