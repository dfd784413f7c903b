-- ===== src/Pipeline/Tests.antt =====
-- One honest round, whose block goes through the ring.
use soper.Common.{◌≡◌, ◌≤◌, [], ◌∷◌, map, true, length, take, replicate, refl, arith, All, List}
use soper.Network.{Block, raw_block}
use soper.Network.Samples.{ann, bob, blanks, two, fresh_block-IsFresh, Mined-0}
use soper.Buffer.{
  State, begin, next, receive, take_empty, writer_lock, write_block, writer_unlock, post_fill,
  take_fill, reader_lock, read_block,
}
use soper.Register.{register_report}
use soper.Monitor.{Reachable, monitor_loop}
use soper.Monitor.Delivery.{copied}
use soper.Pipeline.{Round, sent_block, sent_blocks}
use soper.Pipeline.Honest.{AllHonest, end_to_end}

abbrev both_mine : Round
both_mine = record {
  raw = blanks;
  voters = ann ∷ bob ∷ [];
  winner = ann;
  solution = 0;
  votes = 0 ∷ [];
}

abbrev once : List Round
once = both_mine ∷ []

once-AllHonest : AllHonest once two
once-AllHonest = (
  record {
    full = refl;
    few = omega arith;
    fewer = omega arith;
    own = Mined-0;
    others = (Mined-0, tt);
  },
  tt,
)

abbrev msg : Block
msg = sent_block both_mine two

abbrev passed : (s : State Block) × Reachable (replicate 10 (raw_block blanks)) s
passed = (
  _,
  next
      (next
        (next
          (next
            (next
              (next
                (next (next (next begin (receive msg refl)) (take_empty msg 9 refl refl))
                  (writer_lock msg 0 refl refl))
                (write_block msg refl))
              (writer_unlock refl))
            (post_fill refl))
          (take_fill 0 refl refl))
        (reader_lock 0 refl refl))
      (read_block refl),
)

passed_sent : passed.0.sent ≡ sent_blocks once two
unfolding sent_blocks
passed_sent = refl

few_blocks : length (sent_blocks once two) ≤ 256
unfolding sent_blocks
few_blocks = omega arith

end_to_end_example :
    let printed = map register_report (take 1 (sent_blocks once two)) in
    (monitor_loop 0 (copied passed.0.got) ≡ printed) × All (λ r. r.validated ≡ true) printed
end_to_end_example =
    end_to_end once two 0 passed.1 refl passed_sent few_blocks fresh_block-IsFresh (omega arith)
      once-AllHonest
