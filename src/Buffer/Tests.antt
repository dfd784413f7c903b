-- ===== src/Buffer/Tests.antt =====
-- One block through a ring of two slots, and the theorems of this part at concrete inputs.
use soper.Common.{ℕ, ◌+◌, ◌≤◌, ◌≡◌, [], ◌∷◌, map, some, length, take, arith, refl}
use soper.Buffer.{
  Ring, write, read, State, Step, Reach, begin, next, receive, take_empty, writer_lock, write_block,
  writer_unlock, post_fill, take_fill, reader_lock, read_block,
}
use soper.Buffer.Tokens.{writer_locks, reader_locks}
use soper.Buffer.Fifo.{read_in_order}
use soper.Buffer.Safety.{exclusion, no_deadlock}

-- Block 7 is written and read.
abbrev passed : (s : State ℕ) × Reach 2 4 (0 ∷ 0 ∷ []) s
passed = (
  _,
  next
      (next
        (next
          (next
            (next
              (next
                (next (next (next begin (receive 7 refl)) (take_empty 7 1 refl refl))
                  (writer_lock 7 0 refl refl))
                (write_block 7 refl))
              (writer_unlock refl))
            (post_fill refl))
          (take_fill 0 refl refl))
        (reader_lock 0 refl refl))
      (read_block refl),
)

passed_result : passed.0.got ≡ some 7 ∷ []
unfolding write read
passed_result = refl

read_in_order_example :
    (length passed.0.got ≤ length passed.0.sent)
    × (passed.0.got ≡ map some (take (length passed.0.got) passed.0.sent))
read_in_order_example = read_in_order (omega arith) passed.1 refl (omega arith)

exclusion_example :
    (writer_locks passed.0.writer + reader_locks passed.0.reader ≤ 1)
    × (length passed.0.got ≤ length passed.0.sent)
    × (length passed.0.sent ≤ length passed.0.got + 2)
exclusion_example = exclusion passed.1

no_deadlock_example : (t : State ℕ) × Step 2 4 passed.0 t
no_deadlock_example = no_deadlock 8 (omega arith) passed.1

-- 256 blocks written, 250 read.
abbrev wrapped : Ring ℕ
wrapped = record {
  blocks = 250 ∷ 251 ∷ 252 ∷ 253 ∷ 254 ∷ 255 ∷ 246 ∷ 247 ∷ 248 ∷ 249 ∷ [];
  reading = 250;
  writing = 0;
}
