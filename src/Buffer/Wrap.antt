-- ===== src/Buffer/Wrap.antt =====
-- `reading` and `writing` of Proyecto/launch/monitor_launch.c are `uint8_t`s, and 256 is no multiple
-- of BUFFER_LENGTH: the slot of block 256 is that of block 250.
use soper.Common.{◌+◌, ◌%◌, ◌≡◌, ◌<◌, length, get_elem?-set_self, some, arith}
use soper.Buffer.{Ring, write, read}

-- With six blocks unread in ten slots across the wrap of the counters, the next block written takes
-- the slot of the oldest unread one, and the reader gets it in the place of that one.
pub read-write_wrapped {ℓ} :
    {A : Type ℓ} (msg : A) (r : Ring A)
    → length r.blocks ≡ 10
    → r.writing < 6
    → r.reading ≡ 250 + r.writing
    → (read 10 256 (write 10 256 msg r)).0 ≡ some msg
unfolding read write
read-write_wrapped msg r fits wrapped behind =
    let e : r.reading % 10 ≡ r.writing % 10 = omega arith in
    rw e (get_elem?-set_self r.blocks (r.writing % 10) msg (omega arith))
