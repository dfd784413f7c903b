-- ===== src/Codificacion/Sharing/Tests.antt =====
-- A run of the checker with two monitors, and the theorems of this part at it.
use soper.Common.{to_int, ◌≡◌, List, some, true, pos, ◌+ℤ◌, refl, arith, get_elem?, replicate}
use soper.Codificacion.{Block, Entry, check}
use soper.Codificacion.Sharing.{
  State, Reach, opened, here, next, attach, take, wait_empty, put_entry, post, wait_fill, get_entry,
  close, want_fill, is_stop, get, put, resign, skip_write, skip_read, entry_for, after_put,
  after_get, slot_flag,
}
use soper.Buffer.{read, write}
use soper.Codificacion.Sharing.End.{other_waits}

abbrev last : Block
last = record { target = pos 0; solution = pos 4150; flag = 0; end = 1 }

abbrev blank : Entry
blank = record { flag = 0; target = pos 0; solution = pos 0 }

abbrev memory : List Entry
memory = replicate 6 blank

-- Both monitors attach, the last block comes, and the first monitor takes its slot.
abbrev taken : (s : State) × Reach (opened memory 2) s
unfolding put resign skip_write entry_for write ◌+ℤ◌ slot_flag after_put
taken = (
  _,
  next
      (next
        (next
          (next (next (next (next here (attach 0 refl)) (attach 1 refl)) (take last refl))
            (wait_empty last 5 refl refl))
          (put_entry last refl))
        (post last refl))
      (wait_fill 0 0 refl refl),
)

-- It reads the mark, and the second one waits.
abbrev marked : (s : State) × Reach (opened memory 2) s
unfolding put resign skip_write entry_for write ◌+ℤ◌ slot_flag after_put
marked = (_, next taken.1 (get_entry 0 refl))

abbrev closed : (t : State) × Reach marked.0 t
unfolding put resign skip_write entry_for write ◌+ℤ◌ slot_flag after_put get is_stop skip_read read
    after_get to_int
closed = (_, next here (close 0 refl))

-- The first monitor destroys the semaphores, although the second one waits at one of them.
destroyed_runs :
    (marked.0.shared.destroyed ≡ true) × (get_elem? marked.0.monitors 1 ≡ some want_fill)
unfolding put resign skip_write entry_for write ◌+ℤ◌ slot_flag after_put get is_stop skip_read read
    after_get to_int
destroyed_runs = (refl, refl)

other_waits_example :
    (get_elem? closed.0.monitors 1 ≡ some want_fill) × (closed.0.got ≡ marked.0.got)
unfolding put resign skip_write entry_for write ◌+ℤ◌ slot_flag after_put get is_stop skip_read read
    after_get check to_int
other_waits_example =
    other_waits 2 1 marked.1 refl (refl, tt) (omega arith) (omega arith) refl closed.1
