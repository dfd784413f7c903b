-- ===== src/Buffer/Safety.antt =====
-- The writer and the reader exclude one another, and never wait for one another.
use soper.Common.{ℕ, ◌+◌, ◌-◌, ◌≡◌, ◌≤◌, ◌<◌, List, arith, refl, ◌⊎◌, inl, inr, length, dec_lt}
use soper.Buffer.{
  Writer, Reader, State, Step, Reach, receive, take_empty, writer_lock, write_block, writer_unlock,
  post_fill, take_fill, reader_lock, read_block, reader_unlock, post_empty,
}
use soper.Buffer.Tokens.{
  Counts, Reach-Counts, writer_locks, reader_locks, reader_holds, unread-le, unposted-le,
}

module _ {ℓ} {A : Type ℓ} {len modulus : ℕ} where
  -- In no reachable state do both processes hold the mutex, and the blocks written and not yet read
  -- are at most as many as the ring has slots.
  pub exclusion :
      {blocks : List A} {s : State A}
      → Reach len modulus blocks s
      → (writer_locks s.writer + reader_locks s.reader ≤ 1)
        × (length s.got ≤ length s.sent)
        × (length s.sent ≤ length s.got + len)
  exclusion {s} r =
      let c = Reach-Counts r in
      omega (arith, c.mutex, c.slots, c.backlog, unread-le s.reader, unposted-le s.writer)

  -- The next step of the process that can go on.
  writer_step :
      (s : State A) (msg : A) (w : Writer A)
      → s.writer ≡ w
      → Counts len s
      → reader_locks s.reader ≡ 0
      → ((t : State A) × Step len modulus s t)
        ⊎ (s.gym_empty ≡ 0) × ((m : A) × (s.writer ≡ Writer.want_empty m))
  writer_step s msg Writer.receive e c free = inl (_, receive msg e)
  writer_step s msg (Writer.want_empty m) e c free = elim (dec_lt 0 s.gym_empty) [
    | yes p ↦ inl (_, take_empty m (s.gym_empty - 1) e (omega arith))
    | no p ↦ inr (omega arith, (m, e))
  ]
  writer_step s msg (Writer.want_mutex m) e c free =
      inl (_, writer_lock m 0 e (ground (arith, c.mutex)))
  writer_step s msg (Writer.writing m) e c free = inl (_, write_block m e)
  writer_step s msg Writer.leave e c free = inl (_, writer_unlock e)
  writer_step s msg Writer.post_fill e c free = inl (_, post_fill e)

  reader_step :
      (s : State A) (r : Reader)
      → 0 < len
      → s.reader ≡ r
      → Counts len s
      → ((t : State A) × Step len modulus s t)
        ⊎ (reader_locks s.reader ≡ 0)
          × ((s.gym_fill ≡ 0) × (reader_holds s.reader ≡ 0) ⊎ (0 < writer_locks s.writer))
  reader_step s Reader.want_fill pos e c = elim (dec_lt 0 s.gym_fill) [
    | yes p ↦ inl (_, take_fill (s.gym_fill - 1) e (omega arith))
    | no p ↦ inr (ground arith, inl (omega arith, ground arith))
  ]
  reader_step s Reader.want_mutex pos e c = elim (dec_lt 0 (writer_locks s.writer)) [
    | yes p ↦ inr (ground arith, inr p)
    | no p ↦ inl (_, reader_lock 0 e (ground (arith, c.mutex)))
  ]
  reader_step s Reader.reading pos e c = inl (_, read_block e)
  reader_step s Reader.leave pos e c = inl (_, reader_unlock e)
  reader_step s Reader.post_empty pos e c = inl (_, post_empty e)

  -- No deadlock: in every reachable state one of the processes can take a step. The ring has at
  -- least one slot.
  pub no_deadlock :
      {blocks : List A} {s : State A} (msg : A)
      → 0 < len
      → Reach len modulus blocks s
      → (t : State A) × Step len modulus s t
  no_deadlock {s} msg pos r = elim (reader_step s s.reader pos refl c) [
    | inl step ↦ step
    | inr (free, why) ↦ elim (writer_step s msg s.writer refl c free) [
      | inl step ↦ step
      | inr (none_empty, (m, waits)) ↦ absurd (ground (arith, c.slots))
    ]
  ]
    where
      c : Counts len s
      c = Reach-Counts r
