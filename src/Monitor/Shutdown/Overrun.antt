-- ===== src/Monitor/Shutdown/Overrun.antt =====
-- SIGINT to the checker while it waits for an empty slot: it goes on without one.
use soper.Common.{
  ◌+◌, ◌%◌, ◌≡◌, ◌<◌, List, [], ◌∷◌, ◌++◌, false, some, length, append-nil, map, get_elem?-set_self,
  arith, refl, ap, sym, ◌∙◌,
}
use soper.Network.{Block}
use soper.Buffer.{Ring, write, read, Writer, Reader}
use soper.Buffer.Tokens.{Reach-Counts}
use soper.Buffer.Fifo.{Reach-Fifo}
use soper.Monitor.{buffer_length, counter_range}
use soper.Monitor.Shutdown.{
  Checker, Monitor, World, Reach, next, checker_lock, write_block, checker_unlock, post_fill,
  wakes_empty, take_fill, monitor_lock, read_block, monitor_unlock, post_empty, keep, print,
}
use soper.Monitor.Shutdown.Following.{Reach-Follows, writer_at, reader_at, held}

-- The next slot to read is the next slot to write.
overwritten :
    (b : Block) (r : Ring Block)
    → length r.blocks ≡ buffer_length
    → r.reading % 10 ≡ r.writing % 10
    → (read buffer_length counter_range (write buffer_length counter_range b r)).0 ≡ some b
unfolding read write
overwritten b r fits e =
    rw e (get_elem?-set_self r.blocks (r.writing % buffer_length) b (omega arith))

-- The ring is full and all semaphores are at rest.
record Full (s : World) : Type 0 where
  gym_mutex : s.gym_mutex ≡ 1
  gym_fill : s.gym_fill ≡ 10
  fits : length s.ring.blocks ≡ buffer_length
  meets : s.ring.reading % 10 ≡ s.ring.writing % 10
  behind : length s.written ≡ length s.shown + buffer_length

length-map : (xs : List Block) → length (map some xs) ≡ length xs
length-map [] = refl
length-map (x ∷ xs) = omega (arith, length-map xs)

Reach-Full :
    {blocks : List Block} {s : World} {b : Block}
    → Reach blocks s
    → length blocks ≡ buffer_length
    → s.checker_down ≡ false
    → s.monitor_down ≡ false
    → s.checker ≡ Checker.want_empty b
    → s.monitor ≡ Monitor.want_fill
    → s.gym_empty ≡ 0
    → length s.written < counter_range
    → Full s
Reach-Full {s} r e c m at at' none small =
    let (u, q, f) = Reach-Follows r c m in
    let w : u.writer ≡ Writer.want_empty _ = f.writer ∙ ap writer_at at in
    let d : u.reader ≡ Reader.want_fill = f.reader ∙ ap reader_at at' in
    let counts = Reach-Counts q in
    let got : length u.got ≡ length s.shown =
      ap length f.got
      ∙ length-map _
      ∙ ap (λ x. length (s.shown ++ held x)) at'
      ∙ ap length (append-nil s.shown) in
    let fill : u.gym_fill ≡ 10 = ground arith in
    let backlog : length s.written ≡ length s.shown + 10 = ground (arith, ap length f.sent) in
    let window = (Reach-Fifo (omega arith) q e (omega (arith, ap length f.sent))).window in
    record {
      gym_mutex = sym f.gym_mutex ∙ ground arith;
      gym_fill = sym f.gym_fill ∙ fill;
      fits = ap (λ x. length x.blocks) (sym f.ring) ∙ window.fits;
      meets =
          ap (λ x. x.reading % 10) (sym f.ring)
          ∙ omega (arith, window.reads, window.writes, ap length f.sent)
          ∙ ap (λ x. x.writing % 10) f.ring;
      behind = backlog;
    }

-- From every state in which the ring is full, the checker waits with block `b` for an empty slot and
-- the monitor is about to read, a state can be reached in which SIGINT has come to the checker only,
-- and the monitor has printed `b` in the place of the oldest block that it had yet to read: `b` is
-- written ten places behind that. Fewer than 256 blocks have been written, and no signal has come.
pub overrun :
    {blocks : List Block} {s : World} (b : Block)
    → Reach blocks s
    → length blocks ≡ buffer_length
    → s.checker_down ≡ false
    → s.monitor_down ≡ false
    → s.checker ≡ Checker.want_empty b
    → s.monitor ≡ Monitor.want_fill
    → s.gym_empty ≡ 0
    → length s.written < counter_range
    → (t : World) × Reach blocks t
      × (t.shown ≡ s.shown ++ (b ∷ []))
      × (t.written ≡ s.written ++ (b ∷ []))
      × (length s.written ≡ length s.shown + buffer_length)
      × (t.monitor_down ≡ false)
overrun {s = s} b r e c m at at' none small =
    let full = Reach-Full r e c m at at' none small in
    (
      _,
      next
          (next
            (next
              (next
                (next
                  (next
                    (next
                      (next
                        (next
                          (next
                            (next (next r (wakes_empty b at none))
                              (checker_lock b 0 refl full.gym_mutex))
                            (write_block b refl))
                          (checker_unlock refl))
                        (take_fill 9 at' full.gym_fill))
                      (monitor_lock 0 refl refl))
                    (read_block b refl (overwritten b s.ring full.fits full.meets)))
                  (monitor_unlock b refl))
                (post_empty b refl))
              (keep b refl m))
            (print b refl))
          (post_fill refl),
      refl,
      refl,
      full.behind,
      m,
    )
