-- ===== src/Buffer/Tokens.antt =====
-- What the semaphores count in every reachable state.
use soper.Common.{ℕ, ◌+◌, ◌≡◌, ◌≤◌, List, [], ◌∷◌, length, length-append, arith}
use soper.Buffer.{
  read, Writer, Reader, State, Step, Reach, begin, next, receive, take_empty, writer_lock,
  write_block, writer_unlock, post_fill, take_fill, reader_lock, read_block, reader_unlock,
  post_empty,
}

abbrev pub writer_locks {ℓ} : {A : Type ℓ} → Writer A → ℕ
writer_locks (Writer.writing _) = 1
writer_locks Writer.leave = 1
writer_locks _ = 0

abbrev pub reader_locks : Reader → ℕ
reader_locks Reader.reading = 1
reader_locks Reader.leave = 1
reader_locks _ = 0

-- An empty slot taken, and not yet posted as filled.
abbrev pub writer_holds {ℓ} : {A : Type ℓ} → Writer A → ℕ
writer_holds Writer.receive = 0
writer_holds (Writer.want_empty _) = 0
writer_holds _ = 1

abbrev pub reader_holds : Reader → ℕ
reader_holds Reader.want_fill = 0
reader_holds _ = 1

-- Written and not yet posted; posted and not yet read.
abbrev pub unposted {ℓ} : {A : Type ℓ} → Writer A → ℕ
unposted Writer.leave = 1
unposted Writer.post_fill = 1
unposted _ = 0

abbrev pub unread : Reader → ℕ
unread Reader.want_mutex = 1
unread Reader.reading = 1
unread _ = 0

pub unread-le : (r : Reader) → unread r ≤ reader_holds r
unread-le Reader.want_fill = omega arith
unread-le r = omega arith

pub unposted-le {ℓ} : {A : Type ℓ} (w : Writer A) → unposted w ≤ writer_holds w
unposted-le Writer.receive = omega arith
unposted-le w = omega arith

pub record Counts {ℓ} {A : Type ℓ} (len : ℕ) (s : State A) : Type 0 where
  pub mutex : s.gym_mutex + writer_locks s.writer + reader_locks s.reader ≡ 1
  pub slots : s.gym_empty + s.gym_fill + writer_holds s.writer + reader_holds s.reader ≡ len
  pub backlog : length s.sent ≡ length s.got + s.gym_fill + unposted s.writer + unread s.reader

module _ {ℓ} {A : Type ℓ} {len modulus : ℕ} where
  Step-Counts : {s t : State A} → Step len modulus s t → Counts len s → Counts len t
  Step-Counts (receive msg w) c = ground arith
  Step-Counts (take_empty msg e w h) c = ground arith
  Step-Counts (writer_lock msg e w h) c = ground arith
  Step-Counts {s} (write_block msg w) c = ground (arith, length-append s.sent (msg ∷ []))
  Step-Counts (writer_unlock w) c = ground arith
  Step-Counts (post_fill w) c = ground arith
  Step-Counts (take_fill e w h) c = ground arith
  Step-Counts (reader_lock e w h) c = ground arith
  Step-Counts {s} (read_block w) c =
      ground (arith, length-append s.got ((read len modulus s.ring).0 ∷ []))
  Step-Counts (reader_unlock w) c = ground arith
  Step-Counts (post_empty w) c = ground arith

  pub Reach-Counts : {blocks : List A} {s : State A} → Reach len modulus blocks s → Counts len s
  Reach-Counts begin = omega arith
  Reach-Counts (next r st) = Step-Counts st (Reach-Counts r)
