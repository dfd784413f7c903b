-- ===== src/Buffer.antt =====
-- The ring of blocks in shared memory with its three semaphores: the loops of `comprobador` and
-- `monitor` (Proyecto/launch/monitor_launch.c, and P3/Codificacion/monitor.c with other sizes).
-- `len` is BUFFER_LENGTH, and the counters are kept modulo `modulus`, the range of their type.
pub mod Fifo
pub mod Tokens
pub mod Safety
pub mod Wrap
mod Tests
use soper.Common.{
  ℕ, suc, ◌+◌, ◌-◌, ◌%◌, ◌≡◌, ◌<◌, List, [], ◌∷◌, ◌++◌, Option, none, some, get_elem?, set,
  replicate, refl,
}

-- `blocks`, `reading` and `writing` of the shared memory.
pub record Ring {ℓ} (A : Type ℓ) : Type ℓ where
  pub blocks : List A
  pub reading : ℕ
  pub writing : ℕ

module _ {ℓ} {A : Type ℓ} (len modulus : ℕ) where
  -- The protected part of the writer.
  unfoldable pub write : A → Ring A → Ring A
  write msg r = record r {
    writing = (r.writing + 1) % modulus;
    blocks = set r.blocks (r.writing % len) msg;
  }

  -- The protected part of the reader; `none` is a read outside the array.
  unfoldable pub read : Ring A → Option A × Ring A
  read r = (get_elem? r.blocks (r.reading % len), record r { reading = (r.reading + 1) % modulus })

-- Where the writer stands in its loop.
pub data Writer {ℓ} (A : Type ℓ) : Type ℓ where
  receive : Writer A  -- before `mq_receive`
  want_empty : A → Writer A  -- before `sem_wait(gym_empty)`
  want_mutex : A → Writer A  -- before `sem_wait(gym_mutex)`
  writing : A → Writer A  -- inside the protected part
  leave : Writer A  -- before `sem_post(gym_mutex)`
  post_fill : Writer A  -- before `sem_post(gym_fill)`

-- Where the reader stands in its loop.
pub data Reader : Type 0 where
  want_fill : Reader  -- before `sem_wait(gym_fill)`
  want_mutex : Reader  -- before `sem_wait(gym_mutex)`
  reading : Reader  -- inside the protected part
  leave : Reader  -- before `sem_post(gym_mutex)`
  post_empty : Reader  -- before `sem_post(gym_empty)`

-- The two processes over the shared memory. `sent` and `got` are what has been written and read so
-- far, in order; the program keeps no such lists.
pub record State {ℓ} (A : Type ℓ) : Type ℓ where
  pub ring : Ring A
  pub gym_mutex : ℕ
  pub gym_empty : ℕ
  pub gym_fill : ℕ
  pub writer : Writer A
  pub reader : Reader
  pub sent : List A
  pub got : List (Option A)

module _ {ℓ} {A : Type ℓ} (len modulus : ℕ) where
  -- `sem_init` of the semaphores; the memory holds `blocks`.
  abbrev pub start : List A → State A
  start blocks = record {
    ring = record { blocks = blocks; reading = 0; writing = 0 };
    gym_mutex = 1;
    gym_empty = len;
    gym_fill = 0;
    writer = Writer.receive;
    reader = Reader.want_fill;
    sent = [];
    got = [];
  }

  -- One step of one process. `sem_wait` steps only where the semaphore is positive.
  pub data Step (s : State A) : State A → Type ℓ where
    receive :
        (msg : A) → s.writer ≡ Writer.receive → Step s (record s { writer = Writer.want_empty msg })
    take_empty :
        (msg : A) (e : ℕ)
        → s.writer ≡ Writer.want_empty msg
        → s.gym_empty ≡ suc e
        → Step s (record s { writer = Writer.want_mutex msg; gym_empty = e })
    writer_lock :
        (msg : A) (e : ℕ)
        → s.writer ≡ Writer.want_mutex msg
        → s.gym_mutex ≡ suc e
        → Step s (record s { writer = Writer.writing msg; gym_mutex = e })
    write_block :
        (msg : A)
        → s.writer ≡ Writer.writing msg
        → Step s (record s {
          ring = write len modulus msg s.ring;
          writer = Writer.leave;
          sent = s.sent ++ (msg ∷ []);
        })
    writer_unlock :
        s.writer ≡ Writer.leave
        → Step s (record s { writer = Writer.post_fill; gym_mutex = s.gym_mutex + 1 })
    post_fill :
        s.writer ≡ Writer.post_fill
        → Step s (record s { writer = Writer.receive; gym_fill = s.gym_fill + 1 })
    take_fill :
        (e : ℕ)
        → s.reader ≡ Reader.want_fill
        → s.gym_fill ≡ suc e
        → Step s (record s { reader = Reader.want_mutex; gym_fill = e })
    reader_lock :
        (e : ℕ)
        → s.reader ≡ Reader.want_mutex
        → s.gym_mutex ≡ suc e
        → Step s (record s { reader = Reader.reading; gym_mutex = e })
    read_block :
        s.reader ≡ Reader.reading
        → Step s (record s {
          ring = (read len modulus s.ring).1;
          reader = Reader.leave;
          got = s.got ++ ((read len modulus s.ring).0 ∷ []);
        })
    reader_unlock :
        s.reader ≡ Reader.leave
        → Step s (record s { reader = Reader.post_empty; gym_mutex = s.gym_mutex + 1 })
    post_empty :
        s.reader ≡ Reader.post_empty
        → Step s (record s { reader = Reader.want_fill; gym_empty = s.gym_empty + 1 })

  pub data Reach (blocks : List A) : State A → Type ℓ where
    begin : Reach blocks (start blocks)
    next : {s t : State A} → Reach blocks s → Step s t → Reach blocks t
