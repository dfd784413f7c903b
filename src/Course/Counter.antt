-- ===== src/Course/Counter.antt =====
-- P3/file_mmap.c: each run maps a file of one `int` and adds one to it.
pub mod Runs
mod Tests
use soper.Common.{ℕ, ◌+◌, ◌≡◌, Bool, true, false, Option, none, some, if◌then◌else◌, ◌==◌}

-- The file: it does not exist, it is empty, or it holds a number. `int` does not overflow here.
pub data Content : Type 0 where
  absent : Content
  empty : Content
  holds : ℕ → Content

-- Where a run stands.
pub data Pc : Type 0 where
  start : Pc  -- before `open` with O_CREAT and O_EXCL
  reopen : Pc  -- EEXIST: before `open`
  truncate : Pc  -- it has created the file
  map : Bool → Pc  -- before `mmap`, with `created`
  clear : Pc  -- before `*mapped = 0`
  load : Pc  -- `*mapped += 1` reads
  store : ℕ → Pc  -- and writes
  print : Pc  -- before `printf`, which reads again
  ended : ℕ → Pc  -- it has printed this number
  failed : Pc
  killed : Pc  -- by SIGBUS, since the mapped file is empty

-- Truncating a file that holds a number of this size leaves the number.
unfoldable pub truncated : Content → Content
truncated absent = absent
truncated empty = holds 0
truncated (holds v) = holds v

-- One step of a run that is alone at that moment; no call fails.
unfoldable pub advance : Content → Pc → Content × Pc
unfolding truncated
advance absent start = (empty, truncate)
advance c start = (c, reopen)
advance absent reopen = (absent, failed)
advance c reopen = (c, map false)
advance c truncate = (truncated c, map true)
advance c (map true) = (c, clear)
advance c (map false) = (c, load)
advance (holds v) clear = (holds 0, load)
advance c clear = (c, killed)
advance (holds v) load = (holds v, store v)
advance c load = (c, killed)
advance c (store v) = (holds (v + 1), print)
advance (holds v) print = (holds v, ended v)
advance c print = (c, killed)
advance c p = (c, p)

pub record World : Type 0 where
  pub content : Content
  pub pc : ℕ → Pc

abbrev pub update : (ℕ → Pc) → ℕ → Pc → ℕ → Pc
update f i p k = if i == k then p else f k

-- Run `i` takes a step.
unfoldable pub turn : World → ℕ → World
turn w i = let (c, p) = advance w.content (w.pc i) in record { content = c; pc = update w.pc i p }

abbrev pub opened : World
opened = record { content = absent; pc = λ _. start }

-- A run exits when one of its calls fails.
abbrev pub may_fail : Pc → Bool
may_fail start = true
may_fail reopen = true
may_fail truncate = true
may_fail (map created) = true
may_fail _ = false

pub data Reach : World → World → Type 0 where
  here : {w : World} → Reach w w
  next : {w v : World} → Reach w v → (i : ℕ) → Reach w (turn v i)
  fail :
      {w v : World}
      → Reach w v
      → (i : ℕ) → may_fail (v.pc i) ≡ true
      → Reach w (record v { pc = update v.pc i failed })
