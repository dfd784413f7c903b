-- ===== src/Course/Descriptors.antt =====
-- The descriptors and the names of P1/file_descriptors.c.
pub mod Reuse
mod Tests
use soper.Common.{
  ℕ, zero, suc, ◌+◌, ◌==◌, List, [], ◌∷◌, Option, none, some, Bool, true, false, if◌then◌else◌,
}

-- A table of descriptors, with the file that each open one stands for; behind its end all are free.
abbrev pub Table : Type 0
Table = List (Option ℕ)

-- `open` gives the lowest free descriptor.
unfoldable pub allocate : Table → ℕ → ℕ × Table
allocate [] v = (0, some v ∷ [])
allocate (none ∷ t) v = (0, some v ∷ t)
allocate (some x ∷ t) v = let (i, t') = allocate t v in (i + 1, some x ∷ t')

unfoldable pub release : Table → ℕ → Table
release [] i = []
release (x ∷ t) zero = none ∷ t
release (x ∷ t) (suc i) = x ∷ release t i

-- FILE1, FILE2 and FILE3: the file that a name stands for.
pub data Name : Type 0 where
  file1 file2 file3 : Name

pub record Os : Type 0 where
  pub table : Table
  pub names : Name → Option ℕ
  pub fresh : ℕ  -- the next new file

abbrev pub same : Name → Name → Bool
same file1 file1 = true
same file2 file2 = true
same file3 file3 = true
same _ _ = false

abbrev pub put : (Name → Option ℕ) → Name → Option ℕ → Name → Option ℕ
put f n v m = if same n m then v else f m

-- A run, or its end by `exit` when a call fails.
pub data Run (A : Type 0) : Type 0 where
  ok : A → Os → Run A
  exit : Os → Run A

abbrev pub M : Type 0 → Type 0
M A = Os → Run A

infixl 5 ◌>>=◌ ◌>>◌
abbrev pub ◌>>=◌ : {A B : Type 0} → M A → (A → M B) → M B
◌>>=◌ m f s = elim (m s) [ ok a s' ↦ f a s' | exit s' ↦ exit s' ]

abbrev pub ◌>>◌ : {A B : Type 0} → M A → M B → M B
◌>>◌ m k s = elim (m s) [ ok a s' ↦ k s' | exit s' ↦ exit s' ]

-- The file that `open` finds, or makes with O_CREAT.
abbrev pub found : Option ℕ → ℕ → ℕ
found (some v) fresh = v
found none fresh = fresh

-- `open` with O_CREAT, O_TRUNC and O_RDWR; `works` tells whether it succeeds. A file that is there
-- keeps its number.
unfoldable pub open_file : Bool → Name → M ℕ
open_file works n s =
    let v = found (s.names n) s.fresh in
    let (i, t) = allocate s.table v in
    if works
    then ok i (record { table = t; names = put s.names n (some v); fresh = s.fresh + 1 })
    else exit s

-- `open` without O_CREAT fails where the name is not there.
unfoldable pub reopen : Bool → Name → M ℕ
reopen works n s = elim (s.names n) [
  | none ↦ exit s
  | some v ↦
      let (i, t) = allocate s.table v in if works then ok i (record s { table = t }) else exit s
]

unfoldable pub close : ℕ → M (Unit {0})
close i s = ok tt (record s { table = release s.table i })

unfoldable pub unlink : Bool → Name → M (Unit {0})
unlink works n s = if works then ok tt (record s { names = put s.names n none }) else exit s

-- Whether the calls succeed; `written` is the end of the loop around `write`.
pub record Calls : Type 0 where
  pub open1 : Bool
  pub written : Bool
  pub open2 : Bool
  pub unlink1 : Bool
  pub open3 : Bool
  pub open4 : Bool
  pub unlink2 : Bool
  pub unlink3 : Bool

abbrev pub write_message : Bool → M (Unit {0})
write_message works s = if works then ok tt s else exit s

-- `main`, with the four descriptors.
unfoldable pub main : Calls → M (ℕ × ℕ × ℕ × ℕ)
unfolding open_file reopen close unlink
main c = do
  fd1 ← open_file c.open1 file1
  write_message c.written
  fd2 ← open_file c.open2 file2
  unlink c.unlink1 file1
  close fd1
  fd3 ← open_file c.open3 file3
  fd4 ← reopen c.open4 file3
  close fd2
  close fd3
  close fd4
  unlink c.unlink2 file2
  unlink c.unlink3 file3
  λ s. ok (fd1, fd2, fd3, fd4) s
