-- ===== src/Course/Descriptors/Reuse.antt =====
-- Descriptors are used again, and given back.
use soper.Common.{
  ℕ, zero, suc, ◌+◌, ◌<◌, ◌≡◌, ◌≢◌, ◌==◌, [], ◌∷◌, Option, none, some, true, arith, refl, ap, ◌∙◌,
  if◌then◌else◌, dec_lt,
}
use native.Mathlib.Numerals.{add-one}
use soper.Course.Descriptors.{
  Table, allocate, release, Name, file1, file2, file3, Os, put, found, ok, Calls, main, open_file,
  reopen, close, unlink,
}

-- What a descriptor stands for.
unfoldable pub slot : Table → ℕ → Option ℕ
slot [] k = none
slot (x ∷ t) zero = x
slot (x ∷ t) (suc k) = slot t k

slot-allocate :
    (t : Table) (v k : ℕ)
    → slot (allocate t v).1 k ≡ (if (allocate t v).0 == k then some v else slot t k)
unfolding slot allocate
slot-allocate [] v zero = refl
slot-allocate [] v (suc k) = ground arith
slot-allocate (none ∷ t) v zero = refl
slot-allocate (none ∷ t) v (suc k) = ground arith
slot-allocate (some x ∷ t) v zero = ground arith
slot-allocate (some x ∷ t) v (suc k) = ground (arith, slot-allocate t v k)

slot-release : (t : Table) (i k : ℕ) → slot (release t i) k ≡ (if i == k then none else slot t k)
unfolding slot release
slot-release [] i k = ground arith
slot-release (x ∷ t) zero zero = refl
slot-release (x ∷ t) zero (suc k) = ground arith
slot-release (x ∷ t) (suc i) zero = ground arith
slot-release (x ∷ t) (suc i) (suc k) = ground (arith, slot-release t i k)

-- The descriptor was free, and all below it were not.
allocate-free : (t : Table) (v : ℕ) → slot t (allocate t v).0 ≡ none
unfolding slot allocate
allocate-free [] v = refl
allocate-free (none ∷ t) v = refl
allocate-free (some x ∷ t) v = rw add-one (allocate-free t v)

allocate-lowest : (t : Table) (v j : ℕ) → j < (allocate t v).0 → slot t j ≢ none
unfolding slot allocate
allocate-lowest [] v j h e = absurd (omega arith)
allocate-lowest (none ∷ t) v j h e = absurd (omega arith)
allocate-lowest (some x ∷ t) v zero h e = cc
allocate-lowest (some x ∷ t) v (suc j) h e = allocate-lowest t v j (omega arith) e

allocate-eq :
    (t : Table) (v i : ℕ)
    → slot t i ≡ none
    → ((j : ℕ) → j < i → slot t j ≢ none)
    → (allocate t v).0 ≡ i
allocate-eq t v i free below = elim (dec_lt (allocate t v).0 i) [
  | yes lt ↦ absurd (below (allocate t v).0 lt (allocate-free t v))
  | no ge ↦ elim (dec_lt i (allocate t v).0) [
    | yes lt ↦ absurd (allocate-lowest t v i lt free)
    | no ge' ↦ omega arith
  ]
]

-- Two descriptors are taken and the first is given back: the next one is the first again.
allocate-again :
    (t : Table) (u v w : ℕ)
    → let (i, t1) = allocate t u in let t2 = (allocate t1 v).1 in (allocate (release t2 i) w).0 ≡ i
allocate-again t u v w =
    let i = (allocate t u).0 in
    let t1 = (allocate t u).1 in
    let t2 = (allocate t1 v).1 in
    allocate-eq (release t2 i) w i (slot-release t2 i i ∙ ground arith) (λ j h. grind (
      arith,
      slot-release t2 i j,
      slot-allocate t1 v j,
      slot-allocate t u j,
      allocate-lowest t u j h,
    ))

-- All calls succeed.
abbrev pub all_work : Calls
all_work = record {
  open1 = true;
  written = true;
  open2 = true;
  unlink1 = true;
  open3 = true;
  open4 = true;
  unlink2 = true;
  unlink3 = true;
}

-- A table that is closed again at the descriptors that were taken is as it was.
given_back :
    (t : Table) (u v w x : ℕ) (k : ℕ)
    → let (i, t1) = allocate t u in
      let (j, t2) = allocate t1 v in
      let (l, t3) = allocate (release t2 i) w in
      let (m, t4) = allocate t3 x in slot (release (release (release t4 j) l) m) k ≡ slot t k
given_back t u v w x k =
    let a = allocate t u in
    let b = allocate a.1 v in
    let c = allocate (release b.1 a.0) w in
    let d = allocate c.1 x in
    ground (
      arith,
      slot-release (release (release d.1 b.0) c.0) d.0 k,
      slot-release (release d.1 b.0) c.0 k,
      slot-release d.1 b.0 k,
      slot-allocate c.1 x k,
      slot-allocate (release b.1 a.0) w k,
      slot-release b.1 a.0 k,
      slot-allocate a.1 v k,
      slot-allocate t u k,
      allocate-free t u,
      allocate-free a.1 v,
      allocate-free c.1 x,
      allocate-again t u v w,
    )

no_names :
    (f : Name → Option ℕ) (x y z : Option ℕ) (n : Name)
    → put (put (put (put (put (put f file1 x) file2 y) file1 none) file3 z) file2 none) file3 none n
      ≡ none
no_names f x y z file1 = refl
no_names f x y z file2 = refl
no_names f x y z file3 = refl

-- If all calls succeed, whatever files and descriptors there are before: FILE3 gets the descriptor
-- that FILE1 had, since it is closed by then although the file was unlinked before; at the end all
-- descriptors stand for what they stood for at the start, and the three names are gone.
pub main_lem :
    (s : Os)
    → (fd1 fd2 fd4 : ℕ) × (t : Os) × (main all_work s ≡ ok (fd1, fd2, fd1, fd4) t)
      × ((k : ℕ) → slot t.table k ≡ slot s.table k)
      × ((n : Name) → t.names n ≡ none)
unfolding main open_file reopen close unlink
main_lem s =
    let u = found (s.names file1) s.fresh in
    let v = found (s.names file2) (s.fresh + 1) in
    let w = found (s.names file3) (s.fresh + 1 + 1) in
    let a = allocate s.table u in
    let b = allocate a.1 v in
    let c = allocate (release b.1 a.0) w in
    let d = allocate c.1 w in
    let t : Os = record {
      table = release (release (release d.1 b.0) c.0) d.0;
      names =
          put
            (put
              (put (put (put (put s.names file1 (some u)) file2 (some v)) file1 none) file3
                (some w))
              file2 none)
            file3 none;
      fresh = s.fresh + 1 + 1 + 1;
    } in
    (
      a.0,
      b.0,
      d.0,
      t,
      ap (λ x. ok (a.0, b.0, x, d.0) t) (allocate-again s.table u v w),
      given_back s.table u v w w,
      no_names s.names (some u) (some v) (some w),
    )
