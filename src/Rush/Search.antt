-- ===== src/Rush/Search.antt =====
-- What the threads of a round leave in the globals.
use soper.Common.{
  ℕ, zero, suc, ◌+◌, ◌*◌, ◌<◌, ◌≤◌, ◌≡◌, ◌≢◌, ◌⊎◌, true, false, ◌==◌, if◌then◌else◌, arith, refl,
  ltb, ℕ_discrete, ==_iff, ap, dec_lt,
}
use soper.Pow.{pow_limit}
use soper.Pow.Solve.{preimage, eqb-pow_hash}
use soper.Mining.{slice_width}
use soper.Mining.Slices.{covered, covered-lt, end-le}
use soper.Rush.{Globals, work_from, work, threads}

-- The hit of a target.
abbrev pub hit : ℕ → Globals
hit t = record { pipe_data = record { target = t; solution = preimage t }; magic_flag = true }

ne_test : (a b : ℕ) → a ≢ b → (a == b) ≡ false
ne_test a b h = ground arith

work_from-up : (k i t : ℕ) (g : Globals) → g.magic_flag ≡ true → work_from k i t g ≡ g
unfolding work_from
work_from-up zero i t g up = refl
work_from-up (suc k) i t g up = rw up

work_from-hit :
    (k i t : ℕ) (g : Globals)
    → t < pow_limit
    → i + k ≤ pow_limit
    → g.magic_flag ≡ false
    → i ≤ preimage t
    → preimage t < i + k
    → work_from k i t g ≡ hit t
unfolding work_from
work_from-hit zero i t g ht hi down lo up = absurd (omega arith)
work_from-hit (suc k) i t g ht hi down lo up = elim (ℕ_discrete i (preimage t)) [
  | yes e ↦
      simp (down, eqb-pow_hash i t (omega arith) ht, (==_iff i (preimage t)).1 e)
        (ap (λ x. record { pipe_data = record { target = t; solution = x }; magic_flag = true }) e)
  | no ne ↦
      simp (down, eqb-pow_hash i t (omega arith) ht, ne_test i (preimage t) ne)
        (work_from-hit k (i + 1) t g ht (omega arith) down (omega arith) (omega arith))
]

work_from-miss :
    (k i t : ℕ) (g : Globals)
    → t < pow_limit
    → i + k ≤ pow_limit
    → g.magic_flag ≡ false
    → (preimage t < i) ⊎ (i + k ≤ preimage t)
    → work_from k i t g ≡ g
unfolding work_from
work_from-miss zero i t g ht hi down out = refl
work_from-miss (suc k) i t g ht hi down out =
    simp (down, eqb-pow_hash i t (omega arith) ht, ne_test i (preimage t) (omega arith))
      (work_from-miss k (i + 1) t g ht (omega arith) down (omega arith))

-- The first `j` threads find nothing if it stands behind the last of them.
pub threads-miss :
    (n t j : ℕ) (g : Globals)
    → t < pow_limit
    → j ≤ n
    → g.magic_flag ≡ false
    → j * slice_width n ≤ preimage t
    → threads n t j g ≡ g
unfolding threads work
threads-miss n t zero g ht hj down ge = refl
threads-miss n t (suc j) g ht hj down ge =
    rw (threads-miss n t j g ht (omega arith) down (omega arith)) (
      work_from-miss _ (j * slice_width n) t g ht (omega (arith, end-le n j hj, covered-lt n)) down
        (omega arith))

-- The first `j` threads find the solution if it stands below the end of the last of them.
pub threads-hit :
    (n t j : ℕ) (g : Globals)
    → t < pow_limit
    → j ≤ n
    → g.magic_flag ≡ false
    → preimage t < j * slice_width n
    → threads n t j g ≡ hit t
unfolding threads work
threads-hit n t zero g ht hj down lt = absurd (omega arith)
threads-hit n t (suc j) g ht hj down lt = elim (dec_lt (preimage t) (j * slice_width n)) [
  | yes before ↦
      rw (threads-hit n t j g ht (omega arith) down before)
        (work_from-up _ (j * slice_width n) t (hit t) refl)
  | no here ↦ rw (threads-miss n t j g ht (omega arith) down (omega arith)) (
      work_from-hit _ (j * slice_width n) t g ht (omega (arith, end-le n j hj, covered-lt n)) down
        (omega arith) (omega arith))
]

pub threads-covered :
    (n t : ℕ) (g : Globals)
    → t < pow_limit
    → g.magic_flag ≡ false
    → threads n t n g ≡ (if ltb (preimage t) (covered n) then hit t else g)
threads-covered n t g ht down = ground (arith, threads-hit n t n g ht, threads-miss n t n g ht)
