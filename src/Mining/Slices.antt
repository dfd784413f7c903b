-- ===== src/Mining/Slices.antt =====
-- Which candidates the slices of the threads cover.
use soper.Common.{ℕ, ◌≡◌, ◌/◌, ◌↔◌, zero, suc, ◌+◌, ◌*◌, ◌/◌, ◌<◌, ◌≤◌, ◌≡◌, ◌⊎◌, arith}
use soper.Pow.{pow_limit}
use native.Mathlib.Nat.{div-add-mod, mod-lt}
use soper.Mining.{slice_width, miner_data}

-- The first candidate behind the last slice.
abbrev pub covered : ℕ → ℕ
covered nthreads = nthreads * slice_width nthreads

pub missed-by-all : (w p n : ℕ) → ((j : ℕ) → j < n → (p < j * w) ⊎ ((j + 1) * w ≤ p)) → n * w ≤ p
missed-by-all w p zero h = omega arith
missed-by-all w p (suc n) h =
    grind (arith, missed-by-all w p n (λ j hj. h j (omega arith)), h n (omega arith))

pub covered-lt : (n : ℕ) → covered n < pow_limit
covered-lt zero = omega arith
covered-lt (suc n) = grind arith

pub end-le : (n j : ℕ) → j < n → (j + 1) * slice_width n ≤ covered n
end-le n j h = grind arith

slice_unique : (w x j k : ℕ) → j * w ≤ x → x < (j + 1) * w → k * w ≤ x → x < (k + 1) * w → j ≡ k
slice_unique w x j k a b c d = grind arith

slice_of : (n w x : ℕ) → x < n * w → (x / w < n) × (x / w * w ≤ x) × (x < (x / w + 1) * w)
slice_of n w x h = grind (arith, div-add-mod, mod-lt)

covered_near : (n : ℕ) → 0 < n → pow_limit ≤ covered n + n
covered_near n h = grind (arith, div-add-mod, mod-lt)

-- For at least one thread, a candidate below the end of the last slice stands in the slice of one
-- thread and of no other; the candidates below POW_LIMIT behind it, which no thread searches, are
-- at least one and at most as many as there are threads.
pub slices_lem :
    (n x j : ℕ)
    → 0 < n
    → x < covered n
    → (covered n < pow_limit)
      × (pow_limit ≤ covered n + n)
      × (x / slice_width n < n)
      × (((miner_data n 0 j).start ≤ x) × (x < (miner_data n 0 j).end) ↔ (j ≡ x / slice_width n))
slices_lem n x j hn h =
    let (lt, lo, hi) = slice_of n (slice_width n) x h in
    (
      covered-lt n,
      covered_near n hn,
      lt,
      (
        λ inside. slice_unique (slice_width n) x j (x / slice_width n) inside.0 inside.1 lo hi,
        λ e. rw e (lo, hi),
      ),
    )
