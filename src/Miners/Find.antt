-- ===== src/Miners/Find.antt =====
-- What the index that `find_miner_index` returns says.
use soper.Common.{
  ℕ, zero, suc, ◌+◌, ◌<◌, ◌≡◌, ◌≢◌, ◌⊎◌, List, get_or, arith, inl, inr, Bool-cases, ◌==◌, ==_iff,
  dec_lt, refl, u8, false,
}
use soper.Miners.{Miner, blank, find_from, find_miner_index}

abbrev pub pid_at : List Miner → ℕ → ℕ
pid_at miners i = (get_or miners i blank).pid

-- The first of the miners that has the pid stands at `r`.
pub record IsFirst (miners : List Miner) (num_miners pid r : ℕ) : Type 0 where
  pub within : r < num_miners
  pub here : pid_at miners r ≡ pid
  pub earlier : (j : ℕ) → j < r → pid_at miners j ≢ pid

abbrev pub IsAbsent : List Miner → ℕ → ℕ → Type 0
IsAbsent miners num_miners pid = (j : ℕ) → j < num_miners → pid_at miners j ≢ pid

IsAbsent-next :
    (miners : List Miner) (i pid : ℕ)
    → IsAbsent miners i pid
    → (pid_at miners i == pid) ≡ false
    → IsAbsent miners (i + 1) pid
IsAbsent-next miners i pid before other j hj = elim (dec_lt j i) [
  | yes lt ↦ before j lt
  | no ge ↦ let e : j ≡ i = omega arith in rw e (λ same. grind (arith, other, same))
]

find_from_lem :
    (miners : List Miner) (k i n pid : ℕ)
    → i + k ≡ n
    → n < 256
    → IsAbsent miners i pid
    → IsFirst miners n pid (find_from miners k i pid)
      ⊎ (find_from miners k i pid ≡ 255) × IsAbsent miners n pid
unfolding find_from
find_from_lem miners zero i n pid e hn before = inr (refl, λ j hj. before j (omega arith))
find_from_lem miners (suc k) i n pid e hn before = elim (Bool-cases (pid_at miners i == pid)) [
  | inl found ↦
      rw found
        (inl (record { within = omega arith; here = (==_iff _ _).0 found; earlier = before }))
  | inr other ↦
      let w : u8 (i + 1) ≡ i + 1 = omega arith in
      rw (other, w)
        (find_from_lem miners k (i + 1) n pid (omega arith) hn
          (IsAbsent-next miners i pid before other))
]

-- For at most 255 miners `find_miner_index` returns the index of the first that has the pid, or 255
-- if none of them has it.
pub find_miner_index_lem :
    (miners : List Miner) (num_miners pid : ℕ)
    → num_miners < 256
    → IsFirst miners num_miners pid (find_miner_index miners num_miners pid)
      ⊎ (find_miner_index miners num_miners pid ≡ 255) × IsAbsent miners num_miners pid
unfolding find_miner_index
find_miner_index_lem miners n pid h =
    find_from_lem miners n 0 n pid (omega arith) h (λ j hj. absurd (omega arith))
