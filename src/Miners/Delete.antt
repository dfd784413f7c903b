-- ===== src/Miners/Delete.antt =====
-- `delete_miner` against the removal of the first miner that has the pid.
use soper.Common.{
  ℕ, zero, suc, ◌+◌, ◌-◌, ◌<◌, ◌≤◌, ◌≡◌, List, [], ◌∷◌, ◌++◌, get_or, set, take, drop, length,
  arith, inl, inr, ◌==◌, if◌then◌else◌, refl, ap, u8, u8_dec, false, take-set, drop-set, drop-cons,
  length-set, append_assoc, ap₂, append-nil, ◌∙◌, subst, take-snoc,
}
use native.Mathlib.Nat.{add-zero}
use soper.Miners.{Miner, blank, find_miner_index, shift_from, delete_miner}
use soper.Miners.Find.{pid_at, IsFirst, IsAbsent, find_miner_index_lem}

-- The miners that count, out of the array.
abbrev pub active : List Miner → ℕ → List Miner
active miners num_miners = take num_miners miners

unfoldable pub remove_first : ℕ → List Miner → List Miner
remove_first pid [] = []
remove_first pid (m ∷ ms) = if m.pid == pid then ms else m ∷ remove_first pid ms

remove_first-active :
    (miners : List Miner) (n pid r : ℕ)
    → n ≤ length miners
    → IsFirst miners n pid r
    → remove_first pid (take n miners) ≡ take r miners ++ take (n - 1 - r) (drop (suc r) miners)
unfolding remove_first
remove_first-active [] n pid r h f = absurd (omega arith)
remove_first-active (m ∷ ms) zero pid r h f = absurd (omega arith)
remove_first-active (m ∷ ms) (suc n) pid zero h f = ground (arith, f.here)
remove_first-active (m ∷ ms) (suc n) pid (suc r) h f =
    rw differs (rw (remove_first-active ms n pid r (omega arith) tail) (rw count))
  where
    differs : (m.pid == pid) ≡ false
    differs = ground (arith, f.earlier 0)

    tail : IsFirst ms n pid r
    tail = record {
      within = omega (arith, f.within);
      here = f.here;
      earlier = λ j hj. f.earlier (suc j) (omega arith);
    }

    count : suc n - 1 - suc r ≡ n - 1 - r
    count = omega arith

shift_from_lem :
    (k i : ℕ) (miners : List Miner)
    → i + k < length miners
    → i + k < 256
    → take (i + k) (shift_from miners k i) ≡ take i miners ++ take k (drop (suc i) miners)
unfolding shift_from
shift_from_lem zero i miners h b = rw (add-zero, append-nil)
shift_from_lem (suc k) i miners h b =
    rw (next, wrap, total, drop-cons (suc i) miners blank (omega arith))
      (shift_from_lem k (suc i) (set miners i v) (omega (arith, length-set miners i v))
          (omega arith)
        ∙ ap₂ ◌++◌ (take-set i miners v (omega arith))
            (ap (take k) (drop-set (suc (suc i)) miners i v (omega arith)))
        ∙ append_assoc (take i miners) (v ∷ []) (take k (drop (suc (suc i)) miners)))
  where
    v : Miner
    v = get_or miners (suc i) blank

    next : i + 1 ≡ suc i
    next = omega arith

    wrap : u8 (suc i) ≡ suc i
    wrap = omega arith

    total : i + suc k ≡ suc i + k
    total = omega arith

delete_miner-first :
    (miners : List Miner) (n pid r : ℕ)
    → n ≤ length miners
    → n < 256
    → IsFirst miners n pid r
    → find_miner_index miners n pid ≡ r
    → let (miners', n') = delete_miner miners n pid in
      (active miners' n' ≡ remove_first pid (active miners n)) × (n' + 1 ≡ n)
unfolding delete_miner
delete_miner-first miners n pid r h hn f e =
    rw e (rw (remove_first-active miners n pid r h f, fewer) shifted, omega (arith, f.within))
  where
    fewer : u8_dec n ≡ n - 1
    fewer = omega (arith, f.within)

    shifted :
        take (n - 1) (shift_from miners (n - 1 - r) r)
        ≡ take r miners ++ take (n - 1 - r) (drop (suc r) miners)
    shifted =
        subst
          (λ (x : ℕ).
            take x (shift_from miners (n - 1 - r) r)
            ≡ take r miners ++ take (n - 1 - r) (drop (suc r) miners))
          (omega (arith, f.within))
          (shift_from_lem (n - 1 - r) r miners (omega (arith, f.within)) (omega (arith, f.within)))

-- Deleting a miner that is there: of the miners that count, the first with the pid is gone, the
-- others keep their order, and the count is one less. There are at most 255 miners, all inside the
-- array.
pub delete_miner-present :
    (miners : List Miner) (n pid i : ℕ)
    → n ≤ length miners
    → n < 256
    → i < n
    → pid_at miners i ≡ pid
    → let (miners', n') = delete_miner miners n pid in
      (active miners' n' ≡ remove_first pid (active miners n)) × (n' + 1 ≡ n)
delete_miner-present miners n pid i h hn hi e = elim (find_miner_index_lem miners n pid hn) [
  | inl first ↦ delete_miner-first miners n pid _ h hn first refl
  | inr missing ↦ absurd (missing.1 i hi e)
]

-- Deleting a pid that no miner has: the last miner that counts is lost all the same, since the
-- guard `index != -1` passes for every `uint8_t`. There are from 1 to 254 miners that count, all
-- inside the array.
pub delete_miner-absent :
    (miners : List Miner) (n pid : ℕ)
    → n < length miners
    → suc n < 256
    → IsAbsent miners (suc n) pid
    → let (miners', n') = delete_miner miners (suc n) pid in
      active miners' n' ++ (get_or miners n blank ∷ []) ≡ active miners (suc n)
unfolding delete_miner shift_from
delete_miner-absent miners n pid h hn gone = elim (find_miner_index_lem miners (suc n) pid hn) [
  | inl first ↦ absurd (gone _ first.within first.here)
  | inr missing ↦ rw (missing.0, none_left, fewer) (take-snoc n miners blank h)
]
  where
    fewer : u8_dec (suc n) ≡ n
    fewer = omega arith

    none_left : suc n - 1 - 255 ≡ 0
    none_left = omega arith
