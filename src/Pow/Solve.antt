-- ===== src/Pow/Solve.antt =====
-- The targets and the candidates below POW_LIMIT correspond one to one.
use soper.Common.{
  ℕ, ◌+◌, ◌*◌, ◌%◌, ◌<◌, ◌≡◌, arith, pos, eqb_ℤ, ◌==◌, ◌∙◌, ap, ==_iff, ==_self, sym, ◌↔◌, ◌^◌, ℤ,
  true,
}
use soper.Pow.{pow_limit, big_x, big_y, pow_hash}

-- The hash of a candidate that is not negative, as a number.
unfoldable pub hash : ℕ → ℕ
hash x = (x * big_x + big_y) % pow_limit

pub pow_hash-pos : (x : ℕ) → pow_hash (pos x) ≡ pos (hash x)
unfolding pow_hash hash
pow_hash-pos x = ground arith

pub hash-lt : (x : ℕ) → hash x < pow_limit
unfolding hash
hash-lt x = omega arith

-- The multiplier is a unit modulo POW_LIMIT: 1243652 is its inverse.
unfoldable pub preimage : ℕ → ℕ
preimage t = (t + 99993519) * 1243652 % pow_limit

pub preimage-lt : (t : ℕ) → preimage t < pow_limit
unfolding preimage
preimage-lt t = omega arith

pub hash-preimage : (t : ℕ) → t < pow_limit → hash (preimage t) ≡ t
unfolding hash preimage
hash-preimage t h = omega arith

pub hash-injective : (x y : ℕ) → x < pow_limit → y < pow_limit → hash x ≡ hash y → x ≡ y
unfolding hash
hash-injective x y hx hy e = omega arith

-- The test of the mining loops picks out one candidate.
pub eqb-pow_hash :
    (i t : ℕ) → i < pow_limit → t < pow_limit → eqb_ℤ (pow_hash (pos i)) (pos t) ≡ (i == preimage t)
eqb-pow_hash i t hi ht = rw pow_hash-pos (
    ground (
      arith,
      hash-preimage t ht,
      preimage-lt t,
      hash-injective i (preimage t) hi,
      ap hash {x = i} {y = preimage t},
    ))

eqb_ℤ-of_eq : (a : ℤ) (t : ℕ) → a ≡ pos t → eqb_ℤ a (pos t) ≡ true
eqb_ℤ-of_eq a t e = rw e (==_self t)

-- Every target below POW_LIMIT has exactly one candidate below POW_LIMIT: a candidate hashes to the
-- target exactly if it is `preimage` of the target, which is itself below POW_LIMIT.
pub pow_hash_iff :
    (t x : ℕ)
    → t < pow_limit
    → x < pow_limit
    → (preimage t < pow_limit) × ((pow_hash (pos x) ≡ pos t) ↔ (x ≡ preimage t))
pow_hash_iff t x ht hx = (
  preimage-lt t,
  (
    λ e.
        (==_iff x (preimage t)).0
          (sym (eqb-pow_hash x t hx ht) ∙ eqb_ℤ-of_eq (pow_hash (pos x)) t e),
    λ e. rw (e, pow_hash-pos, hash-preimage t ht),
  ),
)

-- For a candidate below POW_LIMIT no step of `pow_hash` overflows a 64-bit `long`, and the result is
-- a number below POW_LIMIT.
pub pow_hash_bounds :
    (x : ℕ)
    → x < pow_limit
    → (x * big_x + big_y < 2 ^ 63) × (pow_hash (pos x) ≡ pos (hash x)) × (hash x < pow_limit)
pow_hash_bounds x h = (omega arith, pow_hash-pos x, hash-lt x)
