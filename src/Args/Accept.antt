-- ===== src/Args/Accept.antt =====
-- Which command lines are accepted.
use soper.Common.{
  ℕ, zero, suc, ◌+◌, ◌-◌, ◌*◌, ◌<◌, ◌≤◌, ◌≡◌, ◌↔◌, List, [], ◌∷◌, ℤ, pos, neg_part, pos_part, arith,
  length, get_or, refl, All, map, replicate, ◌++◌, sub_ℕ,
}
use soper.Pow.{pow_limit}
use soper.Args.{digits_value, atoi, to_u8, check_args, accepted, check_rush, run}

-- `check_args` accepts exactly two arguments whose values, cut to a `uint8_t`, lie from 1 to 60 and
-- from 1 to 9, and passes those on.
pub check_args_iff :
    (argv : List (List ℕ)) (s t : ℕ)
    → (check_args argv ≡ accepted s t) ↔ (
        (length argv ≡ 3)
        × (s ≡ to_u8 (atoi (get_or argv 1 [])))
        × (t ≡ to_u8 (atoi (get_or argv 2 [])))
        × (0 < s)
        × (s ≤ 60)
        × (0 < t)
        × (t ≤ 9))
unfolding check_args
check_args_iff argv s t = (λ e. ground arith, λ h. ground arith)

-- The cut comes before the test of the range: numbers of seconds and of threads that are far out of
-- range are accepted when their rests modulo 256 are in range, and the miner runs on those rests.
pub check_args_wraps :
    (prog a b : List ℕ) (s t k l : ℕ)
    → atoi a ≡ pos (k * 256 + s)
    → atoi b ≡ pos (l * 256 + t)
    → 0 < s
    → s ≤ 60
    → 0 < t
    → t ≤ 9
    → check_args (prog ∷ a ∷ b ∷ []) ≡ accepted s t
unfolding check_args to_u8
check_args_wraps prog a b s t k l ea eb s0 s60 t0 t9 = rw (ea, eb) (ground arith)

-- mrush.c runs exactly on three arguments, of which the first is from 0 to POW_LIMIT and the others
-- are positive, and passes their values on.
pub check_rush_iff :
    (argv : List (List ℕ)) (target rounds nthreads : ℤ)
    → (check_rush argv ≡ run target rounds nthreads) ↔ (
        (length argv ≡ 4)
        × (target ≡ atoi (get_or argv 1 []))
        × (rounds ≡ atoi (get_or argv 2 []))
        × (nthreads ≡ atoi (get_or argv 3 []))
        × (neg_part target ≡ 0)
        × (pos_part target ≤ pow_limit)
        × (neg_part rounds ≡ 0)
        × (0 < pos_part rounds)
        × (neg_part nthreads ≡ 0)
        × (0 < pos_part nthreads))
unfolding check_rush
check_rush_iff argv target rounds nthreads = (λ e. ground arith, λ h. ground arith)

-- The value of decimal digits, the first one highest.
unfoldable pub horner : ℕ → List ℕ → ℕ
horner acc [] = acc
horner acc (d ∷ ds) = horner (acc * 10 + d) ds

digits_value-horner :
    (acc : ℕ) (ds : List ℕ)
    → All (λ d. d < 10) ds
    → digits_value acc (map (λ d. d + b'0') ds) ≡ horner acc ds
unfolding digits_value horner
digits_value-horner acc [] h = refl
digits_value-horner acc (d ∷ ds) h =
    let e : d + b'0' - b'0' ≡ d = omega arith in
    ground (arith, digits_value-horner (acc * 10 + d) ds h.1, e)

-- `atoi` reads a decimal numeral, after blanks and with or without a minus, as its value.
pub atoi-decimal :
    (blanks : ℕ) (d : ℕ) (ds : List ℕ)
    → d < 10
    → All (λ d. d < 10) ds
    → (atoi (replicate blanks b' ' ++ map (λ d. d + b'0') (d ∷ ds)) ≡ pos (horner 0 (d ∷ ds)))
      × (atoi (replicate blanks b' ' ++ b'-' ∷ map (λ d. d + b'0') (d ∷ ds))
          ≡ sub_ℕ 0 (horner 0 (d ∷ ds)))
unfolding atoi
atoi-decimal zero d ds h hs =
    (ground (arith, digits_value-horner 0 (d ∷ ds)), ground (arith, digits_value-horner 0 (d ∷ ds)))
atoi-decimal (suc n) d ds h hs = atoi-decimal n d ds h hs
