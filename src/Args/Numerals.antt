-- ===== src/Args/Numerals.antt =====
-- `check_args` (Proyecto/srclib/miner.c) reads back the numbers that are written on its command line.
use soper.Common.{
  ℕ, ◌+◌, ◌/◌, ◌%◌, ◌<◌, ◌≤◌, ◌≡◌, ◌∙◌, List, [], ◌∷◌, pos, arith, refl, map, ltb, dec_lt,
  if◌then◌else◌, sym, ap,
}
use soper.Args.{atoi, to_u8, check_args, accepted}
use soper.Args.Accept.{check_args_iff, horner, atoi-decimal}

-- The decimal digits of a number below 100, and its numeral.
abbrev pub digits : ℕ → List ℕ
digits n = if ltb n 10 then n ∷ [] else n / 10 ∷ n % 10 ∷ []

abbrev pub numeral : ℕ → List ℕ
numeral n = map (λ d. d + b'0') (digits n)

digits-one : (n : ℕ) → n < 10 → digits n ≡ n ∷ []
digits-one n lt = ground arith

digits-two : (n : ℕ) → 10 ≤ n → digits n ≡ n / 10 ∷ n % 10 ∷ []
digits-two n ge = ground arith

abbrev written : List ℕ → List ℕ
written ds = map (λ d. d + b'0') ds

atoi-numeral : (n : ℕ) → n < 100 → atoi (numeral n) ≡ pos n
unfolding horner
atoi-numeral n h = elim (dec_lt n 10) [
  | yes lt ↦
      ap (λ ds. atoi (written ds)) (digits-one n lt)
      ∙ (atoi-decimal 0 n [] lt tt).0
      ∙ ap pos (omega arith)
  | no ge ↦
      ap (λ ds. atoi (written ds)) (digits-two n (omega arith))
      ∙ (atoi-decimal 0 (n / 10) (n % 10 ∷ []) (omega arith) (omega arith, tt)).0
      ∙ ap pos (omega arith)
]

to_u8-small : (n : ℕ) → n < 100 → to_u8 (atoi (numeral n)) ≡ n
unfolding to_u8
to_u8-small n h = rw (atoi-numeral n h) (omega arith)

-- Seconds from 1 to 60 and threads from 1 to 9, written in decimal, are accepted and read back as
-- they are.
pub check_args-numeral :
    (prog : List ℕ) (s t : ℕ)
    → 0 < s
    → s ≤ 60
    → 0 < t
    → t ≤ 9
    → check_args (prog ∷ numeral s ∷ numeral t ∷ []) ≡ accepted s t
check_args-numeral prog s t s0 s60 t0 t9 =
    (check_args_iff (prog ∷ numeral s ∷ numeral t ∷ []) s t).1
      (refl, sym (to_u8-small s (omega arith)), sym (to_u8-small t (omega arith)), s0, s60, t0, t9)
