-- ===== src/Pow.antt =====
-- The proof-of-work hash: Proyecto/srclib/pow.c and its copies P1/Ejercicio13/pow.c and
-- P3/Codificacion/pow.c.
pub mod Solve
mod Tests
use soper.Common.{ℕ, ◌+◌, ◌*◌, ◌%◌, ◌<◌, ◌^◌, ◌≡◌, arith, ℤ, pos, negsuc, ◌+ℤ◌, ◌*ℤ◌, rem_ℤ}

-- POW_LIMIT, and PRIME in pow.c
abbrev pub pow_limit : ℕ
pow_limit = 99997669

abbrev pub big_x : ℕ
big_x = 435679812

abbrev pub big_y : ℕ
big_y = 100001819

-- `long int pow_hash(long int x)`, without the bounds of `long`.
unfoldable pub pow_hash : ℤ → ℤ
unfolding ◌+ℤ◌ ◌*ℤ◌ rem_ℤ
pow_hash x = rem_ℤ (x *ℤ pos big_x +ℤ pos big_y) pow_limit
