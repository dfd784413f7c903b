-- ===== src/Common/Words.antt =====
-- C's unsigned and 16-bit arithmetic, written out.
use Prim.Native.Nat.{ℕ, ◌+◌, ◌%◌}

-- A value stored in a `uint8_t`.
abbrev pub u8 : ℕ → ℕ
u8 n = n % 256

-- `x--` of a `uint8_t`: -1 is +255 modulo 256.
abbrev pub u8_dec : ℕ → ℕ
u8_dec n = (n + 255) % 256

-- A `short` is its 16-bit pattern: -1 is 65535.
abbrev pub i16 : ℕ → ℕ
i16 n = n % 65536
