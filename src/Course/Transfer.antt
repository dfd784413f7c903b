-- ===== src/Course/Transfer.antt =====
-- The loop of P1/file_descriptors.c around `write` and that of P1/pipe_example.c around `read`. How
-- much a call transfers is an argument.
pub mod Whole
mod Tests
use soper.Common.{
  ℕ, zero, suc, ◌+◌, ◌==◌, min, List, [], ◌∷◌, ◌++◌, Option, none, some, length, take, drop, Bool,
  if◌then◌else◌,
}

-- How a loop ends, with what it has transferred.
pub data Outcome (A : Type 0) : Type 0 where
  done : A → Outcome A
  error : A → Outcome A
  blocked : A → Outcome A  -- the last call has not returned

-- `write` of what is left: -1, or a number of bytes, which is at most what it is asked for.
unfoldable pub write_all : List ℕ → List (Option ℕ) → List ℕ → Outcome (List ℕ)
write_all left [] file = blocked file
write_all left (none ∷ rs) file = error file
write_all left (some n ∷ rs) file =
    let k = min n (length left) in
    let rest = write_all (drop k left) rs (file ++ take k left) in
    if length (drop k left) == 0 then done (file ++ take k left) else rest

-- `read` with a buffer of 80 bytes from a pipe whose writer has closed its end: -1, or as many bytes
-- as are there, or fewer; 0 only if there are none. `n` is one less than the number.
abbrev pub read_size : ℕ → List ℕ → ℕ
read_size n [] = 0
read_size n (x ∷ xs) = min (min (n + 1) 80) (length (x ∷ xs))

unfoldable pub read_all : List ℕ → List (Option ℕ) → List (List ℕ) → Outcome (List (List ℕ))
read_all left [] pieces = blocked pieces
read_all left (none ∷ rs) pieces = error pieces
read_all left (some n ∷ rs) pieces =
    let k = read_size n left in
    let rest = read_all (drop k left) rs (pieces ++ (take k left ∷ [])) in
    if k == 0 then done pieces else rest
