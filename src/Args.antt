-- ===== src/Args.antt =====
-- The command lines: `check_args` (Proyecto/srclib/miner.c), the start of `main` in
-- P1/Ejercicio13/mrush.c and in P2/voting.c. A string is the list of its character codes without
-- the final 0; `argv` is the list of the arguments, the program's name first.
pub mod Accept
pub mod Numerals
mod Tests
use soper.Common.{
  ℕ, ◌+◌, ◌-◌, ◌*◌, ◌%◌, List, [], ◌∷◌, Bool, true, false, ◌&&◌, ◌||◌, ltb, leb, ◌==◌,
  if◌then◌else◌, ℤ, pos, negsuc, sub_ℕ, ltb_ℤ, length, get_or,
}
use soper.Pow.{pow_limit}

abbrev pub is_space : ℕ → Bool
is_space c = c == 32 || leb 9 c && leb c 13

abbrev pub is_digit : ℕ → Bool
is_digit c = leb b'0' c && leb c b'9'

-- `atoi` of the C library: blanks, one sign, digits. Its result is defined for numbers that an
-- `int` holds; a longer one is the number itself here.
unfoldable pub digits_value : ℕ → List ℕ → ℕ
digits_value acc [] = acc
digits_value acc (c ∷ cs) =
    let rest = digits_value (acc * 10 + (c - b'0')) cs in if is_digit c then rest else acc

unfoldable pub signed_value : List ℕ → ℤ
unfolding digits_value
signed_value [] = pos 0
signed_value (c ∷ cs) =
    if c == b'-'
    then sub_ℕ 0 (digits_value 0 cs)
    else (if c == b'+' then pos (digits_value 0 cs) else pos (digits_value 0 (c ∷ cs)))

unfoldable pub atoi : List ℕ → ℤ
unfolding signed_value
atoi [] = pos 0
atoi (c ∷ cs) = let rest = atoi cs in if is_space c then rest else signed_value (c ∷ cs)

-- An `int` stored in a `uint8_t`.
unfoldable pub to_u8 : ℤ → ℕ
to_u8 (pos n) = n % 256
to_u8 (negsuc n) = 255 - n % 256

-- `check_args` exits on the first test that fails.
pub data Checked : Type 0 where
  accepted : (n_sec nthreads : ℕ) → Checked
  usage bad_seconds bad_threads : Checked

unfoldable pub check_args : List (List ℕ) → Checked
check_args argv =
    if length argv == 3
    then (let n_sec = to_u8 (atoi (get_or argv 1 [])) in
        let nthreads = to_u8 (atoi (get_or argv 2 [])) in
        if leb n_sec 0 || ltb 60 n_sec
        then bad_seconds
        else (if leb nthreads 0 || ltb 9 nthreads then bad_threads else accepted n_sec nthreads))
    else usage

-- The checks of mrush.c, on `int`s.
pub data Rush : Type 0 where
  run : (target rounds nthreads : ℤ) → Rush
  usage bad_target bad_rounds bad_threads : Rush

unfoldable pub check_rush : List (List ℕ) → Rush
check_rush argv =
    if length argv == 4
    then (let target = atoi (get_or argv 1 []) in
        let rounds = atoi (get_or argv 2 []) in
        let nthreads = atoi (get_or argv 3 []) in
        if ltb_ℤ target (pos 0) || ltb_ℤ (pos pow_limit) target
        then Rush.bad_target
        else (if ltb_ℤ (pos 0) rounds
            then (if ltb_ℤ (pos 0) nthreads then run target rounds nthreads else Rush.bad_threads)
            else Rush.bad_rounds))
    else Rush.usage
