-- ===== src/Course/Transfer/Tests.antt =====
-- The message of the two programs, cut in pieces.
use soper.Common.{ℕ, ◌≡◌, List, [], ◌∷◌, some, none, refl}
use soper.Course.Transfer.{done, error, write_all, read_all}

-- "Hello" with its terminator
abbrev hello : List ℕ
hello = b'H' ∷ b'e' ∷ b'l' ∷ b'l' ∷ b'o' ∷ 0 ∷ []

write_runs :
    (write_all hello (some 2 ∷ some 9 ∷ []) [] ≡ done hello)
    × (write_all hello (some 2 ∷ none ∷ []) [] ≡ error (b'H' ∷ b'e' ∷ []))
unfolding write_all
write_runs = (refl, refl)

read_run :
    read_all hello (some 3 ∷ some 9 ∷ some 0 ∷ []) []
    ≡ done ((b'H' ∷ b'e' ∷ b'l' ∷ b'l' ∷ []) ∷ (b'o' ∷ 0 ∷ []) ∷ [])
unfolding read_all
read_run = refl
