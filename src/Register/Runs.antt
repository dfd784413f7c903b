-- ===== src/Register/Runs.antt =====
-- What the register writes for a sequence of reads.
use soper.Common.{ℕ, zero, suc, ◌≡◌, ◌≢◌, List, [], ◌∷◌, ◌++◌, map, replicate, refl}
use soper.Network.{Block}
use soper.Register.{Input, block, closed, failed, register_report, success, failure, register_loop}

-- Every block that is read before the pipe is closed is reported once, in order, and then the
-- register ends with success, whatever it had read before.
pub register-closed :
    (old : Block) (bs : List Block) (rest : List Input)
    → register_loop old (map block bs ++ closed ∷ rest) ≡ (map register_report bs, success)
unfolding register_loop
register-closed old [] rest = refl
register-closed old (b ∷ bs) rest = rw (register-closed b bs rest)

-- A read that fails is taken for a block: the register reports the block it read last once more for
-- each failure, and goes on.
pub register-failed :
    (old : Block) (n : ℕ) (bs : List Block) (rest : List Input)
    → register_loop old (replicate n failed ++ map block bs ++ closed ∷ rest)
      ≡ (replicate n (register_report old) ++ map register_report bs, success)
unfolding register_loop
register-failed old zero bs rest = register-closed old bs rest
register-failed old (suc n) bs rest = rw (register-failed old n bs rest)

-- The branch for a failed read is dead: no sequence of reads makes the register end with failure.
pub register-ne-failure : (old : Block) (xs : List Input) → (register_loop old xs).1 ≢ failure
unfolding register_loop
register-ne-failure old [] = λ e. cc
register-ne-failure old (block b ∷ xs) = register-ne-failure b xs
register-ne-failure old (closed ∷ xs) = λ e. cc
register-ne-failure old (failed ∷ xs) = register-ne-failure old xs
