-- ===== src/Codificacion/Tests.antt =====
-- Runs of the checker and the monitor, and the theorems of this part at concrete inputs.
use soper.Common.{to_int, ◌≡◌, [], ◌∷◌, pos, negsuc, true, false, refl}
use soper.Pow.{pow_hash}
use soper.Codificacion.{Block, check, comprobador, comprobador_end, monitor, accepted, rejected}

abbrev raw : Block
raw = record { target = pos 0; solution = pos 0; flag = 0; end = 0 }

abbrev good : Block
good = record { target = pos 0; solution = pos 4150; flag = 0; end = 0 }

-- A block that does not hash to its solution is rejected; the marked block is not printed.
monitor_runs :
    monitor (comprobador 0 (good ∷ raw ∷ record good { end = 1 } ∷ []))
    ≡ (accepted (pos 4150) (pos 0) ∷ rejected (pos 0) (pos 0) ∷ [], true)
unfolding monitor comprobador check pow_hash to_int
monitor_runs = refl

comprobador_end_runs :
    (comprobador_end 1 6 ≡ (pos 1, 7, true)) × (comprobador_end 0 6 ≡ (negsuc 0, 8, false))
unfolding comprobador_end
comprobador_end_runs = (refl, refl)
