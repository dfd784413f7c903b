-- ===== src/Setup/Miner.antt =====
-- The start of a miner's `main` up to its first round (Proyecto/launch/miner_launch.c).
pub mod First
mod Tests
use soper.Common.{ℕ, Bool, true, false, if◌then◌else◌}
use soper.Setup.{
  ready, failure, Left, Start, Calls, Entrance, first, joined, refused, failed, enter_system,
}

-- How the start ends: the miner exits, and the memory's name is there or not; or it comes to the
-- first round, which `first_miner_flag` tells it to begin.
pub data Begun : Type 0 where
  stopped : (name : Bool) → Begun
  begins : (first_miner_flag : Bool) → Begun

-- The calls of `sigaction`, behind the entry.
unfoldable pub install : Entrance → Bool → Begun
install (first (ready left)) sigactions = if sigactions then begins true else stopped left.name
install (first (failure left)) sigactions = stopped left.name
install joined sigactions = if sigactions then begins false else stopped true
install (refused name) sigactions = stopped name
install (failed name) sigactions = stopped name

-- What a start meets: whether its calls succeed, and the system as it finds it.
pub record Meets : Type 0 where
  pub pipe : Bool
  pub fork : Bool
  pub exists : Bool  -- the memory of the system
  pub num_miners : ℕ
  pub mapped : Bool
  pub calls : Calls
  pub sigactions : Bool  -- all four

-- A failure of `pipe` or `fork` leaves the memory as it is.
unfoldable pub start_miner : Meets → Begun
unfolding install
start_miner m =
    if m.pipe
    then (if m.fork
        then install (enter_system m.exists m.num_miners m.mapped m.calls) m.sigactions
        else stopped m.exists)
    else stopped m.exists
