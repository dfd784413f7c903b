-- ===== src/Course/Counter/Tests.antt =====
-- Two runs in a row, and two that meet.
use soper.Common.{◌≡◌, refl}
use soper.Course.Counter.{holds, ended, World, advance, truncated, turn, opened}

-- Run 0, then run 1.
abbrev in_a_row : World
in_a_row =
    turn
      (turn
        (turn
          (turn
            (turn (turn (turn (turn (turn (turn (turn (turn (turn opened 0) 0) 0) 0) 0) 0) 0) 1) 1)
            1)
          1)
        1)
      1

in_a_row_result :
    (in_a_row.content ≡ holds 2) × (in_a_row.pc 0 ≡ ended 1) × (in_a_row.pc 1 ≡ ended 2)
unfolding turn advance truncated
in_a_row_result = (refl, refl, refl)
