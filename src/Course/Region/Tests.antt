-- ===== src/Course/Region/Tests.antt =====
-- The parent is in the region while the child waits.
use soper.Common.{◌≡◌, ◌≤◌, ◌+◌, refl}
use soper.Course.Region.{State, forked, inside, Reach, here, next, parent_takes}
use soper.Course.Region.Ends.{holds, excluded}

abbrev taken : (s : State) × Reach forked s
taken = (_, next here (parent_takes 0 refl refl))

taken_result : (taken.0.parent ≡ inside) × (taken.0.sem ≡ 0)
taken_result = (refl, refl)

taken_excluded : holds taken.0.child + holds taken.0.parent ≤ 1
taken_excluded = excluded taken.1
