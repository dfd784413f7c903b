-- ===== src/Monitor/Shutdown/Printing.antt =====
-- What `monitor` (Proyecto/launch/monitor_launch.c) prints is what it prints of the blocks it has shown.
use soper.Common.{ℕ, ◌≡◌, List, [], ◌∷◌, ◌++◌, refl, ap, sym}
use soper.Network.{Block}
use soper.Monitor.{monitor_loop, monitor_report}
use soper.Monitor.Shutdown.{World, Step, Reach, begin, next, print}

-- `num_miners` of the monitor after some blocks.
miners_after : ℕ → List Block → ℕ
miners_after n [] = n
miners_after n (b ∷ bs) = miners_after (monitor_report n b).1 bs

monitor_loop-snoc :
    (n : ℕ) (bs : List Block) (b : Block)
    → monitor_loop n (bs ++ (b ∷ []))
      ≡ monitor_loop n bs ++ ((monitor_report (miners_after n bs) b).0 ∷ [])
unfolding monitor_loop miners_after
monitor_loop-snoc n [] b = refl
monitor_loop-snoc n (c ∷ bs) b =
    ap (λ l. (monitor_report n c).0 ∷ l) (monitor_loop-snoc (monitor_report n c).1 bs b)

miners_after-snoc :
    (n : ℕ) (bs : List Block) (b : Block)
    → miners_after n (bs ++ (b ∷ [])) ≡ (monitor_report (miners_after n bs) b).1
unfolding miners_after
miners_after-snoc n [] b = refl
miners_after-snoc n (c ∷ bs) b = miners_after-snoc (monitor_report n c).1 bs b

record Printed (s : World) : Type 0 where
  printed : s.printed ≡ monitor_loop 0 s.shown
  num_miners : s.num_miners ≡ miners_after 0 s.shown

Step-Printed : {s t : World} → Step s t → Printed s → Printed t
Step-Printed {s} (print b at) p = record {
  printed = rw (p.printed, p.num_miners) (sym (monitor_loop-snoc 0 s.shown b));
  num_miners = rw p.num_miners (sym (miners_after-snoc 0 s.shown b));
}
Step-Printed _ p = record { printed = p.printed; num_miners = p.num_miners }

Reach-Printed : {blocks : List Block} {s : World} → Reach blocks s → Printed s
unfolding monitor_loop miners_after
Reach-Printed begin = record { printed = refl; num_miners = refl }
Reach-Printed (next r st) = Step-Printed st (Reach-Printed r)

pub Reach-printed :
    {blocks : List Block} {s : World} → Reach blocks s → s.printed ≡ monitor_loop 0 s.shown
Reach-printed r = (Reach-Printed r).printed
