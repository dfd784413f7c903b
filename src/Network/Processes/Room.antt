-- ===== src/Network/Processes/Room.antt =====
-- How many miners get into the system of Proyecto/launch/miner_launch.c.
use soper.Common.{
  ℕ, ◌+◌, ◌≡◌, ◌≢◌, length, get_or, set, get_or-set_ne, get_or-set_self, refl, sym, ◌∙◌, ap, u8,
  arith,
}
use soper.Miners.{Miner, blank, max_miners}
use soper.Network.{System, register_miner}
use soper.Network.Processes.{
  outside, admitted, suspending, World, Reach, here, next, admit, register,
}
use soper.Network.Processes.Waits.{Reach-trans}
use soper.Network.Processes.Moves.{At, Moves, At-update, At-other}

admits :
    (w : World) (i : ℕ) (m : Miner)
    → At w i outside m
    → w.system.num_miners ≢ max_miners
    → (v : World) × Moves w v i admitted m × (v.system ≡ w.system)
admits w i m a room = (
  _,
  record {
    reach = next here (admit i a.phase room);
    moved = At-update _ w.process i _ admitted m refl refl a.miner;
    rest = λ j q m' ne r b. At-other _ w.process i _ j q m' refl ne b.phase b.miner;
  },
  refl,
)

registers :
    (w : World) (i : ℕ) (m : Miner)
    → At w i admitted m
    → (v : World) × Moves w v i suspending m × (v.system ≡ register_miner m w.system)
registers w i m a = (
  _,
  record {
    reach = next here (register i a.phase);
    moved = At-update _ w.process i _ suspending m refl refl a.miner;
    rest = λ j q m' ne r b. At-other _ w.process i _ j q m' refl ne b.phase b.miner;
  },
  ap (λ k. register_miner k w.system) a.miner,
)

last_place :
    (m : Miner) (s : System)
    → s.num_miners + 1 ≡ max_miners
    → (register_miner m s).num_miners ≡ s.num_miners + 1
unfolding register_miner
last_place m s room = ground (arith, room)

over_the_end :
    (m : Miner) (s : System)
    → s.num_miners ≡ max_miners
    → (register_miner m s).num_miners ≡ u8 (u8 m.pid + 1)
unfolding register_miner
over_the_end m s full = ground (arith, full)

-- The second of two miners that register for the last place.
register_two :
    (mi mj : Miner) (s : System)
    → length s.miners ≡ max_miners
    → s.num_miners + 1 ≡ max_miners
    → let t = register_miner mj (register_miner mi s) in
      (get_or t.miners s.num_miners blank ≡ mi) × (t.num_miners ≡ u8 (u8 mj.pid + 1))
unfolding register_miner
register_two mi mj s full room =
    let first = last_place mi s room in
    (
      get_or-set_ne (set s.miners s.num_miners mi) (register_miner mi s).num_miners s.num_miners mj
            blank (λ e. omega (arith, e, first))
          ∙ get_or-set_self s.miners s.num_miners mi blank (omega (arith, full, room)),
      over_the_end mj (register_miner mi s) (first ∙ room),
    )

-- `num_miners` is compared with MAX_MINERS outside of the mutex: from every world with one place
-- left and two newcomers, a world can be reached in which both have registered. The first has the
-- last place of the array. The second was written behind it, which is onto `num_miners`: this is the
-- low byte of its pid then, and one more by the increment.
pub overfull :
    (w : World) (i j : ℕ) (mi mj : Miner)
    → i ≢ j
    → At w i outside mi
    → At w j outside mj
    → length w.system.miners ≡ max_miners
    → w.system.num_miners + 1 ≡ max_miners
    → (v : World) × Reach w v
      × ((v.process i).phase ≡ suspending)
      × ((v.process j).phase ≡ suspending)
      × (get_or v.system.miners w.system.num_miners blank ≡ mi)
      × (v.system.num_miners ≡ u8 (u8 mj.pid + 1))
overfull w i j mi mj ne ai aj full room =
    let (w1, f1, s1) = admits w i mi ai (ground (arith, room)) in
    let (w2, f2, s2) =
      admits w1 j mj (f1.rest j outside mj ne refl aj) (ground (arith, room, s1)) in
    let (w3, f3, s3) = registers w2 i mi (f2.rest i admitted mi (λ e. ne (sym e)) refl f1.moved) in
    let (w4, f4, s4) = registers w3 j mj (f3.rest j admitted mj ne refl f2.moved) in
    let both : w4.system ≡ register_miner mj (register_miner mi w.system) =
      s4 ∙ ap (register_miner mj) (s3 ∙ ap (register_miner mi) (s2 ∙ s1)) in
    let facts = register_two mi mj w.system full room in
    (
      w4,
      Reach-trans (Reach-trans f1.reach f2.reach) (Reach-trans f3.reach f4.reach),
      (f4.rest i suspending mi (λ e. ne (sym e)) refl f3.moved).phase,
      f4.moved.phase,
      ap (λ s. get_or s.miners w.system.num_miners blank) both ∙ facts.0,
      ap (λ s. s.num_miners) both ∙ facts.1,
    )
