-- ===== src/Clock/Examples.antt =====
-- Clocks on concrete samples: the system time jumps back from 1000 to 400 milliseconds.
use homebase.Prelude.{◌≡◌, refl, true, false, [], ◌∷◌, arith, nat_ord, list_ord}
use homebase.Clock.{
  WallClock, wall_now, HybridTimestamp, lineage_none, expired, SystemHybridClock, system_stamp,
}
use homebase.Clock.Wall.{IsWallClock, Ascending, readings, readings-Ascending}
use homebase.Clock.Hybrid.{after, expired_forever}

abbrev clock : WallClock
clock = record { slop_ms = 300; last = 1000; at = 50000000; poisoned = false }

clock-IsWallClock : IsWallClock clock
clock-IsWallClock = record { last_fits = omega arith; slop_fits = omega arith }

readings-Ascending_example :
    Ascending clock.last (readings clock ((60000000, 400) ∷ (70000000, 1500) ∷ (65000000, 0) ∷ []))
readings-Ascending_example =
    readings-Ascending clock ((60000000, 400) ∷ (70000000, 1500) ∷ (65000000, 0) ∷ [])
      clock-IsWallClock

abbrev deadline : HybridTimestamp
deadline = record { wall = 900; mono = 30; lineage = lineage_none }

abbrev hybrid : SystemHybridClock
hybrid = record { wall = clock; origin = 20000000; lineage = 1 ∷ [] }

expired_forever_example :
    expired deadline
      (system_stamp
        (after (system_stamp hybrid 60000000 400 61000000).0 ((70000000, 0, 71000000) ∷ []))
        80000000
        1200
        81000000).1
      10
    ≡ true
unfolding expired system_stamp wall_now
expired_forever_example =
    expired_forever hybrid 60000000 400 61000000 ((70000000, 0, 71000000) ∷ []) 80000000 1200
      81000000 deadline 10 clock-IsWallClock (omega arith) refl
