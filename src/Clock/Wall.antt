-- ===== src/Clock/Wall.antt =====
-- `WallClock` (core/src/clock.rs) under jumps of the system time.
use homebase.Prelude.{ℕ, refl, ◌≤◌, ◌≡◌, List, [], ◌∷◌, arith}
use homebase.Clock.{WallClock, Timestamp, u64_max, wall_now}

-- The last reading and the slop are `u64`s.
pub record IsWallClock (c : WallClock) : Type 0 where
  pub last_fits : c.last ≤ u64_max
  pub slop_fits : c.slop_ms ≤ u64_max

pub wall_now-IsWallClock :
    (c : WallClock) (at since_epoch : ℕ) → IsWallClock c → IsWallClock (wall_now c at since_epoch).0
unfolding wall_now
wall_now-IsWallClock c at since_epoch v = omega arith

-- A reading is kept as the next floor.
pub wall_now-last :
    (c : WallClock) (at since_epoch : ℕ)
    → (wall_now c at since_epoch).1 ≡ (wall_now c at since_epoch).0.last
unfolding wall_now
wall_now-last c at since_epoch = refl

-- The readings of a run of samples, each an instant and a system time.
pub readings : WallClock → List (ℕ × ℕ) → List Timestamp
readings c [] = []
readings c ((at, since_epoch) ∷ samples) =
    let (c', reading) = wall_now c at since_epoch in reading ∷ readings c' samples

abbrev pub Ascending : ℕ → List ℕ → Type 0
Ascending lo [] = Unit {0}
Ascending lo (x ∷ xs) = (lo ≤ x) × Ascending x xs

pub wall_now-le :
    (c : WallClock) (at since_epoch : ℕ) → IsWallClock c → c.last ≤ (wall_now c at since_epoch).1
unfolding wall_now
wall_now-le c at since_epoch v = omega arith

-- However the system time jumps, and whatever the instants are, successive readings of one clock
-- whose state fits 64 bits never go backward, from its last reading on.
pub readings-Ascending :
    (c : WallClock) (samples : List (ℕ × ℕ)) → IsWallClock c → Ascending c.last (readings c samples)
unfolding readings wall_now
readings-Ascending c [] v = tt
readings-Ascending c ((at, since_epoch) ∷ samples) v = (
  wall_now-le c at since_epoch v,
  readings-Ascending (wall_now c at since_epoch).0 samples
      (wall_now-IsWallClock c at since_epoch v),
)
