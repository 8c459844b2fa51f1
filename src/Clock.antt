-- ===== src/Clock.antt =====
-- core/src/clock.rs: millisecond time. A timestamp is its `u64`; a duration is its number of
-- whole milliseconds, a `u128` in Rust. The instants and the system time that the clocks sample
-- are arguments; an instant keeps its nanoseconds, so that what elapses is truncated as in the code. `Mutex` and atomics are plain fields, since every method runs under the lock.
pub mod Wall
pub mod Hybrid
pub mod Examples
use homebase.Prelude.{
  ℕ, ◌+◌, ◌-◌, ◌/◌, ◌%◌, ◌≡◌, Bool, true, false, List, min, max, leb, ltb, ◌==◌, ◌||◌,
  if◌then◌else◌, nat_ord, list_ord, replicate,
}
use homebase.Prelude.Bytes.{Bytes}

abbrev pub u64_max : ℕ
u64_max = 18446744073709551615

abbrev pub Timestamp : Type 0
Timestamp = ℕ

-- A `Duration`, as `as_millis()` reads it.
abbrev pub Duration : Type 0
Duration = ℕ

-- `d.as_millis().min(u64::MAX as u128) as u64`
abbrev pub clamp_millis : Duration → ℕ
clamp_millis d = min d u64_max

-- `Timestamp::saturating_add`
abbrev pub saturating_add : Timestamp → Duration → Timestamp
saturating_add t d = min (t + clamp_millis d) u64_max

-- `duration_since` of two instants, in nanoseconds, as `as_millis()` truncates it. An earlier
-- instant is at no distance.
abbrev pub millis_since : ℕ → ℕ → Duration
millis_since at earlier = (at - earlier) / 1000000

-- `MonotonicClock::now`, given what has elapsed since its origin.
abbrev pub monotonic_now : Duration → Timestamp
monotonic_now elapsed = clamp_millis elapsed

-- `WallClock` with its state: `at` is the monotonic instant of the last reading.
pub record WallClock : Type 0 where
  pub slop_ms : ℕ
  pub last : Timestamp
  pub at : ℕ
  pub poisoned : Bool

unfoldable pub default_slop : Duration
default_slop = 1000

-- `WallClock::with_slop`, sampling the system time `wall` at the instant `at`.
unfoldable pub with_slop : Duration → ℕ → ℕ → WallClock
with_slop slop wall at = record {
  slop_ms = clamp_millis slop;
  last = clamp_millis wall;
  at = at;
  poisoned = false;
}

-- `WallClock::now`. What is truncated of one reading is lost to the next, which counts from `at`.
unfoldable pub wall_now : WallClock → ℕ → ℕ → WallClock × Timestamp
wall_now c at since_epoch =
    let wall = clamp_millis since_epoch in
    let elapsed = clamp_millis (millis_since at c.at) in
    let floor = min (c.last + elapsed) u64_max in
    let reading = max wall floor in
    (
      record c {
        poisoned = if ltb (min (wall + c.slop_ms) u64_max) floor then true else c.poisoned;
        last = reading;
        at = at;
      },
      reading,
    )

abbrev pub Lineage : Type 0
Lineage = Bytes

abbrev pub lineage_none : Lineage
lineage_none = replicate 16 0

pub record HybridTimestamp : Type 0 where
  pub wall : Timestamp
  pub mono : Timestamp
  pub lineage : Lineage

abbrev pub hybrid_zero : HybridTimestamp
hybrid_zero = record { wall = 0; mono = 0; lineage = lineage_none }

-- `HybridTimestamp::saturating_add`
unfoldable pub hybrid_add : HybridTimestamp → Duration → HybridTimestamp
hybrid_add t d = record {
  wall = saturating_add t.wall d;
  mono = saturating_add t.mono d;
  lineage = t.lineage;
}

-- `deadline.expired(now, margin)`
unfoldable pub expired : HybridTimestamp → HybridTimestamp → Duration → Bool
expired deadline now margin =
    if deadline.lineage == now.lineage
    then leb deadline.mono now.mono || leb deadline.wall now.wall
    else leb deadline.wall (saturating_add now.wall margin)

-- `ManualClock`: the atomics wrap around on `fetch_add`.
pub record ManualClock : Type 0 where
  pub now_ms : ℕ
  pub wall_skew_ms : ℕ
  pub lineage : Lineage

unfoldable pub manual_new : Timestamp → ManualClock
manual_new start = record { now_ms = start; wall_skew_ms = 0; lineage = replicate 16 1 }

unfoldable pub advance : ManualClock → Duration → ManualClock
advance c by = record c { now_ms = (c.now_ms + clamp_millis by) % (u64_max + 1) }

unfoldable pub set_now : ManualClock → Timestamp → ManualClock
set_now c to = record c { now_ms = to }

unfoldable pub skew_wall : ManualClock → Duration → ManualClock
skew_wall c by = record c { wall_skew_ms = (c.wall_skew_ms + clamp_millis by) % (u64_max + 1) }

unfoldable pub set_lineage : ManualClock → Lineage → ManualClock
set_lineage c lineage = record c { lineage = lineage }

unfoldable pub manual_stamp : ManualClock → HybridTimestamp
manual_stamp c = record {
  wall = min (c.now_ms + c.wall_skew_ms) u64_max;
  mono = c.now_ms;
  lineage = c.lineage;
}

-- `SystemHybridClock`: the origin of its monotonic ruler, and the wall clock.
pub record SystemHybridClock : Type 0 where
  pub lineage : Lineage
  pub origin : ℕ
  pub wall : WallClock

-- `SystemHybridClock::stamp` samples the wall clock, then the monotonic ruler.
unfoldable pub system_stamp : SystemHybridClock → ℕ → ℕ → ℕ → SystemHybridClock × HybridTimestamp
unfolding wall_now
system_stamp c at since_epoch mono_at =
    let (wall, reading) = wall_now c.wall at since_epoch in
    (
      record c { wall = wall },
      record {
        wall = reading;
        mono = monotonic_now (millis_since mono_at c.origin);
        lineage = c.lineage;
      },
    )
