-- ===== src/Clock/Hybrid.antt =====
-- The expiry rule of `HybridTimestamp`, judged by a running `SystemHybridClock`.
use homebase.Prelude.{
  ℕ, ◌≤◌, ◌≡◌, refl, sym, ◌∙◌, true, List, [], ◌∷◌, min, arith, ◌==◌, nat_ord, list_ord, Bool-cases,
  inl, inr,
}
use homebase.Clock.{
  Duration, u64_max, millis_since, HybridTimestamp, expired, SystemHybridClock, system_stamp,
  wall_now,
}
use homebase.Clock.Wall.{IsWallClock, wall_now-IsWallClock, wall_now-le, wall_now-last}

-- Once a deadline has passed at a stamp, it has passed at every stamp of the same lineage whose
-- two rulers are not behind.
pub expired_mono :
    (deadline now later : HybridTimestamp) (margin : Duration)
    → later.lineage ≡ now.lineage
    → now.mono ≤ later.mono
    → now.wall ≤ later.wall
    → expired deadline now margin ≡ true
    → expired deadline later margin ≡ true
unfolding expired
expired_mono deadline now later margin e m w h =
    elim (Bool-cases (deadline.lineage == now.lineage)) [
      | inl s ↦ rw (e, s) (ground (arith, rw s at h))
      | inr s ↦ rw (e, s) (ground (arith, rw s at h))
    ]

-- The clock after a run of stamps; a sample is an instant and a system time for the wall ruler,
-- and the instant at which the monotonic ruler is read.
pub after : SystemHybridClock → List (ℕ × ℕ × ℕ) → SystemHybridClock
after c [] = c
after c ((at, since_epoch, mono_at) ∷ samples) =
    after (system_stamp c at since_epoch mono_at).0 samples

abbrev Keeps : SystemHybridClock → SystemHybridClock → Type 0
Keeps c d =
    (d.lineage ≡ c.lineage)
    × (d.origin ≡ c.origin)
    × (c.wall.last ≤ d.wall.last)
    × IsWallClock d.wall

system_stamp_lem :
    (c : SystemHybridClock) (at since_epoch mono_at : ℕ)
    → IsWallClock c.wall
    → let (d, stamp) = system_stamp c at since_epoch mono_at in
      Keeps c d
      × (stamp.lineage ≡ c.lineage)
      × (stamp.wall ≡ d.wall.last)
      × (stamp.mono ≡ min (millis_since mono_at c.origin) u64_max)
unfolding system_stamp wall_now
system_stamp_lem c at since_epoch mono_at v = (
  (refl, refl, wall_now-le c.wall at since_epoch v, wall_now-IsWallClock c.wall at since_epoch v),
  refl,
  wall_now-last c.wall at since_epoch,
  refl,
)

after-Keeps :
    (c : SystemHybridClock) (samples : List (ℕ × ℕ × ℕ))
    → IsWallClock c.wall
    → Keeps c (after c samples)
unfolding after
after-Keeps c [] v = (refl, refl, omega arith, v)
after-Keeps c ((at, since_epoch, mono_at) ∷ samples) v =
    let (l, o, w, i) = (system_stamp_lem c at since_epoch mono_at v).0 in
    let (l', o', w', i') = after-Keeps (system_stamp c at since_epoch mono_at).0 samples i in
    (l' ∙ l, o' ∙ o, omega arith, i')

-- A deadline that one stamp of a clock, whose wall state fits 64 bits, found passed is found
-- passed by every later stamp of that clock, however many stamps lie between and however the
-- system time jumps, as long as the monotonic ruler is read no earlier.
pub expired_forever :
    (c : SystemHybridClock) (at since_epoch mono_at : ℕ) (samples : List (ℕ × ℕ × ℕ))
    (at' since_epoch' mono_at' : ℕ) (deadline : HybridTimestamp) (margin : Duration)
    → IsWallClock c.wall
    → mono_at ≤ mono_at'
    → expired deadline (system_stamp c at since_epoch mono_at).1 margin ≡ true
    → expired deadline
        (system_stamp
          (after (system_stamp c at since_epoch mono_at).0 samples)
          at'
          since_epoch'
          mono_at').1
        margin
      ≡ true
expired_forever c at since_epoch mono_at samples at' since_epoch' mono_at' deadline margin v m h =
    let (d, stamp) = system_stamp c at since_epoch mono_at in
    let ((l, o, w, i), sl, sw, sm) = system_stamp_lem c at since_epoch mono_at v in
    let (l', o', w', i') = after-Keeps d samples i in
    let ((l'', o'', w'', i''), tl, tw, tm) =
      system_stamp_lem (after d samples) at' since_epoch' mono_at' i' in
    expired_mono deadline stamp (system_stamp (after d samples) at' since_epoch' mono_at').1 margin
      (tl ∙ l' ∙ l ∙ sym sl) (omega arith) (omega arith) h
