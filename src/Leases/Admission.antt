-- ===== src/Leases/Admission.antt =====
-- The reservation check of admission, against what the leases promise.
use homebase.Prelude.{
  ◌≡◌, refl, sym, ap, ◌∙◌, Bool, true, false, List, [], ◌∷◌, ==_iff, eq_of_==, nat_ord, list_ord,
  Option, none, some, Result, ok, err, starts_with, All, arith, Bool-cases, inl, inr, ◌⊎◌, ◌↔◌,
}
use homebase.Prelude.Bytes.{IsByte}
use homebase.Key.{Key, IsKey}
use homebase.Range.{Range, full, prefix, overlaps, covers_range}
use homebase.Clock.{Timestamp}
use homebase.Tag.{DeviceId}
use homebase.Lease.{LeaseId}
use homebase.Messages.{KernelError, contended, range_contended}
use homebase.Schema.{SpaceId}
use homebase.Schema.LeaseRecord.{LeaseRecord, is_live}
use homebase.Storage.{MemoryStore}
use homebase.Leases.Table.{IsTable, Held}
use homebase.Leases.Scan.{Overlapping, overlapping_lem}
use homebase.Leases.Scan.Covering.{covering_lem, all_live_lem}
use homebase.Leases.Verbs.{any_foreign, validate_keys, range_live, validate_ranges, validate_writes}

Own : DeviceId → LeaseRecord → Type 0
Own device r = r.device ≡ device

any_foreign_iff :
    (device : DeviceId) (recs : List LeaseRecord)
    → (any_foreign device recs ≡ false) ↔ All (Own device) recs
unfolding Own
any_foreign_iff device [] = (λ h. tt, λ h. refl)
any_foreign_iff device (r ∷ recs) = (
  λ h. (
    eq_of_== r.device device (ground (arith, h)),
    (any_foreign_iff device recs).0 (ground (arith, h)),
  ),
  λ (e, hs). rw ((==_iff r.device device).1 e, (any_foreign_iff device recs).1 hs) refl,
)

-- The key is well-formed and made of bytes.
abbrev pub IsByteKey : Key → Type 0
IsByteKey key = IsKey key × All (All IsByte) key

abbrev pub IsByteRange : Range → Type 0
IsByteRange full = Unit
IsByteRange (prefix p) = IsByteKey p

module _ (space : SpaceId) (store : MemoryStore) (now : Timestamp) (device : DeviceId) where
  -- Every live lease over the key is the device's own.
  abbrev pub KeyAllowed : Key → Type 0
  KeyAllowed key =
      (r : LeaseRecord)
      → Held space store r
      → is_live r now ≡ true
      → starts_with key r.prefix ≡ true
      → r.device ≡ device

  -- Every live lease that overlaps the range is the device's own.
  abbrev pub RangeAllowed : Range → Type 0
  RangeAllowed range =
      (r : LeaseRecord)
      → Held space store r
      → is_live r now ≡ true
      → overlaps (prefix r.prefix) range ≡ true
      → r.device ≡ device

module _ (space : SpaceId) (bytes : All IsByte space) (store : MemoryStore)
    (t : IsTable space store) (now : Timestamp) (device : DeviceId) where
  abbrev Answers : Option (Result KernelError (Unit {0})) → Type 0 → Type 0
  Answers checked P =
      ((checked ≡ some (ok tt)) × P) ⊎ ((e : KernelError) × (checked ≡ some (err e)) × (¬ P))

  on_foreign :
      KernelError
      → Option (Result KernelError (Unit {0}))
      → Bool
      → Option (Result KernelError (Unit {0}))
  on_foreign e rest true = some (err e)
  on_foreign e rest false = rest

  -- One key or range of the loop: `here` is what its leases promise, `there` the rest's.
  step :
      (e : KernelError) (live : List LeaseRecord) (rest : Option (Result KernelError (Unit {0})))
      (here there : Type 0)
      → (All (Own device) live ↔ here)
      → Answers rest there
      → Answers (on_foreign e rest (any_foreign device live)) (here × there)
  unfolding on_foreign
  step e live rest here there iff a = elim (Bool-cases (any_foreign device live)) [
    | inl q ↦
        inr (
          e,
          ap (on_foreign e rest) q,
          λ h. cc (sym q ∙ (any_foreign_iff device live).1 (iff.1 h.0)),
        )
    | inr q ↦ elim a [
      | inl (f, h) ↦
          inl (ap (on_foreign e rest) q ∙ f, (iff.0 ((any_foreign_iff device live).0 q), h))
      | inr (e', f, n) ↦ inr (e', ap (on_foreign e rest) q ∙ f, λ h. n h.1)
    ]
  ]

  validate_keys_lem :
      (keys : List Key)
      → All IsByteKey keys
      → Answers
          (validate_keys space store now device keys)
          (All (KeyAllowed space store now device) keys)
  unfolding validate_keys on_foreign Own
  validate_keys_lem [] v = inl (refl, tt)
  validate_keys_lem (key ∷ keys) (v, vs) =
      let (live, e, x) = covering_lem space bytes store t now key v.1 v.0.depth in
      let iff : All (Own device) live ↔ (KeyAllowed space store now device) key = (
        λ h r a b c. (x (Own device)).0 h r (a, b, c),
        λ h. (x (Own device)).1 (λ r (a, b, c). h r a b c),
      ) in
      rw e (
        step (contended key none) live (validate_keys space store now device keys)
          ((KeyAllowed space store now device) key) (All (KeyAllowed space store now device) keys)
          iff (validate_keys_lem keys vs))

  range_live_lem :
      (range : Range)
      → IsByteRange range
      → (live : List LeaseRecord) × (range_live space store now range ≡ some live)
        × (All (Own device) live ↔ (RangeAllowed space store now device) range)
  unfolding range_live Own overlaps covers_range Overlapping
  range_live_lem full v =
      let (live, e, x) = all_live_lem space bytes store t now in
      (
        live,
        e,
        (
          λ h r a b c. (x (Own device)).0 h r (a, b),
          λ h. (x (Own device)).1 (λ r (a, b). h r a b refl),
        ),
      )
  range_live_lem (prefix p) v =
      let (live, dead, e, x, y) = overlapping_lem space bytes store t now p v.1 in
      (
        live,
        rw e refl,
        (
          λ h r a b c. (x (Own device)).0 h r (a, b, ground (arith, c)),
          λ h. (x (Own device)).1 (λ r (a, b, c). h r a b (ground (arith, c))),
        ),
      )

  validate_ranges_lem :
      (ranges : List Range)
      → All IsByteRange ranges
      → Answers
          (validate_ranges space store now device ranges)
          (All (RangeAllowed space store now device) ranges)
  unfolding validate_ranges on_foreign
  validate_ranges_lem [] v = inl (refl, tt)
  validate_ranges_lem (range ∷ ranges) (v, vs) =
      let (live, e, iff) = range_live_lem range v in
      rw e (
        step (range_contended range none) live (validate_ranges space store now device ranges)
          ((RangeAllowed space store now device) range)
          (All (RangeAllowed space store now device) ranges) iff (validate_ranges_lem ranges vs))

  -- Over a well-formed table of a byte space id, for well-formed keys and ranges of bytes, the
  -- reservation check never panics, and it answers ok exactly when every live lease over one of
  -- the keys, and every live lease whose prefix overlaps one of the ranges, is the device's own.
  pub validate_writes_iff :
      (evidence : List LeaseId) (keys : List Key) (ranges : List Range)
      → All IsByteKey keys
      → All IsByteRange ranges
      → ((validate_writes space store now device evidence keys ranges ≡ some (ok tt))
          × All (KeyAllowed space store now device) keys
          × All (RangeAllowed space store now device) ranges)
        ⊎ ((e : KernelError) × (validate_writes space store now device evidence keys ranges
              ≡ some (err e))
            × (¬ (
                All (KeyAllowed space store now device) keys
                × All (RangeAllowed space store now device) ranges)))
  unfolding validate_writes
  validate_writes_iff evidence keys ranges vk vr = elim (validate_keys_lem keys vk) [
    | inl (e, hk) ↦ elim (validate_ranges_lem ranges vr) [
      | inl (f, hr) ↦ inl (rw e f, hk, hr)
      | inr (k, f, n) ↦ inr (k, rw e f, λ h. n h.1)
    ]
    | inr (k, e, n) ↦ inr (k, rw e refl, λ h. n h.0)
  ]
