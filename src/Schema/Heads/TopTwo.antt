-- ===== src/Schema/Heads/TopTwo.antt =====
-- server/src/schema.rs: `HistoricalHeads` against the whole history that it summarises.
use homebase.Prelude.{
  ℕ, ◌≤◌, ◌<◌, ◌≡◌, refl, sym, ap, ◌∙◌, max, true, false, List, [], ◌∷◌, ltb, ◌==◌, nat_ord,
  list_ord, if◌then◌else◌, All, arith, Bool-cases, inl, inr, eq_of_==, ==_iff,
}
use homebase.Schema.Heads.{
  HistoricalHeads, DeviceAdmission, heads_empty, observed, swapped, heads_observe, max_excluding,
}
use homebase.Tag.{AdmissionSeq, DeviceId}
use homebase.Clock.{lineage_none}

-- The heads are in order, and of two devices.
pub record IsHeads (h : HistoricalHeads) : Type 0 where
  pub ordered : h.second.admission_seq ≤ h.first.admission_seq
  pub distinct : h.first.device ≡ h.second.device → h.second.admission_seq ≡ 0

-- What one head counts for when a device is left out.
abbrev apart : DeviceAdmission → DeviceId → ℕ
apart a d = if a.device == d then 0 else a.admission_seq

-- The same of both heads, in whatever order they are.
both : HistoricalHeads → DeviceId → ℕ
both h d = max (apart h.first d) (apart h.second d)

max_excluding-both : (h : HistoricalHeads) (d : DeviceId) → IsHeads h → max_excluding h d ≡ both h d
unfolding max_excluding both
max_excluding-both h d v = elim (Bool-cases (h.first.device == d)) [
  | inl p ↦ elim (Bool-cases (h.second.device == d)) [
    | inl q ↦
        rw (p, q) (v.distinct (eq_of_== h.first.device d p ∙ sym (eq_of_== h.second.device d q)))
    | inr q ↦ rw (p, q) (omega arith)
  ]
  | inr p ↦ elim (Bool-cases (h.second.device == d)) [
    | inl q ↦ rw (p, q) (omega arith)
    | inr q ↦ rw (p, q) (omega (arith, v.ordered))
  ]
]

both-swapped : (h : HistoricalHeads) (d : DeviceId) → both (swapped h) d ≡ both h d
unfolding both swapped
both-swapped h d = elim (Bool-cases (ltb h.first.admission_seq h.second.admission_seq)) [
  | inl p ↦ rw p (omega arith)
  | inr p ↦ rw p refl
]

swapped-IsHeads :
    (h : HistoricalHeads)
    → (h.first.device ≡ h.second.device → h.second.admission_seq ≡ 0)
    → IsHeads (swapped h)
unfolding swapped
swapped-IsHeads h v = elim (Bool-cases (ltb h.first.admission_seq h.second.admission_seq)) [
  | inl p ↦ rw p (record {
    ordered = ground (arith, p);
    distinct = λ e. let z = v (sym e) in ground (arith, p, z);
  })
  | inr p ↦ rw p (record { ordered = ground (arith, p); distinct = v })
]

-- What observing one admission does to a history: it counts for every device but its own.
abbrev Counts : HistoricalHeads → DeviceId → AdmissionSeq → HistoricalHeads → Type 0
Counts h device seq g =
    (g.first.device ≡ g.second.device → g.second.admission_seq ≡ 0)
    × ((d : DeviceId) → both g d ≡ (if device == d then both h d else max (both h d) seq))

same_test : (x y z : DeviceId) → (x == y) ≡ true → (x == z) ≡ (y == z)
same_test x y z h = ap (λ (w : DeviceId). w == z) (eq_of_== x y h)

module _ (h : HistoricalHeads) (device : DeviceId) (seq : AdmissionSeq) (v : IsHeads h)
    (pos : 0 < seq) where
  new : DeviceAdmission
  new = record { device = device; admission_seq = seq }

  -- Two devices of which one is `d` are not both.
  distinct_test :
      (d : DeviceId)
      → 0 < h.second.admission_seq
      → (h.first.device == d) ≡ true
      → (h.second.device == d) ≡ false
  distinct_test d p q = elim (Bool-cases (h.second.device == d)) [
    | inl r ↦ absurd (
        omega
          (arith, v.distinct (eq_of_== h.first.device d q ∙ sym (eq_of_== h.second.device d r))))
    | inr r ↦ r
  ]

  Counts-empty :
      h.first.admission_seq ≡ 0 → Counts h device seq (record { first = new; second = h.second })
  unfolding new both
  Counts-empty z = (λ e. omega (arith, v.ordered, z), λ d. ground (arith, v.ordered, z))

  Counts-first :
      (h.first.device == device) ≡ true
      → Counts h device seq (record {
        first = record { device = h.first.device; admission_seq = max h.first.admission_seq seq };
        second = h.second;
      })
  unfolding both
  Counts-first q = (
    v.distinct,
    λ d. ground (arith, v.ordered, same_test h.first.device device d q, distinct_test d),
  )

  Counts-second :
      (h.first.device == device) ≡ false
      → h.second.admission_seq ≡ 0
      → Counts h device seq (record { first = h.first; second = new })
  unfolding both new
  Counts-second q z =
      (λ e. cc (sym q ∙ (==_iff h.first.device device).1 e), λ d. ground (arith, v.ordered, z))

  Counts-same :
      0 < h.second.admission_seq
      → (h.second.device == device) ≡ true
      → Counts h device seq (record {
        first = h.first;
        second = record {
          device = h.second.device;
          admission_seq = max h.second.admission_seq seq;
        };
      })
  unfolding both
  Counts-same p q = (
    λ e. absurd (omega (arith, p, v.distinct e)),
    λ d. ground (arith, v.ordered, same_test h.second.device device d q, distinct_test d p),
  )

  Counts-replace :
      (h.first.device == device) ≡ false
      → h.second.admission_seq < seq
      → Counts h device seq (record { first = h.first; second = new })
  unfolding both new
  Counts-replace q l = (
    λ e. cc (sym q ∙ (==_iff h.first.device device).1 e),
    λ d. ground (arith, v.ordered, l, apart_test d),
  )
    where
      apart_test : (d : DeviceId) → (device == d) ≡ true → (h.first.device == d) ≡ false
      apart_test d e = elim (Bool-cases (h.first.device == d)) [
        | inl r ↦ cc (
            sym q
            ∙ (==_iff h.first.device device).1
                (eq_of_== h.first.device d r ∙ sym (eq_of_== device d e)))
        | inr r ↦ r
      ]

  Counts-dropped : 0 < h.second.admission_seq → seq ≤ h.second.admission_seq → Counts h device seq h
  unfolding both
  Counts-dropped p l = (v.distinct, λ d. ground (arith, v.ordered, l, p, distinct_test d p))

  observed_lem : Counts h device seq (observed h device seq)
  unfolding observed new
  observed_lem = elim (Bool-cases (h.first.admission_seq == 0)) [
    | inl z ↦ rw z (Counts-empty (eq_of_== h.first.admission_seq 0 z))
    | inr z ↦ elim (Bool-cases (h.first.device == device)) [
      | inl q ↦ rw (z, q) (Counts-first q)
      | inr q ↦ elim (Bool-cases (h.second.admission_seq == 0)) [
        | inl y ↦ rw (z, q, y) (Counts-second q (eq_of_== h.second.admission_seq 0 y))
        | inr y ↦ elim (Bool-cases (h.second.device == device)) [
          | inl r ↦ rw (z, q, y, r) (Counts-same (ground (arith, y)) r)
          | inr r ↦ elim (Bool-cases (ltb h.second.admission_seq seq)) [
            | inl l ↦ rw (z, q, y, r, l) (Counts-replace q (ground (arith, l)))
            | inr l ↦ rw (z, q, y, r, l) (Counts-dropped (ground (arith, y)) (ground (arith, l)))
          ]
        ]
      ]
    ]
  ]

  pub heads_observe-IsHeads : IsHeads (heads_observe h device seq)
  unfolding heads_observe
  heads_observe-IsHeads = swapped-IsHeads (observed h device seq) observed_lem.0

  both-heads_observe :
      (d : DeviceId)
      → both (heads_observe h device seq) d ≡ (if device == d then both h d else max (both h d) seq)
  unfolding heads_observe
  both-heads_observe d = both-swapped (observed h device seq) d ∙ observed_lem.1 d

pub IsHeads-empty : IsHeads heads_empty
IsHeads-empty = record { ordered = omega arith; distinct = λ e. refl }

abbrev pub Event : Type 0
Event = DeviceId × AdmissionSeq

-- A history observed event by event.
unfoldable pub observe_all : HistoricalHeads → List Event → HistoricalHeads
observe_all h [] = h
observe_all h ((device, seq) ∷ events) = observe_all (heads_observe h device seq) events

-- The greatest admission of the whole history by a device other than `d`, or `least`.
unfoldable pub newest_by_others : DeviceId → ℕ → List Event → ℕ
newest_by_others d least [] = least
newest_by_others d least ((device, seq) ∷ events) =
    newest_by_others d (if device == d then least else max least seq) events

observe_all_lem :
    (events : List Event) (h : HistoricalHeads) (d : DeviceId)
    → IsHeads h
    → All (λ e. 0 < e.1) events
    → IsHeads (observe_all h events)
      × (both (observe_all h events) d ≡ newest_by_others d (both h d) events)
unfolding observe_all newest_by_others
observe_all_lem [] h d v p = (v, refl)
observe_all_lem ((device, seq) ∷ events) h d v (p, ps) =
    let (w, e) =
      observe_all_lem events (heads_observe h device seq) d (heads_observe-IsHeads h device seq v p)
        ps in
    (w, e ∙ ap (λ (n : ℕ). newest_by_others d n events) (both-heads_observe h device seq v p d))

zero_both : (d : DeviceId) → both heads_empty d ≡ 0
unfolding both
zero_both d = elim (Bool-cases (lineage_none == d)) [ inl z ↦ rw z refl | inr z ↦ rw z refl ]

-- After any history of admissions, each with a positive sequence number, the two heads tell for
-- every device the greatest admission of all the other devices.
pub max_excluding-observe_all :
    (events : List Event) (d : DeviceId)
    → All (λ e. 0 < e.1) events
    → max_excluding (observe_all heads_empty events) d ≡ newest_by_others d 0 events
max_excluding-observe_all events d p =
    let (w, e) = observe_all_lem events heads_empty d IsHeads-empty p in
    max_excluding-both (observe_all heads_empty events) d w
    ∙ e
    ∙ ap (λ (n : ℕ). newest_by_others d n events) (zero_both d)
