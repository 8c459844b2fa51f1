-- ===== src/Data/Outcome.antt =====
-- What an admission comes to: a rejection or a refusal changes nothing, and a success moves the
-- admission high water by the number of its batches, for a space whose leases stay as they were.
use homebase.Prelude.{
  ℕ, ◌+◌, ◌-◌, ◌%◌, ◌^◌, ◌<◌, ◌≡◌, refl, ap, subst, ◌∙◌, true, [], length, Option, none, some, ◌==◌,
  eq_of_==, nat_ord, list_ord, All, Option-cases, arith, Result, ok, err, inl, inr, ◌⊎◌,
}
use homebase.Prelude.Bytes.{Bytes, IsByte}
use homebase.Prelude.Attempt.{Attempt, panic, stop, go, ◌>>=◌, Ends, Ends->>=, Ends-known}
use homebase.Clock.{Timestamp}
use homebase.Messages.{KernelError, device_checksum_mismatch, AdmissionRequest, AdmissionResponse}
use homebase.Schema.{SpaceId, device_key, counters_key}
use homebase.Schema.LeaseRecord.{CountersRecord, counters_encode, counters_decode, counters_default}
use homebase.Schema.Records.{DeviceRecord, device_encode}
use homebase.Storage.{MemoryStore, WriteBatch, get, apply}
use homebase.Storage.Store.{last_op, get-apply}
use homebase.Tag.{DeviceSeq}
use homebase.Leases.Frame.{ApartOp, apart-IsSpace}
use homebase.Leases.Exclusion.{IsSpace}
use homebase.Leases.Verbs.{validate_writes}
use mathlib.Core.Option
use homebase.Leases.{counters}
use homebase.Leases.Table.Counters.{counters-stored}
use homebase.Data.{device_at, counters_at, decoded, or_default}
use homebase.Data.Staging.{Exit, rejected, answered, staging_empty, guard}
use homebase.Data.Admit.{
  last_seq_of, checksum_of, check_seqs, entries_of, point_keys, range_targets, attempted, Turn,
  admit_batches, put_points, put_ranges, put_aggregates, put_device, admit_plan, committed, admit,
}
use homebase.Data.Sequence.{Follows, final_seq, guard-true, check_seqs-Follows}
use homebase.Data.Footprint.Batch.{
  ByteBatch, Refused, Stopped, applied_from, IsTurn, admit_batches-IsTurn, put_points-apart,
  put_ranges-apart, put_aggregates-apart, put_device-apart,
}

-- Both halves of the space read the shared counters alike.
pub counters_at-counters :
    (space : SpaceId) (store : MemoryStore) → counters_at space store ≡ counters space store
unfolding counters_at counters
counters_at-counters space store = go (get store (counters_key space))
  where
    go :
        (stored : Option Bytes)
        → Option.map or_default (decoded counters_decode stored)
          ≡ elim stored [ none ↦ some counters_default | some value ↦ counters_decode value ]
    go none = refl
    go (some value) = on_decoded (counters_decode value)
      where
        on_decoded : (c : Option CountersRecord) → Option.map or_default (Option.map some c) ≡ c
        on_decoded none = refl
        on_decoded (some c) = refl

module _ (space : SpaceId) (bytes : All IsByte space) (sha256 : Bytes → Bytes) (store : MemoryStore)
    (now : Timestamp) (req : AdmissionRequest) where
  -- The plan of an admission: what it writes, and what it answers.
  pub record IsPlan (c : CountersRecord) (rec : Option DeviceRecord)
      (plan : WriteBatch × AdmissionResponse) : Type 0 where
    apart : All (ApartOp space) plan.0
    confirmed : req.expected_checksum ≡ checksum_of rec
    follows : Follows (last_seq_of rec) req.batches
    results : plan.1.results ≡ applied_from (c.admission_high_water + 1) (length req.batches)
    counters_written :
        last_op (counters_key space) plan.0
        ≡ some (
            some (
              counters_encode
                (record c { admission_high_water = c.admission_high_water + length req.batches })))
    device_written :
        last_op (device_key space req.device) plan.0
        ≡ some (
            some (
              device_encode (record {
                last_seq = final_seq (last_seq_of rec) req.batches;
                checksum = plan.1.checksum;
              })))

  module _ (c : CountersRecord) (rec : Option DeviceRecord)
      (counted : counters_at space store ≡ some c)
      (known : device_at space store req.device ≡ some rec) (device_bytes : All IsByte req.device)
      (entry_bytes : All ByteBatch req.batches)
      (fits : c.admission_high_water + length req.batches + 1 < 2 ^ 64) where
    abbrev S : Exit → Type 0
    S = Stopped (length req.batches) (checksum_of rec)

    start : Turn
    start = record {
      staging = staging_empty;
      next_admission_seq = (c.admission_high_water + 1) % 2 ^ 64;
      next_checksum = checksum_of rec;
      results = [];
    }

    attempted-Ends :
        (verdict : Option (Result KernelError (Unit {0}))) → Ends S (λ u. Unit) (attempted verdict)
    attempted-Ends none = tt
    attempted-Ends (some (ok done)) = tt
    attempted-Ends (some (err error)) = tt

    -- The puts at the end of the plan.
    finish : DeviceSeq → Turn → Attempt Exit (WriteBatch × AdmissionResponse)
    finish last_seq turn = do
      points ← put_points space store req.device turn.staging.points turn.staging.batch
      ranges ← put_ranges space store req.device turn.staging.ranges points
      let high_water = (turn.next_admission_seq + (2 ^ 64 - 1)) % 2 ^ 64
      let batch =
          put_device space store req.device
            (record { last_seq = last_seq; checksum = turn.next_checksum })
            (record c { admission_high_water = high_water })
            (put_aggregates space store req.device turn.staging.aggregates ranges)
      go (batch, record { checksum = turn.next_checksum; results = turn.results })

    written :
        (turn : Turn)
        → IsTurn space bytes start (length req.batches) turn
        → (last_seq : DeviceSeq) → Follows (last_seq_of rec) req.batches
        → last_seq ≡ final_seq (last_seq_of rec) req.batches
        → req.expected_checksum ≡ checksum_of rec
        → Ends S (IsPlan c rec) (finish last_seq turn)
    unfolding finish start
    written turn t last_seq follows same confirmed =
        Ends->>= S (All (ApartOp space)) (IsPlan c rec)
          (put_points space store req.device turn.staging.points turn.staging.batch) _
          (put_points-apart space bytes store req.device S turn.staging.points turn.staging.batch
            t.apart.points t.apart.batch)
          (λ points p.
            Ends->>= S (All (ApartOp space)) (IsPlan c rec)
              (put_ranges space store req.device turn.staging.ranges points) _
              (put_ranges-apart space bytes store req.device S turn.staging.ranges points
                t.apart.ranges p)
              (λ ranges r.
                let high_water = (turn.next_admission_seq + (2 ^ 64 - 1)) % 2 ^ 64 in
                let moved : high_water ≡ c.admission_high_water + length req.batches =
                  omega (arith, t.next, fits) in
                let d : CountersRecord = record c { admission_high_water = high_water } in
                let batch = put_aggregates space store req.device turn.staging.aggregates ranges in
                let (a, x, y) =
                  put_device-apart space bytes store req.device
                    (record { last_seq = last_seq; checksum = turn.next_checksum }) d batch
                    device_bytes
                    (put_aggregates-apart space bytes store req.device turn.staging.aggregates
                      ranges t.apart.aggregates r) in
                record {
                  apart = a;
                  confirmed = confirmed;
                  follows = follows;
                  results =
                      t.numbered
                      ∙ ap (λ (n : ℕ). applied_from n (length req.batches)) (omega (arith, fits));
                  counters_written =
                      x
                      ∙ ap
                          (λ (n : ℕ).
                            some (some (counters_encode (record c { admission_high_water = n }))))
                          moved;
                  device_written =
                      y
                      ∙ ap
                          (λ (n : ℕ). some (
                            some (
                              device_encode
                                (record { last_seq = n; checksum = turn.next_checksum }))))
                          same;
                }))

    pub admit_plan-IsPlan : Ends S (IsPlan c rec) (admit_plan sha256 space store now req)
    unfolding admit_plan start finish
    admit_plan-IsPlan =
        let Q = IsPlan c rec in
        let current = checksum_of rec in
        let last = last_seq_of rec in
        let confirmed = req.expected_checksum == current in
        let mismatch = device_checksum_mismatch last current in
        let entries = entries_of req.batches in
        let verdict =
          validate_writes space store now req.device req.evidence (point_keys entries)
            (range_targets entries) in
        Ends-known S Q (device_at space store req.device) _ rec known (
          Ends->>= S (λ u. confirmed ≡ true) Q (guard confirmed mismatch) _
            (guard-true S confirmed mismatch tt)
            (λ u e.
              Ends->>= S (λ final. Follows last req.batches × (final ≡ final_seq last req.batches))
                Q (check_seqs true last req.batches) _
                (check_seqs-Follows S (λ error. tt) last req.batches)
                (λ final (follows, same).
                  Ends->>= S (λ u. Unit) Q (attempted verdict) _ (attempted-Ends verdict)
                    (λ u allowed. Ends-known S Q (counters_at space store) _ c counted (
                      Ends->>= S (IsTurn space bytes start (length req.batches)) Q
                        (admit_batches space store req.device sha256 (length req.batches) current
                          req.batches start)
                        _
                        (admit_batches-IsTurn space bytes store req.device sha256
                          (length req.batches) current req.batches start entry_bytes
                          (record { points = tt; ranges = tt; aggregates = tt; batch = tt })
                          (omega (arith, fits)))
                        (λ turn t.
                          written turn t final follows same
                            (eq_of_== req.expected_checksum current e)))))))

-- The counters after `n` more admissions.
abbrev pub advanced : CountersRecord → ℕ → CountersRecord
advanced c n = record c { admission_high_water = c.admission_high_water + n }

-- What a request is told, and what it leaves behind.
module _ (space : SpaceId) (store : MemoryStore) (now : Timestamp) (req : AdmissionRequest)
    (c : CountersRecord) (rec : Option DeviceRecord) where
  pub record IsAdmitted (store' : MemoryStore) (response : AdmissionResponse) : Type 0 where
    pub confirmed : req.expected_checksum ≡ checksum_of rec
    pub follows : Follows (last_seq_of rec) req.batches
    pub results : response.results ≡ applied_from (c.admission_high_water + 1) (length req.batches)
    pub leases : IsSpace space store' now (advanced c (length req.batches))
    pub device_stored :
        get store' (device_key space req.device)
        ≡ some (
            device_encode (record {
              last_seq = final_seq (last_seq_of rec) req.batches;
              checksum = response.checksum;
            }))

  abbrev pub Outcome : MemoryStore × Result KernelError AdmissionResponse → Type 0
  Outcome (store', err error) = store' ≡ store
  Outcome (store', ok response) =
      ((store' ≡ store) × Refused (length req.batches) (checksum_of rec) response)
      ⊎ IsAdmitted store' response

module _ (space : SpaceId) (bytes : All IsByte space) (sha256 : Bytes → Bytes) (store : MemoryStore)
    (now : Timestamp) (req : AdmissionRequest) (c : CountersRecord) (rec : Option DeviceRecord)
    (i : IsSpace space store now c) (known : device_at space store req.device ≡ some rec)
    (device_bytes : All IsByte req.device) (entry_bytes : All ByteBatch req.batches)
    (fits : c.admission_high_water + length req.batches + 1 < 2 ^ 64) where
  pub IsPlan-IsAdmitted :
      (plan : WriteBatch × AdmissionResponse)
      → IsPlan space bytes sha256 store now req c rec plan
      → IsAdmitted space store now req c rec (apply store plan.0) plan.1
  IsPlan-IsAdmitted plan p = record {
    confirmed = p.confirmed;
    follows = p.follows;
    results = p.results;
    leases =
        apart-IsSpace space store plan.0 p.apart now c (advanced c (length req.batches)) i
          (get-apply plan.0 store (counters_key space) ∙ rw p.counters_written refl) refl
          (omega (arith, fits));
    device_stored = get-apply plan.0 store (device_key space req.device) ∙ rw p.device_written refl;
  }

  -- On a space of a byte id whose lease invariant holds, whose device record is readable, for
  -- entries of bytes and with room for the numbers: what `admit` answers, when no record is
  -- corrupt. An error leaves the store as it was. An ok answer is either a refusal for failed range
  -- asserts, one failure for each batch and the store and the checksum as they were; or the request
  -- named the stored checksum, its sequence numbers begin above the stored one and have no gap, and
  -- all its batches are applied under consecutive numbers after the high water. The lease invariant
  -- then holds with the high water advanced by the number of batches, and the record of the device
  -- holds the last sequence number and the checksum of the answer.
  pub admit_lem :
      (result : MemoryStore × Result KernelError AdmissionResponse)
      → admit sha256 space store now req ≡ some result
      → Outcome space store now req c rec result
  unfolding admit
  admit_lem = on_plan (admit_plan sha256 space store now req) (
      admit_plan-IsPlan space bytes sha256 store now req c rec
        (counters_at-counters space store
          ∙ counters-stored space store c i.stored i.id_fits i.high_water_fits)
        known device_bytes entry_bytes fits)
    where
      on_plan :
          (plan : Attempt Exit (WriteBatch × AdmissionResponse))
          → Ends
              (Stopped (length req.batches) (checksum_of rec))
              (IsPlan space bytes sha256 store now req c rec)
              plan
          → (result : MemoryStore × Result KernelError AdmissionResponse)
          → committed sha256 space store now plan ≡ some result
          → Outcome space store now req c rec result
      on_plan panic h result e = cc
      on_plan (stop (rejected error)) h result e =
          let same : ◌≡◌ {A = MemoryStore × Result KernelError AdmissionResponse} (store, err error)
              result =
            cc in
          let here : Outcome space store now req c rec (store, err error) = refl in
          subst (Outcome space store now req c rec) same here
      on_plan (stop (answered response)) h result e =
          let same : ◌≡◌ {A = MemoryStore × Result KernelError AdmissionResponse}
              (store, ok response) result =
            cc in
          let here : Outcome space store now req c rec (store, ok response) = inl (refl, h) in
          subst (Outcome space store now req c rec) same here
      on_plan (go plan) h result e =
          let same : ◌≡◌ {A = MemoryStore × Result KernelError AdmissionResponse}
              (apply store plan.0, ok plan.1) result =
            cc in
          let here : Outcome space store now req c rec (apply store plan.0, ok plan.1) =
            inr (IsPlan-IsAdmitted plan h) in
          subst (Outcome space store now req c rec) same here

-- An admission that does not panic has read the device's record.
pub admit-device_at :
    (space : SpaceId) (sha256 : Bytes → Bytes) (store : MemoryStore) (now : Timestamp)
    (req : AdmissionRequest) (result : MemoryStore × Result KernelError AdmissionResponse)
    → admit sha256 space store now req ≡ some result
    → (rec : Option DeviceRecord) × (device_at space store req.device ≡ some rec)
unfolding admit admit_plan
admit-device_at space sha256 store now req result e =
    elim (Option-cases (device_at space store req.device)) [
      | inr found ↦ found
      | inl q ↦ let panics : admit sha256 space store now req ≡ none = rw q refl in cc
    ]
