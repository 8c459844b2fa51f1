-- ===== src/Data/Written/Whole.antt =====
-- The whole of an admission (server/src/space/data.rs, `admit_impl`): when it is let through, and
-- what it writes.
use homebase.Prelude.{
  ℕ, ◌+◌, ◌-◌, ◌%◌, ◌^◌, ◌<◌, ◌≡◌, refl, sym, subst, ap, ◌∙◌, Bool, true, false, not, ◌||◌, leb,
  List, [], ◌∷◌, length, Option, none, some, Result, ok, err, ◌==◌, nat_ord, list_ord, All, inl,
  inr, ◌⊎◌, arith,
}
use homebase.Prelude.Bytes.{Bytes, IsByte}
use homebase.Prelude.Map.{map_get-nil}
use homebase.Prelude.Attempt.{Attempt, panic, stop, go, ◌>>=◌, Ends, Ends->>=, Ends-known}
use homebase.Clock.{Timestamp}
use homebase.Key.{Key}
use homebase.Messages.{
  KernelError, device_checksum_mismatch, device_seq_regression, AdmissionBatch, AdmissionRequest,
  AdmissionResponse,
}
use homebase.Schema.{SpaceId, data_key}
use homebase.Schema.DataRecord.{data_encode}
use homebase.Schema.LeaseRecord.{CountersRecord}
use homebase.Schema.Records.{DeviceRecord}
use homebase.Storage.{MemoryStore, WriteBatch, apply}
use homebase.Tag.{AdmittedEntry, DeviceEntry, DeviceSeq}
use homebase.Leases.Admission.{validate_writes_iff}
use homebase.Leases.Exclusion.{IsSpace}
use homebase.Leases.Table.Counters.{counters-stored}
use homebase.Leases.Verbs.{validate_writes}
use homebase.Data.{device_at, counters_at}
use homebase.Data.Staging.{Exit, rejected, answered, staging_empty, guard}
use homebase.Data.Admit.{
  last_seq_of, checksum_of, check_seqs, entries_of, point_keys, range_targets, attempted, Turn,
  admit_batches, put_points, put_ranges, put_aggregates, put_device, admit_plan, committed, admit,
}
use homebase.Data.Footprint.Batch.{Refused, Stopped}
use homebase.Data.Footprint.Operations.{guard-Ends}
use homebase.Data.Outcome.{
  IsAdmitted, IsPlan, admit_plan-IsPlan, IsPlan-IsAdmitted, counters_at-counters,
}
use homebase.Data.Written.{Puts, Extends, last_for, row_of, Logged, Logged-later, IsStaged}
use homebase.Data.Written.Batches.{
  admitted_from, Asserted, Headers, Headers-later, OnExit, IsCourse, admit_batches-IsCourse,
}
use homebase.Data.Written.Puts.{
  PointsIn, put_points-PointsIn, put_ranges-Extends, put_aggregates-Extends, put_device-Extends,
}
use homebase.Data.Written.Targets.{
  Allowed, all_allowed, by_batch, ValidBatch, valid_entries, valid_keys, valid_ranges, byte_batches,
}

module _ (space : SpaceId) (sha256 : Bytes → Bytes) (store : MemoryStore) (now : Timestamp)
    (req : AdmissionRequest) (c : CountersRecord) (rec : Option DeviceRecord) where
  -- The entries of the request, as they are admitted.
  abbrev pub events : List AdmittedEntry
  events = admitted_from (c.admission_high_water + 1) req.batches

  -- What lets an admission through, and the write that it makes.
  pub record IsWrite (write : WriteBatch) (response : AdmissionResponse) : Type 0 where
    pub reserved :
        All
          (λ (b : AdmissionBatch).
            All (λ (e : DeviceEntry). Allowed space store now req.device e.mutation) b.entries)
          req.batches
    pub asserted : All (Asserted space store req.device) req.batches
    pub logged : All (Logged space write) events
    pub headers :
        Headers space req.device sha256
          (c.admission_high_water + 1)
          (checksum_of rec)
          req.batches
          write
          response.checksum
    pub points :
        (key : Key) (e : AdmittedEntry)
        → last_for key events ≡ some e
        → (bytes : Bytes) × (data_encode (record { entry = e }) ≡ some bytes)
          × Puts (data_key space key) bytes write

  -- Some assertion of the request does not hold.
  abbrev pub Unasserted : Type 0
  Unasserted = ¬ All (Asserted space store req.device) req.batches

  -- What `admit` answers, and what it writes.
  abbrev pub Whole : MemoryStore × Result KernelError AdmissionResponse → Type 0
  Whole (store', err error) = store' ≡ store
  Whole (store', ok response) =
      ((store' ≡ store) × Refused (length req.batches) (checksum_of rec) response × Unasserted)
      ⊎ (IsAdmitted space store now req c rec store' response
          × ((write : WriteBatch) × (store' ≡ apply store write) × IsWrite write response))

module _ (space : SpaceId) (bytes : All IsByte space) (sha256 : Bytes → Bytes) (store : MemoryStore)
    (now : Timestamp) (req : AdmissionRequest) (c : CountersRecord) (rec : Option DeviceRecord)
    (i : IsSpace space store now c) (known : device_at space store req.device ≡ some rec)
    (device_bytes : All IsByte req.device) (valid : All ValidBatch req.batches)
    (fits : c.admission_high_water + length req.batches + 1 < 2 ^ 64) where
  abbrev S : Exit → Type 0
  S =
      OnExit space bytes store req.device sha256 (length req.batches) (checksum_of rec)
        (Unasserted space sha256 store now req c rec)

  abbrev Q : WriteBatch × AdmissionResponse → Type 0
  Q (write, response) = IsWrite space sha256 store now req c rec write response

  counted : counters_at space store ≡ some c
  counted =
      counters_at-counters space store
      ∙ counters-stored space store c i.stored i.id_fits i.high_water_fits

  abbrev start : Turn
  start = record {
    staging = staging_empty;
    next_admission_seq = (c.admission_high_water + 1) % 2 ^ 64;
    next_checksum = checksum_of rec;
    results = [];
  }

  abbrev AllowedAll : Type 0
  AllowedAll =
      All
        (λ (b : AdmissionBatch).
          All (λ (e : DeviceEntry). Allowed space store now req.device e.mutation) b.entries)
        req.batches

  attempted-Ends :
      (verdict : Option (Result KernelError (Unit {0})))
      → validate_writes space store now req.device req.evidence
          (point_keys (entries_of req.batches))
          (range_targets (entries_of req.batches))
        ≡ verdict
      → Ends S (λ u. AllowedAll) (attempted verdict)
  attempted-Ends none e = tt
  attempted-Ends (some (err error)) e = tt
  attempted-Ends (some (ok done)) e =
      let es = entries_of req.batches in
      let v = valid_entries req.batches valid in
      elim (validate_writes_iff space bytes store i.table now req.device req.evidence
        (point_keys es) (range_targets es) (valid_keys es v) (valid_ranges es v)) [
          | inl (f, ks, rs) ↦
              by_batch space store now req.device req.batches
                (all_allowed space store now req.device es ks rs)
          | inr (error, f, n) ↦ let bad = sym e ∙ f in cc
        ]

  -- The puts at the end of the plan.
  closing : DeviceSeq → Turn → Attempt Exit (WriteBatch × AdmissionResponse)
  closing last_seq turn = do
    points ← put_points space store req.device turn.staging.points turn.staging.batch
    ranges ← put_ranges space store req.device turn.staging.ranges points
    let high_water = (turn.next_admission_seq + (2 ^ 64 - 1)) % 2 ^ 64
    let batch =
        put_device space store req.device
          (record { last_seq = last_seq; checksum = turn.next_checksum })
          (record c { admission_high_water = high_water })
          (put_aggregates space store req.device turn.staging.aggregates ranges)
    go (batch, record { checksum = turn.next_checksum; results = turn.results })

  abbrev Course : Turn → Type 0
  Course turn =
      IsCourse space bytes store req.device sha256 (length req.batches) (checksum_of rec)
        (Unasserted space sha256 store now req c rec) [] req.batches start turn

  first : (c.admission_high_water + 1) % 2 ^ 64 ≡ c.admission_high_water + 1
  first = omega (arith, fits)

  closing-IsWrite :
      (turn : Turn) (last_seq : DeviceSeq)
      → Course turn
      → AllowedAll
      → Ends S Q (closing last_seq turn)
  unfolding closing
  closing-IsWrite turn last_seq t allowed =
      let before = turn.staging.batch in
      let P : WriteBatch → Type 0 =
        λ more. Extends before more × PointsIn space store req.device turn.staging.points more in
      Ends->>= S P Q (put_points space store req.device turn.staging.points before) _
        (put_points-PointsIn space store req.device S turn.staging.points before)
        (λ points (x, ps).
          Ends->>= S (Extends points) Q
            (put_ranges space store req.device turn.staging.ranges points) _
            (put_ranges-Extends space store req.device S turn.staging.ranges points)
            (λ ranges y.
              let high_water = (turn.next_admission_seq + (2 ^ 64 - 1)) % 2 ^ 64 in
              let d : CountersRecord = record c { admission_high_water = high_water } in
              let r : DeviceRecord = record {
                last_seq = last_seq;
                checksum = turn.next_checksum;
              } in
              let aggregates =
                put_aggregates space store req.device turn.staging.aggregates ranges in
              let write = put_device space store req.device r d aggregates in
              let after_points : Extends points write = λ k v p.
                put_device-Extends space store req.device r d aggregates k v (
                  put_aggregates-Extends space store req.device turn.staging.aggregates ranges k v
                    (y k v p)) in
              let all : Extends before write = λ k v p. after_points k v (x k v p) in
              let es = events space sha256 store now req c rec in
              let staged : IsStaged space es turn.staging =
                subst (λ (n : ℕ). IsStaged space (admitted_from n req.batches) turn.staging) first
                  t.staged in
              record {
                reserved = allowed;
                asserted = t.asserted;
                logged = Logged-later space before write es all staged.logged;
                headers =
                    Headers-later space req.device sha256 (c.admission_high_water + 1)
                      (checksum_of rec) req.batches before write turn.next_checksum all
                      (subst
                        (λ (n : ℕ).
                          Headers space req.device sha256 n (checksum_of rec) req.batches before
                            turn.next_checksum)
                        first t.headers);
                points = λ key e l.
                    let (value, f, p) =
                      ps key (record { entry = e }) (staged.rows key ∙ ap row_of l) in
                    (value, f, after_points _ value p);
              }))

  admit_plan-IsWrite : Ends S Q (admit_plan sha256 space store now req)
  unfolding admit_plan closing check_seqs last_for
  admit_plan-IsWrite =
      let current = checksum_of rec in
      let last = last_seq_of rec in
      let confirmed = req.expected_checksum == current in
      let mismatch = device_checksum_mismatch last current in
      let entries = entries_of req.batches in
      let verdict =
        validate_writes space store now req.device req.evidence (point_keys entries)
          (range_targets entries) in
      Ends-known S Q (device_at space store req.device) _ rec known (
        Ends->>= S (λ u. Unit) Q (guard confirmed mismatch) _
          (guard-Ends S (λ error. tt) confirmed mismatch)
          (λ u e.
            Ends->>= S (λ final. Unit) Q (check_seqs true last req.batches) _
              (check_seqs-Ends true last req.batches)
              (λ final u.
                Ends->>= S (λ u. AllowedAll) Q (attempted verdict) _ (attempted-Ends verdict refl)
                  (λ u allowed. Ends-known S Q (counters_at space store) _ c counted (
                    Ends->>= S Course Q
                      (admit_batches space store req.device sha256 (length req.batches) current
                        req.batches start)
                      _
                      (admit_batches-IsCourse space bytes store req.device sha256
                        (length req.batches) current (Unasserted space sha256 store now req c rec)
                        req.batches [] start (λ n. n)
                        (record { rows = λ key. map_get-nil key; logged = tt })
                        (omega (arith, fits)))
                      (λ turn t. closing-IsWrite turn final t allowed))))))
    where
      check_seqs-Ends :
          (one : Bool) (last : DeviceSeq) (bs : List AdmissionBatch)
          → Ends S (λ final. Unit) (check_seqs one last bs)
      check_seqs-Ends one last [] = tt
      check_seqs-Ends one last (b ∷ bs) =
          let T : DeviceSeq → Type 0 = λ final. Unit in
          let error = device_seq_regression last b.device_seq in
          let increasing = not (leb b.device_seq last) in
          let consecutive = one || b.device_seq == (last + 1) % 2 ^ 64 in
          Ends->>= S (λ u. Unit) T (guard increasing error) _
            (guard-Ends S (λ error. tt) increasing error)
            (λ u v.
              Ends->>= S (λ u. Unit) T (guard consecutive error) _
                (guard-Ends S (λ error. tt) consecutive error)
                (λ u v. check_seqs-Ends false b.device_seq bs))

  -- On a space of a byte id whose lease invariant holds, whose device record is readable, for
  -- well-formed targets and with room for the numbers: what `admit` answers when no record is
  -- corrupt. An error leaves the store as it was. An ok answer is a refusal only if some range
  -- assertion does not hold: it reports a failure for each batch, and the store and the checksum
  -- are as they were. Otherwise the request is admitted. Then it named the stored checksum,
  -- and its sequence numbers begin above the stored one and have no gap; every live lease in the
  -- way of a mutation is the device's own; and every range assertion holds. The answer applies the
  -- batches under consecutive numbers after the high water. The store has changed by one write,
  -- which has the log row of every entry, the header of every batch with the checksums chained from
  -- the stored one to the answer's, and for every key the point record of its last entry. The lease
  -- invariant holds with the high water advanced by the number of batches, and the device's record
  -- holds the last sequence number and the checksum of the answer.
  pub admit-Whole :
      (result : MemoryStore × Result KernelError AdmissionResponse)
      → admit sha256 space store now req ≡ some result
      → Whole space sha256 store now req c rec result
  unfolding admit
  admit-Whole = on_plan (admit_plan sha256 space store now req) admit_plan-IsWrite (
      admit_plan-IsPlan space bytes sha256 store now req c rec counted known device_bytes
        (byte_batches req.batches valid) fits)
    where
      on_plan :
          (plan : Attempt Exit (WriteBatch × AdmissionResponse))
          → Ends S Q plan
          → Ends
              (Stopped (length req.batches) (checksum_of rec))
              (IsPlan space bytes sha256 store now req c rec)
              plan
          → (result : MemoryStore × Result KernelError AdmissionResponse)
          → committed sha256 space store now plan ≡ some result
          → Whole space sha256 store now req c rec result
      on_plan panic h k result e = cc
      on_plan (stop (rejected error)) h k result e =
          let same : ◌≡◌ {A = MemoryStore × Result KernelError AdmissionResponse} (store, err error)
              result =
            cc in
          let here : Whole space sha256 store now req c rec (store, err error) = refl in
          subst (Whole space sha256 store now req c rec) same here
      on_plan (stop (answered response)) h k result e =
          let same : ◌≡◌ {A = MemoryStore × Result KernelError AdmissionResponse}
              (store, ok response) result =
            cc in
          let here : Whole space sha256 store now req c rec (store, ok response) =
            inl (refl, k, h) in
          subst (Whole space sha256 store now req c rec) same here
      on_plan (go plan) h k result e =
          let same : ◌≡◌ {A = MemoryStore × Result KernelError AdmissionResponse}
              (apply store plan.0, ok plan.1) result =
            cc in
          let here : Whole space sha256 store now req c rec (apply store plan.0, ok plan.1) = inr (
            IsPlan-IsAdmitted space bytes sha256 store now req c rec i known device_bytes
                (byte_batches req.batches valid) fits plan k,
            (plan.0, refl, h),
          ) in
          subst (Whole space sha256 store now req c rec) same here
