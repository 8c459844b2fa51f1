-- ===== src/Data/Footprint/Operations.antt =====
-- The operations of an admission write and stage under keys apart from the lease table.
use homebase.Prelude.{
  ℕ, ◌+◌, ◌-◌, ◌^◌, Bool, true, false, not, ◌&&◌, List, [], ◌∷◌, ◌++◌, Option, none, some, leb,
  ◌==◌, nat_ord, list_ord, if◌then◌else◌, All, All-append, Result, ok, err,
}
use homebase.Prelude.Bytes.{Bytes, IsByte}
use homebase.Prelude.Map.{map_insert, map_insert-All}
use homebase.Prelude.Attempt.{expect, Ends, Ends->>=, Ends-expect, Ends-any}
use homebase.Key.{Key}
use homebase.Range.{Range}
use homebase.Range.Order.{range_ord}
use homebase.Messages.{KernelError, invalid_seal, ver_regression, range_ver_regression}
use homebase.Schema.{SpaceId}
use homebase.Schema.Heads.{max_admission_seq}
use homebase.Schema.DataRecord.{DataRecord, data_encode}
use homebase.Schema.RangeDelete.{RangeDeleteRecord, range_delete_new, range_delete_encode}
use homebase.Schema.AdmissionLog.{admission_op_key, admission_range_op_key}
use homebase.Storage.{MemoryStore, put}
use homebase.Tag.{
  AdmissionSeq, AdmittedEntry, DeviceEntry, DeviceId, DeviceSeq, Mutation, set, delete,
  delete_range, OpaqueValue, Ver, entry_ver, order, is_set,
}
use homebase.Leases.Frame.{ApartOp}
use mathlib.Core.Option
use homebase.Data.{
  point_record_visible_with_events, covering_range_max_ver, effective_history, max_ver,
}
use homebase.Data.Staged.{mutation_relevant, resets, events_max_ver, prior_record, staged_tombstone}
use homebase.Data.Counts.{Aggregates, apply_point_count, apply_range_count, count_delta}
use homebase.Data.Staging.{
  Exit, rejected, Staging, guard, check_ver, check_seal, admit_point, admit_range, admit_mutation,
  admit_entry, admit_entries,
}
use homebase.Data.Keys.{ByteKey, ByteRange, op_key-IsApart, range_op_key-IsApart}
use homebase.Data.Footprint.{ApartKeys, point_count-ApartKeys, range_count-ApartKeys}
use homebase.Seal.{SealPayloadError, validate_payload}

-- The target of the mutation is made of byte strings.
abbrev pub ByteTarget : Mutation OpaqueValue → Type 0
ByteTarget (set key value) = ByteKey key
ByteTarget (delete key) = ByteKey key
ByteTarget (delete_range range) = ByteRange range

pub guard-Ends :
    (S : Exit → Type 0)
    → ((error : KernelError) → S (rejected error))
    → (test : Bool) (error : KernelError) → Ends S (λ u. Unit) (guard test error)
guard-Ends S reject true error = tt
guard-Ends S reject false error = reject error

module _ (space : SpaceId) (bytes : All IsByte space) where
  -- What is staged is to be written under keys apart from the lease table.
  pub record IsApartStaging (staging : Staging) : Type 0 where
    pub points : All (λ (e : Key × DataRecord). ByteKey e.0) staging.points
    pub ranges : All (λ (e : Range × RangeDeleteRecord). ByteRange e.0) staging.ranges
    pub aggregates : ApartKeys space staging.aggregates
    pub batch : All (ApartOp space) staging.batch

  -- The two ways to end: with an error, which may be any, or with a value.
  module _ (S : Exit → Type 0) (reject : (error : KernelError) → S (rejected error))
      (store : MemoryStore) where
    pub check_ver-Ends :
        (error : Ver → KernelError) (current : Option Ver) (ver : Ver)
        → Ends S (λ u. Unit) (check_ver error current ver)
    unfolding check_ver
    check_ver-Ends error none ver = tt
    check_ver-Ends error (some current) ver =
        guard-Ends S reject (not (leb ver current)) (error current)

    pub check_seal-Ends :
        (checked : Result SealPayloadError (Unit {0})) → Ends S (λ u. Unit) (check_seal checked)
    check_seal-Ends (ok done) = tt
    check_seal-Ends (err error) = reject invalid_seal

    module _ (admitted : AdmittedEntry) (staging : Staging) (h : IsApartStaging staging) where
      point_staged :
          (key : Key) (aggregates : Aggregates) (value : Bytes)
          → ByteKey key
          → ApartKeys space aggregates
          → IsApartStaging (record staging {
            points = map_insert key (record { entry = admitted }) staging.points;
            aggregates = aggregates;
            batch =
                staging.batch
                ++ put
                    (admission_op_key space admitted.admission.admission_seq
                      admitted.admission.op_index key)
                    value
                  ∷ [];
          })
      point_staged key aggregates value b a = record {
        points =
            map_insert-All (λ (e : Key × DataRecord). ByteKey e.0) key (record { entry = admitted })
              staging.points h.points b;
        ranges = h.ranges;
        aggregates = a;
        batch = All-append (ApartOp space) staging.batch _ h.batch (
          op_key-IsApart space bytes admitted.admission.admission_seq admitted.admission.op_index
              key b,
          tt,
        );
      }

      range_staged :
          (range : Range) (tombstone : RangeDeleteRecord) (aggregates : Aggregates) (value : Bytes)
          → ByteRange range
          → ApartKeys space aggregates
          → IsApartStaging (record staging {
            ranges = map_insert range tombstone staging.ranges;
            aggregates = aggregates;
            batch =
                staging.batch
                ++ put
                    (admission_range_op_key space admitted.admission.admission_seq
                      admitted.admission.op_index range)
                    value
                  ∷ [];
          })
      range_staged range tombstone aggregates value b a = record {
        points = h.points;
        ranges =
            map_insert-All (λ (e : Range × RangeDeleteRecord). ByteRange e.0) range tombstone
              staging.ranges h.ranges b;
        aggregates = a;
        batch = All-append (ApartOp space) staging.batch _ h.batch (
          range_op_key-IsApart space bytes admitted.admission.admission_seq
              admitted.admission.op_index range b,
          tt,
        );
      }

      admit_point-Ends :
          (key : Key)
          → ByteKey key
          → Ends S IsApartStaging (admit_point space store admitted key staging)
      unfolding admit_point
      admit_point-Ends key b =
          let entry = admitted.device_entry in
          let counted : Bool → Option Aggregates = λ prior_live.
            apply_point_count space store staging.events entry.tag.device
              admitted.admission.admission_seq entry.tag.ver (order admitted.admission)
              staging.aggregates key (count_delta (is_set entry.mutation) prior_live) in
          Ends-any S IsApartStaging (prior_record space store staging.points key) _ (λ prior found.
            Ends-any S IsApartStaging
              (point_record_visible_with_events space store prior staging.events) _
              (λ prior_live found.
                Ends-any S IsApartStaging (covering_range_max_ver space store key) _
                  (λ covering found.
                    let stored_ver = Option.map (λ (rec : DataRecord). entry_ver rec.entry) prior in
                    let current =
                      max_ver (max_ver stored_ver covering)
                        (events_max_ver (resets key) staging.events) in
                    let error : Ver → KernelError = λ v. ver_regression key v entry.tag.ver in
                    Ends->>= S (λ u. Unit) IsApartStaging (check_ver error current entry.tag.ver) _
                      (check_ver-Ends error current entry.tag.ver)
                      (λ checked u.
                        Ends->>= S (ApartKeys space) IsApartStaging (expect (counted prior_live)) _
                          (Ends-expect S (ApartKeys space) (counted prior_live) (
                            point_count-ApartKeys space store staging.events entry.tag.device
                              admitted.admission.admission_seq entry.tag.ver
                              (order admitted.admission) bytes staging.aggregates h.aggregates key
                              (count_delta (is_set entry.mutation) prior_live) b))
                          (λ aggregates a.
                            Ends-any S IsApartStaging (data_encode (record { entry = admitted })) _
                              (λ value found. point_staged key aggregates value b a))))))

      admit_range-Ends :
          (range : Range)
          → ByteRange range
          → Ends S IsApartStaging (admit_range space store admitted range staging)
      unfolding admit_range
      admit_range-Ends range b =
          let entry = admitted.device_entry in
          let counted =
            apply_range_count space store staging.events entry.tag.device
              admitted.admission.admission_seq entry.tag.ver (order admitted.admission)
              staging.aggregates range in
          Ends-any S IsApartStaging (effective_history space store range) _ (λ effective found.
            let stored_ver =
              if max_admission_seq effective.history == 0 then none else some effective.max_ver in
            let current =
              max_ver stored_ver (events_max_ver (mutation_relevant range) staging.events) in
            let error : Ver → KernelError = λ v. range_ver_regression range v entry.tag.ver in
            Ends->>= S (λ u. Unit) IsApartStaging (check_ver error current entry.tag.ver) _
              (check_ver-Ends error current entry.tag.ver)
              (λ checked u.
                Ends->>= S (ApartKeys space) IsApartStaging (expect counted) _
                  (Ends-expect S (ApartKeys space) counted (
                    range_count-ApartKeys space store staging.events entry.tag.device
                      admitted.admission.admission_seq entry.tag.ver (order admitted.admission)
                      bytes staging.aggregates h.aggregates range b))
                  (λ aggregates a.
                    Ends-any S IsApartStaging
                      (staged_tombstone space store staging.ranges range admitted) _
                      (λ tombstone found.
                        Ends-any S IsApartStaging (range_delete_new admitted) _ (λ logged found.
                          Ends-any S IsApartStaging (range_delete_encode logged) _
                            (λ value found. range_staged range tombstone aggregates value b a))))))

      admit_mutation-Ends :
          (mutation : Mutation OpaqueValue)
          → ByteTarget mutation
          → Ends S IsApartStaging (admit_mutation space store admitted mutation staging)
      unfolding admit_mutation
      admit_mutation-Ends (set key value) b = admit_point-Ends key b
      admit_mutation-Ends (delete key) b = admit_point-Ends key b
      admit_mutation-Ends (delete_range range) b = admit_range-Ends range b

    with_events :
        (staging : Staging) (events : List AdmittedEntry)
        → IsApartStaging staging
        → IsApartStaging (record staging { events = events })
    with_events staging events h = record {
      points = h.points;
      ranges = h.ranges;
      aggregates = h.aggregates;
      batch = h.batch;
    }

    module _ (device : DeviceId) (device_seq : DeviceSeq) (seq : AdmissionSeq) where
      admit_entry-Ends :
          (op_index : ℕ) (entry : DeviceEntry) (staging : Staging)
          → ByteTarget entry.mutation
          → IsApartStaging staging
          → Ends S IsApartStaging
              (admit_entry space store device device_seq seq op_index entry staging)
      unfolding admit_entry
      admit_entry-Ends op_index entry staging b h =
          let admitted : AdmittedEntry = record {
            device_entry = entry;
            admission = record { admission_seq = seq; op_index = op_index };
          } in
          let indexed = leb op_index (2 ^ 32 - 1) in
          let matched = (entry.tag.device == device) && (entry.tag.device_seq == device_seq) in
          Ends->>= S (λ u. Unit) IsApartStaging (guard indexed invalid_seal) _
            (guard-Ends S reject indexed invalid_seal)
            (λ i u.
              Ends->>= S (λ u. Unit) IsApartStaging (guard matched invalid_seal) _
                (guard-Ends S reject matched invalid_seal)
                (λ m u.
                  Ends->>= S (λ u. Unit) IsApartStaging (check_seal (validate_payload entry.seal)) _
                    (check_seal-Ends (validate_payload entry.seal))
                    (λ sealed u.
                      Ends->>= S IsApartStaging IsApartStaging
                        (admit_mutation space store admitted entry.mutation staging) _
                        (admit_mutation-Ends admitted staging h entry.mutation b)
                        (λ staged s. with_events staged (staged.events ++ admitted ∷ []) s))))

      pub admit_entries-Ends :
          (op_index : ℕ) (entries : List DeviceEntry) (staging : Staging)
          → All (λ (e : DeviceEntry). ByteTarget e.mutation) entries
          → IsApartStaging staging
          → Ends S IsApartStaging
              (admit_entries space store device device_seq seq op_index entries staging)
      unfolding admit_entries
      admit_entries-Ends op_index [] staging b h = h
      admit_entries-Ends op_index (entry ∷ entries) staging (b, bs) h =
          Ends->>= S IsApartStaging IsApartStaging
            (admit_entry space store device device_seq seq op_index entry staging) _
            (admit_entry-Ends op_index entry staging b h)
            (λ staged s. admit_entries-Ends (op_index + 1) entries staged bs s)
