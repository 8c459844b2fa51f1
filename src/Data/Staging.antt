-- ===== src/Data/Staging.antt =====
-- server/src/space/data.rs: one operation of an admission, checked against the stored state and
-- what the request has staged so far.
use homebase.Prelude.{
  ℕ, ◌+◌, ◌^◌, ◌-◌, Bool, true, false, not, ◌&&◌, List, [], ◌∷◌, ◌++◌, leb, ◌==◌, nat_ord, list_ord,
  if◌then◌else◌, Option, none, some, Result, ok, err,
}
use homebase.Prelude.Map.{Map, map_insert}
use homebase.Prelude.Attempt.{Attempt, stop, go, expect, ◌>>=◌}
use homebase.Key.{Key}
use homebase.Range.{Range}
use homebase.Range.Order.{range_ord}
use mathlib.Core.Option
use homebase.Messages.{
  KernelError, invalid_seal, ver_regression, range_ver_regression, AdmissionResponse,
}
use homebase.Schema.{SpaceId}
use homebase.Schema.Heads.{max_admission_seq}
use homebase.Schema.DataRecord.{DataRecord, data_encode}
use homebase.Schema.RangeDelete.{RangeDeleteRecord, range_delete_new, range_delete_encode}
use homebase.Schema.AdmissionLog.{admission_op_key, admission_range_op_key}
use homebase.Seal.{SealPayloadError, validate_payload}
use homebase.Storage.{MemoryStore, WriteBatch, put}
use homebase.Tag.{
  AdmissionSeq, AdmittedEntry, DeviceEntry, DeviceId, DeviceSeq, Mutation, set, delete,
  delete_range, OpaqueValue, Ver, entry_ver, is_set, order,
}
use homebase.Data.{
  point_record_visible_with_events, covering_range_max_ver, effective_history, max_ver,
}
use homebase.Data.Staged.{mutation_relevant, resets, events_max_ver, prior_record, staged_tombstone}
use homebase.Data.Counts.{Aggregates, apply_point_count, apply_range_count, count_delta}

-- How `admit` ends before its write: with an error, or with an answer that reports a failure.
pub data Exit : Type 0 where
  rejected : KernelError → Exit
  answered : AdmissionResponse → Exit

-- What the request has staged.
pub record Staging : Type 0 where
  pub points : Map Key DataRecord
  pub ranges : Map Range RangeDeleteRecord
  pub events : List AdmittedEntry
  pub aggregates : Aggregates
  pub batch : WriteBatch

abbrev pub staging_empty : Staging
staging_empty = record { points = []; ranges = []; events = []; aggregates = []; batch = [] }

-- A test that rejects the request where it fails.
abbrev pub guard : Bool → KernelError → Attempt Exit (Unit {0})
guard true error = go tt
guard false error = stop (rejected error)

-- The version must exceed the current one, if there is one.
unfoldable pub check_ver : (Ver → KernelError) → Option Ver → Ver → Attempt Exit (Unit {0})
check_ver error none ver = go tt
check_ver error (some current) ver = guard (not (leb ver current)) (error current)

abbrev pub check_seal : Result SealPayloadError (Unit {0}) → Attempt Exit (Unit {0})
check_seal (ok done) = go tt
check_seal (err error) = stop (rejected invalid_seal)

module _ (space : SpaceId) (store : MemoryStore) where
  module _ (admitted : AdmittedEntry) where
    -- The arm of `Set` and `Delete`. The device of the tag is that of the request, which
    -- `admit_entry` has checked.
    unfoldable pub admit_point : Key → Staging → Attempt Exit Staging
    unfolding prior_record point_record_visible_with_events covering_range_max_ver max_ver
        events_max_ver resets check_ver is_set apply_point_count data_encode admission_op_key
    admit_point key staging = do
      let entry = admitted.device_entry
      let seq = admitted.admission.admission_seq
      prior ← expect (prior_record space store staging.points key)
      prior_live ← expect (point_record_visible_with_events space store prior staging.events)
      covering ← expect (covering_range_max_ver space store key)
      let stored_ver = Option.map (λ (rec : DataRecord). entry_ver rec.entry) prior
      let current =
          max_ver (max_ver stored_ver covering) (events_max_ver (resets key) staging.events)
      checked ←
          check_ver (λ current. ver_regression key current entry.tag.ver) current entry.tag.ver
      aggregates ← expect (
          apply_point_count space store staging.events entry.tag.device seq entry.tag.ver
            (order admitted.admission) staging.aggregates key
            (count_delta (is_set entry.mutation) prior_live))
      bytes ← expect (data_encode (record { entry = admitted }))
      go (record staging {
        points = map_insert key (record { entry = admitted }) staging.points;
        aggregates = aggregates;
        batch =
            staging.batch
            ++ put (admission_op_key space seq admitted.admission.op_index key) bytes ∷ [];
      })

    -- The arm of `DeleteRange`.
    unfoldable pub admit_range : Range → Staging → Attempt Exit Staging
    unfolding effective_history max_admission_seq max_ver events_max_ver mutation_relevant check_ver
        apply_range_count staged_tombstone range_delete_new range_delete_encode
        admission_range_op_key
    admit_range range staging = do
      let entry = admitted.device_entry
      let seq = admitted.admission.admission_seq
      effective ← expect (effective_history space store range)
      let stored_ver =
          if max_admission_seq effective.history == 0 then none else some effective.max_ver
      let current = max_ver stored_ver (events_max_ver (mutation_relevant range) staging.events)
      checked ←
          check_ver (λ current. range_ver_regression range current entry.tag.ver) current
            entry.tag.ver
      aggregates ← expect (
          apply_range_count space store staging.events entry.tag.device seq entry.tag.ver
            (order admitted.admission) staging.aggregates range)
      tombstone ← expect (staged_tombstone space store staging.ranges range admitted)
      logged ← expect (range_delete_new admitted)
      bytes ← expect (range_delete_encode logged)
      go (record staging {
        ranges = map_insert range tombstone staging.ranges;
        aggregates = aggregates;
        batch =
            staging.batch
            ++ put (admission_range_op_key space seq admitted.admission.op_index range) bytes ∷ [];
      })

    unfoldable pub admit_mutation : Mutation OpaqueValue → Staging → Attempt Exit Staging
    unfolding admit_point admit_range
    admit_mutation (set key value) staging = admit_point key staging
    admit_mutation (delete key) staging = admit_point key staging
    admit_mutation (delete_range range) staging = admit_range range staging

  module _ (device : DeviceId) (device_seq : DeviceSeq) (seq : AdmissionSeq) where
    -- The body of the loop over the entries of a batch.
    unfoldable pub admit_entry : ℕ → DeviceEntry → Staging → Attempt Exit Staging
    unfolding validate_payload admit_mutation
    admit_entry op_index entry staging =
        let admitted : AdmittedEntry = record {
          device_entry = entry;
          admission = record { admission_seq = seq; op_index = op_index };
        } in
        do
          indexed ← guard (leb op_index (2 ^ 32 - 1)) invalid_seal
          matched ←
              guard ((entry.tag.device == device) && (entry.tag.device_seq == device_seq))
                invalid_seal
          sealed ← check_seal (validate_payload entry.seal)
          staged ← admit_mutation admitted entry.mutation staging
          go (record staged { events = staged.events ++ admitted ∷ [] })

    unfoldable pub admit_entries : ℕ → List DeviceEntry → Staging → Attempt Exit Staging
    unfolding admit_entry
    admit_entries op_index [] staging = go staging
    admit_entries op_index (entry ∷ entries) staging = do
      staged ← admit_entry op_index entry staging
      admit_entries (op_index + 1) entries staged
