-- ===== src/Data/Admit.antt =====
-- server/src/space/data.rs: `admit`, from the device's history to the one atomic write.
use homebase.Prelude.{
  ℕ, ◌+◌, ◌-◌, ◌%◌, ◌^◌, Bool, true, false, not, ◌||◌, List, [], ◌∷◌, ◌++◌, length, leb, ◌==◌,
  nat_ord, list_ord, Option, none, some, Result, ok, err, replicate,
}
use homebase.Prelude.Bytes.{Bytes}
use homebase.Prelude.Map.{Map}
use homebase.Prelude.Attempt.{Attempt, panic, stop, go, expect, ◌>>=◌}
use homebase.Key.{Key}
use homebase.Range.{Range}
use homebase.Data.Staged.{range_assert_failures}
use homebase.Clock.{Timestamp}
use homebase.Messages.{
  KernelError, invalid_seal, range_assert_failed, device_seq_regression, device_checksum_mismatch,
  RangeAssertFailure, AdmissionBatch, AdmissionRequest, AdmissionResponse, AdmissionResult, applied,
  failed,
}
use homebase.Messages.Checksum.{batch_checksum}
use homebase.Schema.{SpaceId, data_key, range_delete_key, device_key, counters_key}
use homebase.Schema.LeaseRecord.{CountersRecord, counters_encode}
use homebase.Schema.Records.{
  meta_encode, DeviceRecord, device_encode, AdmissionHeaderRecord, header_encode,
}
use homebase.Schema.DataRecord.{DataRecord, data_encode}
use homebase.Schema.RangeDelete.{RangeDeleteRecord, range_delete_encode}
use homebase.Schema.AdmissionLog.{admission_header_key}
use homebase.Storage.{MemoryStore, WriteBatch, put, apply}
use homebase.Tag.{
  AdmissionSeq, DeviceChecksum, DeviceEntry, DeviceId, DeviceSeq, set, delete, delete_range,
  checksum_empty,
}
use homebase.Leases.Verbs.{validate_writes}
use homebase.Data.{device_at, counters_at}
use homebase.Data.Counts.{Aggregates}
use homebase.Data.Staging.{Exit, rejected, answered, Staging, staging_empty, guard, admit_entries}

-- `device_record.map_or(…)`
abbrev pub last_seq_of : Option DeviceRecord → DeviceSeq
last_seq_of none = 0
last_seq_of (some rec) = rec.last_seq

abbrev pub checksum_of : Option DeviceRecord → DeviceChecksum
checksum_of none = checksum_empty
checksum_of (some rec) = rec.checksum

-- The loop over the sequence numbers of the batches; it gives the last of them.
unfoldable pub check_seqs : Bool → DeviceSeq → List AdmissionBatch → Attempt Exit DeviceSeq
check_seqs first last [] = go last
check_seqs first last (batch ∷ batches) = do
  increasing ← guard (not (leb batch.device_seq last)) (device_seq_regression last batch.device_seq)
  consecutive ←
      guard (first || batch.device_seq == (last + 1) % 2 ^ 64)
        (device_seq_regression last batch.device_seq)
  check_seqs false batch.device_seq batches

unfoldable pub entries_of : List AdmissionBatch → List DeviceEntry
entries_of [] = []
entries_of (batch ∷ batches) = batch.entries ++ entries_of batches

unfoldable pub point_keys : List DeviceEntry → List Key
point_keys [] = []
point_keys (entry ∷ entries) = elim entry.mutation [
  | set key value ↦ key ∷ point_keys entries
  | delete key ↦ key ∷ point_keys entries
  | delete_range range ↦ point_keys entries
]

unfoldable pub range_targets : List DeviceEntry → List Range
range_targets [] = []
range_targets (entry ∷ entries) = elim entry.mutation [
  | set key value ↦ range_targets entries
  | delete key ↦ range_targets entries
  | delete_range range ↦ range ∷ range_targets entries
]

unfoldable pub failed_response : ℕ → KernelError → DeviceChecksum → AdmissionResponse
failed_response count error checksum = record {
  checksum = checksum;
  results = replicate count (failed error);
}

abbrev pub attempted : Option (Result KernelError (Unit {0})) → Attempt Exit (Unit {0})
attempted none = panic
attempted (some (ok done)) = go tt
attempted (some (err error)) = stop (rejected error)

-- What the loop over the batches carries.
pub record Turn : Type 0 where
  pub staging : Staging
  pub next_admission_seq : AdmissionSeq
  pub next_checksum : DeviceChecksum
  pub results : List AdmissionResult

module _ (space : SpaceId) (store : MemoryStore) (device : DeviceId) where
  module _ (sha256 : Bytes → Bytes) (count : ℕ) (current : DeviceChecksum) where
    abbrev pub assert_answer : List RangeAssertFailure → Attempt Exit (Unit {0})
    assert_answer [] = go tt
    assert_answer (failure ∷ failures) =
        stop (answered (failed_response count (range_assert_failed (failure ∷ failures)) current))

    -- The body of the loop over the batches.
    unfoldable pub admit_batch : AdmissionBatch → Turn → Attempt Exit Turn
    unfolding range_assert_failures failed_response batch_checksum admit_entries
        admission_header_key header_encode
    admit_batch batch turn = do
      failures ← expect (range_assert_failures space store device batch.range_asserts)
      asserted ← assert_answer failures
      let checksum = batch_checksum sha256 turn.next_checksum space device batch
      let seq = turn.next_admission_seq
      counted ← guard (leb (length batch.entries) (2 ^ 32 - 1)) invalid_seal
      staged ← admit_entries space store device batch.device_seq seq 0 batch.entries turn.staging
      let header : AdmissionHeaderRecord = record {
        device = device;
        device_seq = batch.device_seq;
        checksum = checksum;
        operation_count = length batch.entries;
      }
      go (record {
        staging = record staged {
          batch = staged.batch ++ put (admission_header_key space seq) (header_encode header) ∷ [];
        };
        next_admission_seq = (seq + 1) % 2 ^ 64;
        next_checksum = checksum;
        results = turn.results ++ applied seq ∷ [];
      })

    unfoldable pub admit_batches : List AdmissionBatch → Turn → Attempt Exit Turn
    unfolding admit_batch
    admit_batches [] turn = go turn
    admit_batches (batch ∷ batches) turn = do
      turn' ← admit_batch batch turn
      admit_batches batches turn'

  -- The materialized records, after the log.
  unfoldable pub put_points : Map Key DataRecord → WriteBatch → Attempt Exit WriteBatch
  unfolding data_key data_encode
  put_points [] batch = go batch
  put_points ((key, rec) ∷ points) batch = do
    bytes ← expect (data_encode rec)
    put_points points (batch ++ put (data_key space key) bytes ∷ [])

  unfoldable pub put_ranges : Map Range RangeDeleteRecord → WriteBatch → Attempt Exit WriteBatch
  unfolding range_delete_key range_delete_encode
  put_ranges [] batch = go batch
  put_ranges ((range, rec) ∷ ranges) batch = do
    bytes ← expect (range_delete_encode rec)
    put_ranges ranges (batch ++ put (range_delete_key space range) bytes ∷ [])

  unfoldable pub put_aggregates : Aggregates → WriteBatch → WriteBatch
  unfolding meta_encode
  put_aggregates [] batch = batch
  put_aggregates ((key, rec) ∷ aggregates) batch =
      put_aggregates aggregates (batch ++ put key (meta_encode rec) ∷ [])

  -- The device's high water and the counters, which end the write.
  unfoldable pub put_device : DeviceRecord → CountersRecord → WriteBatch → WriteBatch
  unfolding device_key device_encode counters_key counters_encode
  put_device rec counters batch =
      batch
      ++ put (device_key space device) (device_encode rec)
        ∷ put (counters_key space) (counters_encode counters)
        ∷ []

module _ (sha256 : Bytes → Bytes) (space : SpaceId) (store : MemoryStore) (now : Timestamp) where
  -- Everything before the write: the answer, and what there is to write.
  unfoldable pub admit_plan : AdmissionRequest → Attempt Exit (WriteBatch × AdmissionResponse)
  unfolding device_at check_seqs entries_of point_keys range_targets validate_writes counters_at
      admit_batches put_points put_ranges put_aggregates put_device
  admit_plan req = do
    device_record ← expect (device_at space store req.device)
    let current_checksum = checksum_of device_record
    let current_seq = last_seq_of device_record
    confirmed ←
        guard (req.expected_checksum == current_checksum)
          (device_checksum_mismatch current_seq current_checksum)
    last_seq ← check_seqs true current_seq req.batches
    let entries = entries_of req.batches
    allowed ← attempted (
        validate_writes space store now req.device req.evidence (point_keys entries)
          (range_targets entries))
    counters ← expect (counters_at space store)
    let start : Turn = record {
      staging = staging_empty;
      next_admission_seq = (counters.admission_high_water + 1) % 2 ^ 64;
      next_checksum = current_checksum;
      results = [];
    }
    turn ←
        admit_batches space store req.device sha256 (length req.batches) current_checksum
          req.batches start
    points ← put_points space store req.device turn.staging.points turn.staging.batch
    ranges ← put_ranges space store req.device turn.staging.ranges points
    let high_water = (turn.next_admission_seq + (2 ^ 64 - 1)) % 2 ^ 64
    let batch =
        put_device space store req.device
          (record { last_seq = last_seq; checksum = turn.next_checksum })
          (record counters { admission_high_water = high_water })
          (put_aggregates space store req.device turn.staging.aggregates ranges)
    go (batch, record { checksum = turn.next_checksum; results = turn.results })

  abbrev pub committed :
      Attempt Exit (WriteBatch × AdmissionResponse)
      → Option (MemoryStore × Result KernelError AdmissionResponse)
  committed panic = none
  committed (stop (rejected error)) = some (store, err error)
  committed (stop (answered response)) = some (store, ok response)
  committed (go (batch, response)) = some (apply store batch, ok response)

  unfoldable pub admit :
      AdmissionRequest → Option (MemoryStore × Result KernelError AdmissionResponse)
  unfolding admit_plan apply
  admit req = committed (admit_plan req)
