-- ===== src/Data/Log.antt =====
-- server/src/space/data.rs: `pull` and `read_admission_interval`, the replay of the admission log.
-- `none` is a panic.
use homebase.Prelude.{
  ℕ, zero, suc, ◌+◌, ◌-◌, min, true, false, ◌&&◌, List, [], ◌∷◌, length, ltb, ◌==◌, nat_ord,
  list_ord, Option, none, some, Result, ok, err,
}
use homebase.Prelude.Bytes.{Bytes}
use homebase.Clock.{u64_max}
use homebase.Reader.{◌>>=◌}
use homebase.Messages.{
  AdmittedBatch, PullRequest, PullResponse, KernelError, admission_cursor_ahead,
}
use homebase.Messages.Pull.{PullDensityError, validate_dense}
use homebase.Schema.{SpaceId}
use homebase.Schema.LeaseRecord.{check}
use homebase.Schema.Records.{AdmissionHeaderRecord, header_decode}
use homebase.Schema.DataRecord.{data_decode}
use homebase.Schema.RangeDelete.{range_delete_decode}
use homebase.Schema.AdmissionLog.{
  AdmissionTarget, point, range, admission_header_key, admission_op_scan, admission_op_parts,
}
use homebase.Storage.{MemoryStore, get, scan_prefix}
use homebase.Tag.{AdmissionSeq, AdmittedEntry}
use homebase.Data.{counters_at}

abbrev pub entry_at : AdmissionTarget → Bytes → Option AdmittedEntry
entry_at (point key) bytes = do rec ← data_decode key bytes; some rec.entry
entry_at (range target) bytes = do rec ← range_delete_decode target bytes; some rec.entry

-- The loop over the operations of one batch; its assertions are panics.
unfoldable pub read_operations :
    AdmissionHeaderRecord → AdmissionSeq → ℕ → List (Bytes × Bytes) → Option (List AdmittedEntry)
unfolding admission_op_parts data_decode range_delete_decode
read_operations header admission_seq index [] = some []
read_operations header admission_seq index ((storage_key, bytes) ∷ operations) = do
  (stored_seq, op_index, target) ← admission_op_parts storage_key
  right_batch ← check (stored_seq == admission_seq)
  no_gap ← check (op_index == index)
  entry ← entry_at target bytes
  same_device ← check (entry.device_entry.tag.device == header.device)
  same_seq ← check (entry.device_entry.tag.device_seq == header.device_seq)
  same_order ←
      check
        ((entry.admission.admission_seq == admission_seq) && (entry.admission.op_index == op_index))
  entries ← read_operations header admission_seq (index + 1) operations
  some (entry ∷ entries)

-- The least end of a page that the request allows.
abbrev pub limit_of : Option ℕ → ℕ
limit_of none = u64_max
limit_of (some limit) = limit

abbrev pub dense_or_panic :
    PullResponse → Result PullDensityError (Unit {0}) → Option (Result KernelError PullResponse)
dense_or_panic response (ok done) = some (ok response)
dense_or_panic response (err error) = none

module _ (space : SpaceId) (store : MemoryStore) where
  -- One batch of the log, under its header.
  unfoldable pub read_batch : AdmissionSeq → Option AdmittedBatch
  unfolding header_decode admission_header_key admission_op_scan scan_prefix read_operations
  read_batch admission_seq = do
    stored ← get store (admission_header_key space admission_seq)
    header ← header_decode stored
    entries ←
        read_operations header admission_seq 0
          (scan_prefix store (admission_op_scan space admission_seq))
    counted ← check (length entries == header.operation_count)
    some (record {
      admission_seq = admission_seq;
      device = header.device;
      device_seq = header.device_seq;
      checksum = header.checksum;
      entries = entries;
    })

  -- `n` batches from one sequence number on.
  unfoldable pub read_batches : ℕ → AdmissionSeq → Option (List AdmittedBatch)
  unfolding read_batch
  read_batches zero raw_seq = some []
  read_batches (suc n) raw_seq = do
    batch ← read_batch raw_seq
    batches ← read_batches n (raw_seq + 1)
    some (batch ∷ batches)

  -- The sequence numbers are `after.saturating_add(1)..=through`.
  unfoldable pub read_admission_interval : AdmissionSeq → AdmissionSeq → Option (List AdmittedBatch)
  unfolding read_batches
  read_admission_interval after through =
      let first = min (after + 1) u64_max in read_batches (through + 1 - first) first

  unfoldable pub pull : PullRequest → Option (Result KernelError PullResponse)
  unfolding counters_at read_admission_interval validate_dense
  pull req = do
    counters ← counters_at space store
    let high_water = counters.admission_high_water
    let through = req.after + min (high_water - req.after) (limit_of req.max_batches)
    elim (ltb high_water req.after) [
      | true ↦ some (err (admission_cursor_ahead req.after high_water))
      | false ↦ do
        batches ← read_admission_interval req.after through
        let response : PullResponse = record {
          after = req.after;
          through = through;
          batches = batches;
        }
        dense_or_panic response (validate_dense response)
    ]
