-- ===== src/Data/Footprint/Batch.antt =====
-- What the whole plan of an admission comes to: its batches are numbered one by one, and what it
-- writes stands apart from the lease table, with the device's high water and the counters last.
use homebase.Prelude.{
  ℕ, zero, suc, ◌+◌, ◌-◌, ◌^◌, ◌<◌, ◌≡◌, refl, sym, ◌∙◌, List, [], ◌∷◌, ◌++◌, length, append_assoc,
  append-nil, some, leb, nat_ord, list_ord, All, All-append, arith,
}
use homebase.Prelude.Bytes.{Bytes, IsByte}
use homebase.Prelude.Map.{Map}
use homebase.Prelude.Attempt.{Ends, Ends->>=, Ends-map, Ends-any}
use homebase.Key.{Key}
use homebase.Range.{Range}
use homebase.Messages.{
  invalid_seal, range_assert_failed, RangeAssertFailure, AdmissionBatch, AdmissionResponse,
  AdmissionResult, applied,
}
use homebase.Schema.{SpaceId, data_key, range_delete_key, device_key, counters_key}
use homebase.Schema.LeaseRecord.{CountersRecord, counters_encode}
use homebase.Schema.Records.{DeviceRecord, device_encode}
use homebase.Schema.DataRecord.{DataRecord, data_encode}
use homebase.Schema.RangeDelete.{RangeDeleteRecord, range_delete_encode}
use homebase.Storage.{MemoryStore, WriteBatch, put}
use homebase.Storage.Store.{last_op, last_op-append, last_op-last, last_op-first}
use homebase.Tag.{AdmissionSeq, DeviceChecksum, DeviceEntry, DeviceId}
use homebase.Leases.Frame.{ApartOp}
use homebase.Data.Counts.{Aggregates}
use homebase.Data.Staged.{range_assert_failures}
use homebase.Data.Staging.{Exit, rejected, answered, guard, admit_entries}
use homebase.Data.Admit.{
  failed_response, Turn, assert_answer, admit_batch, admit_batches, put_points, put_ranges,
  put_aggregates, put_device,
}
use homebase.Data.Keys.{
  ByteKey, ByteRange, header_key-IsApart, data_key-IsApart, range_delete_key-IsApart,
  device_key-IsApart, counters_key-IsApart, device_key-counters_key,
}
use homebase.Data.Footprint.{ApartKeys}
use homebase.Data.Footprint.Operations.{ByteTarget, IsApartStaging, guard-Ends, admit_entries-Ends}

-- The answers to `n` batches that are applied from one number on.
unfoldable pub applied_from : AdmissionSeq → ℕ → List AdmissionResult
applied_from seq zero = []
applied_from seq (suc n) = applied seq ∷ applied_from (seq + 1) n

-- The targets of all the entries are made of byte strings.
abbrev pub ByteBatch : AdmissionBatch → Type 0
ByteBatch batch = All (λ (e : DeviceEntry). ByteTarget e.mutation) batch.entries

-- An answer in place of an admission reports failed assertions, once for each batch.
abbrev pub Refused : ℕ → DeviceChecksum → AdmissionResponse → Type 0
Refused count current response =
    (failure : RangeAssertFailure) × (failures : List RangeAssertFailure) × (response
      ≡ failed_response count (range_assert_failed (failure ∷ failures)) current)

abbrev pub Stopped : ℕ → DeviceChecksum → Exit → Type 0
Stopped count current (rejected error) = Unit
Stopped count current (answered response) = Refused count current response

module _ (space : SpaceId) (bytes : All IsByte space) where
  -- What `n` batches make of a turn.
  pub record IsTurn (start : Turn) (n : ℕ) (turn : Turn) : Type 0 where
    pub apart : IsApartStaging space bytes turn.staging
    pub numbered : turn.results ≡ start.results ++ applied_from start.next_admission_seq n
    pub next : turn.next_admission_seq ≡ start.next_admission_seq + n

  module _ (store : MemoryStore) (device : DeviceId) where
    module _ (sha256 : Bytes → Bytes) (count : ℕ) (current : DeviceChecksum) where
      abbrev S : Exit → Type 0
      S = Stopped count current

      assert_answer-Ends :
          (failures : List RangeAssertFailure)
          → Ends S (λ u. Unit) (assert_answer space store device sha256 count current failures)
      assert_answer-Ends [] = tt
      assert_answer-Ends (failure ∷ failures) = (failure, failures, refl)

      admit_batch-IsTurn :
          (batch : AdmissionBatch) (turn : Turn)
          → ByteBatch batch
          → IsApartStaging space bytes turn.staging
          → turn.next_admission_seq + 1 < 2 ^ 64
          → Ends S (IsTurn turn 1) (admit_batch space store device sha256 count current batch turn)
      unfolding admit_batch applied_from
      admit_batch-IsTurn batch turn b h fits =
          let seq = turn.next_admission_seq in
          let Q = IsTurn turn 1 in
          let counted = leb (length batch.entries) (2 ^ 32 - 1) in
          Ends-any S Q (range_assert_failures space store device batch.range_asserts) _
            (λ failures found.
              Ends->>= S (λ u. Unit) Q
                (assert_answer space store device sha256 count current failures) _
                (assert_answer-Ends failures)
                (λ asserted u.
                  Ends->>= S (λ u. Unit) Q (guard counted invalid_seal) _
                    (guard-Ends S (λ error. tt) counted invalid_seal)
                    (λ c u.
                      Ends->>= S (IsApartStaging space bytes) Q
                        (admit_entries space store device batch.device_seq seq 0 batch.entries
                          turn.staging)
                        _
                        (admit_entries-Ends space bytes S (λ error. tt) store device
                          batch.device_seq seq 0 batch.entries turn.staging b h)
                        (λ staged s. record {
                          apart = record {
                            points = s.points;
                            ranges = s.ranges;
                            aggregates = s.aggregates;
                            batch =
                                All-append (ApartOp space) staged.batch _ s.batch
                                  (header_key-IsApart space bytes seq, tt);
                          };
                          numbered = refl;
                          next = omega (arith, fits);
                        }))))

      IsTurn-trans :
          (start middle turn : Turn) (n : ℕ)
          → IsTurn start 1 middle
          → IsTurn middle n turn
          → IsTurn start (suc n) turn
      unfolding applied_from
      IsTurn-trans start middle turn n i j = record {
        apart = j.apart;
        numbered =
            j.numbered
            ∙ rw (i.numbered, i.next) refl
            ∙ append_assoc start.results (applied start.next_admission_seq ∷ [])
                (applied_from (start.next_admission_seq + 1) n);
        next = omega (arith, i.next, j.next);
      }

      pub admit_batches-IsTurn :
          (batches : List AdmissionBatch) (turn : Turn)
          → All ByteBatch batches
          → IsApartStaging space bytes turn.staging
          → turn.next_admission_seq + length batches < 2 ^ 64
          → Ends S
              (IsTurn turn (length batches))
              (admit_batches space store device sha256 count current batches turn)
      unfolding admit_batches applied_from
      admit_batches-IsTurn [] turn b h fits = record {
        apart = h;
        numbered = sym (append-nil turn.results);
        next = omega arith;
      }
      admit_batches-IsTurn (batch ∷ batches) turn (b, bs) h fits =
          Ends->>= S (IsTurn turn 1) (IsTurn turn (suc (length batches)))
            (admit_batch space store device sha256 count current batch turn) _
            (admit_batch-IsTurn batch turn b h (omega (arith, fits)))
            (λ middle i.
              Ends-map S (IsTurn middle (length batches)) (IsTurn turn (suc (length batches)))
                (admit_batches space store device sha256 count current batches middle)
                (admit_batches-IsTurn batches middle bs i.apart (omega (arith, fits, i.next)))
                (λ last j. IsTurn-trans turn middle last (length batches) i j))

    module _ (S : Exit → Type 0) where
      pub put_points-apart :
          (points : Map Key DataRecord) (batch : WriteBatch)
          → All (λ (e : Key × DataRecord). ByteKey e.0) points
          → All (ApartOp space) batch
          → Ends S (All (ApartOp space)) (put_points space store device points batch)
      unfolding put_points
      put_points-apart [] batch b h = h
      put_points-apart ((key, rec) ∷ points) batch (b, bs) h =
          Ends-any S (All (ApartOp space)) (data_encode rec) _ (λ value found.
            put_points-apart points (batch ++ put (data_key space key) value ∷ []) bs
              (All-append (ApartOp space) batch _ h (data_key-IsApart space bytes key b, tt)))

      pub put_ranges-apart :
          (ranges : Map Range RangeDeleteRecord) (batch : WriteBatch)
          → All (λ (e : Range × RangeDeleteRecord). ByteRange e.0) ranges
          → All (ApartOp space) batch
          → Ends S (All (ApartOp space)) (put_ranges space store device ranges batch)
      unfolding put_ranges
      put_ranges-apart [] batch b h = h
      put_ranges-apart ((range, rec) ∷ ranges) batch (b, bs) h =
          Ends-any S (All (ApartOp space)) (range_delete_encode rec) _ (λ value found.
            put_ranges-apart ranges (batch ++ put (range_delete_key space range) value ∷ []) bs (
              All-append (ApartOp space) batch _ h
                (range_delete_key-IsApart space bytes range b, tt)))

    pub put_aggregates-apart :
        (aggregates : Aggregates) (batch : WriteBatch)
        → ApartKeys space aggregates
        → All (ApartOp space) batch
        → All (ApartOp space) (put_aggregates space store device aggregates batch)
    unfolding put_aggregates
    put_aggregates-apart [] batch a h = h
    put_aggregates-apart ((key, rec) ∷ aggregates) batch (a, as') h =
        put_aggregates-apart aggregates _ as' (All-append (ApartOp space) batch _ h (a, tt))

    -- The batch ends with the device's record and the counters.
    pub put_device-apart :
        (rec : DeviceRecord) (c : CountersRecord) (batch : WriteBatch)
        → All IsByte device
        → All (ApartOp space) batch
        → All (ApartOp space) (put_device space store device rec c batch)
          × (last_op (counters_key space) (put_device space store device rec c batch)
              ≡ some (some (counters_encode c)))
          × (last_op (device_key space device) (put_device space store device rec c batch)
              ≡ some (some (device_encode rec)))
    unfolding put_device
    put_device-apart rec c batch d h =
        let ops =
          put (device_key space device) (device_encode rec)
          ∷ put (counters_key space) (counters_encode c)
          ∷ [] in
        (
          All-append (ApartOp space) batch ops h
              (device_key-IsApart space bytes device d, (counters_key-IsApart space bytes, tt)),
          last_op-append (counters_key space) batch ops (some (counters_encode c)) (
              last_op-append (counters_key space)
                (put (device_key space device) (device_encode rec) ∷ [])
                (put (counters_key space) (counters_encode c) ∷ []) (some (counters_encode c))
                (last_op-last (counters_key space) (counters_encode c))),
          last_op-append (device_key space device) batch ops (some (device_encode rec)) (
              last_op-first (device_key space device) (counters_key space) (device_encode rec)
                (counters_encode c) (device_key-counters_key space bytes device)),
        )
