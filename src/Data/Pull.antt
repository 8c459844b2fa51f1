-- ===== src/Data/Pull.antt =====
-- What `pull` answers (server/src/space/data.rs) on a store that holds the log of what it admitted.
use homebase.Prelude.{
  ℕ, ◌+◌, ◌-◌, ◌≤◌, ◌<◌, ◌^◌, min, ◌≡◌, refl, sym, subst, ap, ◌∙◌, Bool, true, false, List, [], ◌∷◌,
  length, ltb, ==_self, nat_ord, list_ord, Option, some, Result, ok, err, All, arith, if◌then◌else◌,
  Bool-cases, inl, inr,
}
use homebase.Prelude.Bytes.{Bytes}
use homebase.Clock.{u64_max}
use homebase.Key.{IsKey, usize_max}
use homebase.Range.{IsRange}
use homebase.Reader.{◌>>=◌}
use homebase.Messages.{
  AdmittedBatch, PullRequest, PullResponse, KernelError, admission_cursor_ahead,
}
use homebase.Messages.Pull.{validate_dense, Dense, EntriesOf, BatchesFrom, validate_dense_iff}
use homebase.Schema.{SpaceId}
use homebase.Schema.LeaseRecord.{CountersRecord}
use homebase.Schema.Records.{AdmissionHeaderRecord, header_decode}
use homebase.Schema.DataRecord.{data_encode, data_decode}
use homebase.Schema.DataRecord.Codec.{IsEntry, data_decode-encode}
use homebase.Schema.RangeDelete.{RangeDeleteRecord, range_delete_encode, range_delete_decode}
use homebase.Schema.RangeDelete.Codec.{IsTombstone, range_delete_decode-encode}
use homebase.Schema.AdmissionLog.{
  AdmissionTarget, point, range, admission_header_key, admission_op_scan,
}
use homebase.Schema.AdmissionLog.Parts.{IsTarget, op_key, admission_op_parts-key}
use homebase.Storage.{MemoryStore, get, scan_prefix}
use homebase.Tag.{AdmissionSeq, AdmittedEntry, point_key}
use homebase.Data.{counters_at}
use homebase.Data.Log.{
  entry_at, read_operations, read_batch, read_batches, read_admission_interval, pull, limit_of,
  dense_or_panic,
}

-- The value of a log row for an entry on its target: a point record, or a tombstone of the entry.
abbrev pub Row : AdmittedEntry → AdmissionTarget → Bytes → Type 0
Row e (point key) value =
    (point_key e.device_entry.mutation ≡ some key)
    × IsKey key
    × IsEntry e
    × (data_encode (record { entry = e }) ≡ some value)
    × (length value ≤ usize_max)
Row e (range r) value =
    (rec : RangeDeleteRecord) × (rec.entry ≡ e)
    × IsRange r
    × IsTombstone r rec
    × (range_delete_encode rec ≡ some value)
    × (length value ≤ usize_max)

entry_at-Row :
    (e : AdmittedEntry) (target : AdmissionTarget) (value : Bytes)
    → Row e target value
    → (entry_at target value ≡ some e) × IsTarget target
entry_at-Row e (point key) value (p, k, v, f, fits) =
    let (bytes, g, decoded) = data_decode-encode (record { entry = e }) key v p in
    let same : bytes ≡ value = cc in
    let d =
      subst (λ (b : Bytes). length b ≤ usize_max → data_decode key b ≡ some (record { entry = e }))
        same decoded in
    (rw (d fits) refl, k)
entry_at-Row e (range r) value (rec, is, k, v, f, fits) =
    let (bytes, g, decoded) = range_delete_decode-encode r rec v in
    let same : bytes ≡ value = cc in
    let d =
      subst (λ (b : Bytes). length b ≤ usize_max → range_delete_decode r b ≡ some rec) same
        decoded in
    (rw (d fits, is) refl, k)

module _ (space : SpaceId) where
  -- The rows of a batch, from one index on: one for each entry, under the key that its number, its
  -- index and its target make.
  unfoldable pub Rows : AdmissionSeq → ℕ → List AdmittedEntry → List (Bytes × Bytes) → Type 0
  Rows seq index [] [] = Unit
  Rows seq index (e ∷ es) ((key, value) ∷ rows) =
      ((target : AdmissionTarget) × (key ≡ op_key space seq index target) × Row e target value)
      × Rows seq (index + 1) es rows
  Rows seq index es rows = ⊥

  module _ (store : MemoryStore) where
    -- The store holds the batch under its number: its header, and behind the prefix of its
    -- operations the row of every entry and no others.
    pub record Holds (b : AdmittedBatch) : Type 0 where
      pub header_bytes : Bytes
      pub header_stored : get store (admission_header_key space b.admission_seq) ≡ some header_bytes
      pub header_read :
          header_decode header_bytes
          ≡ some (record {
            device = b.device;
            device_seq = b.device_seq;
            checksum = b.checksum;
            operation_count = length b.entries;
          })
      pub rows :
          Rows b.admission_seq 0 b.entries
            (scan_prefix store (admission_op_scan space b.admission_seq))

  module _ (width : length space ≡ 16) where
    read_operations-Rows :
        (b : AdmittedBatch) (header : AdmissionHeaderRecord) (index : ℕ) (es : List AdmittedEntry)
        (rows : List (Bytes × Bytes))
        → header.device ≡ b.device
        → header.device_seq ≡ b.device_seq
        → b.admission_seq < 256 ^ 8
        → index + length es ≤ 256 ^ 4
        → EntriesOf b index es
        → Rows b.admission_seq index es rows
        → read_operations header b.admission_seq index rows ≡ some es
    unfolding read_operations Rows
    read_operations-Rows b header index [] [] hd hs fits room v h = refl
    read_operations-Rows b header index [] (row ∷ rows) hd hs fits room v h = absurd h
    read_operations-Rows b header index (e ∷ es) [] hd hs fits room v h = absurd h
    read_operations-Rows b header index (e ∷ es) ((key, value) ∷ rows) hd hs fits room
          (vs, vi, vd, vq, v) ((target, k, row), h) =
        let (read, valid) = entry_at-Row e target value row in
        let parts =
          admission_op_parts-key space b.admission_seq index target width fits (omega (arith, room))
            valid in
        let device = ==_self header.device in
        let same_device = vd ∙ sym hd in
        let same_seq = vq ∙ sym hs in
        let rest =
          read_operations-Rows b header (index + 1) es rows hd hs fits (omega (arith, room)) v h in
        rw
          (
            k,
            parts,
            ==_self b.admission_seq,
            ==_self index,
            read,
            same_device,
            same_seq,
            ==_self header.device,
            ==_self header.device_seq,
            vs,
            vi,
            ==_self b.admission_seq,
            ==_self index,
            rest,
          )
          refl

    read_batch-Holds :
        (store : MemoryStore) (b : AdmittedBatch)
        → b.admission_seq < 256 ^ 8
        → length b.entries < 2 ^ 32
        → EntriesOf b 0 b.entries
        → Holds store b
        → read_batch space store b.admission_seq ≡ some b
    unfolding read_batch
    read_batch-Holds store b fits room v h =
        let header : AdmissionHeaderRecord = record {
          device = b.device;
          device_seq = b.device_seq;
          checksum = b.checksum;
          operation_count = length b.entries;
        } in
        let read =
          read_operations-Rows b header 0 b.entries
            (scan_prefix store (admission_op_scan space b.admission_seq)) refl refl fits
            (omega (arith, room)) v h.rows in
        rw (h.header_stored, h.header_read, read, ==_self (length b.entries)) refl

    read_batches-Holds :
        (store : MemoryStore) (seq : AdmissionSeq) (batches : List AdmittedBatch)
        → seq + length batches ≤ 256 ^ 8
        → BatchesFrom seq batches
        → All (Holds store) batches
        → read_batches space store (length batches) seq ≡ some batches
    unfolding read_batches
    read_batches-Holds store seq [] fits v h = refl
    read_batches-Holds store seq (b ∷ batches) fits (at, room, v, vs) (h, hs) =
        let first = read_batch-Holds store b (omega (arith, fits, at)) room v h in
        let here : read_batch space store seq ≡ some b =
          subst (λ (n : ℕ). read_batch space store n ≡ some b) at first in
        let rest = read_batches-Holds store (seq + 1) batches (omega (arith, fits)) vs hs in
        rw (here, rest) refl

-- The last number that an answer reaches, at a high water.
abbrev pub through_of : PullRequest → AdmissionSeq → AdmissionSeq
through_of req high_water = req.after + min (high_water - req.after) (limit_of req.max_batches)

abbrev pub page_of : PullRequest → AdmissionSeq → List AdmittedBatch → PullResponse
page_of req high_water batches = record {
  after = req.after;
  through = through_of req high_water;
  batches = batches;
}

-- The answer at known counters, once it is known whether the cursor is ahead.
page :
    SpaceId
    → MemoryStore
    → PullRequest
    → AdmissionSeq
    → Bool
    → Option (Result KernelError PullResponse)
page space store req high_water true = some (err (admission_cursor_ahead req.after high_water))
page space store req high_water false =
    read_admission_interval space store req.after (through_of req high_water) >>= λ batches.
    let response = page_of req high_water batches in
    dense_or_panic response (validate_dense response)

pull-page :
    (space : SpaceId) (store : MemoryStore) (req : PullRequest) (c : CountersRecord) (ahead : Bool)
    → counters_at space store ≡ some c
    → ltb c.admission_high_water req.after ≡ ahead
    → pull space store req ≡ page space store req c.admission_high_water ahead
unfolding pull page
pull-page space store req c ahead counted q =
    rw counted (ap (page space store req c.admission_high_water) q)

-- For a space id of sixteen bytes, a high water below 2^64 - 1 and batches that are the complete
-- interval after the cursor, as far as the high water and the limit of the request allow, where
-- the store holds each of them under its number, with a row for every one of its entries: `pull`
-- does not panic. It answers exactly these batches, or where the cursor is ahead of the high water,
-- the error that says so.
pub pull-Holds :
    (space : SpaceId) (store : MemoryStore) (req : PullRequest) (c : CountersRecord)
    (batches : List AdmittedBatch)
    → length space ≡ 16
    → counters_at space store ≡ some c
    → c.admission_high_water < u64_max
    → Dense (page_of req c.admission_high_water batches)
    → All (Holds space store) batches
    → pull space store req
      ≡ some (
          if ltb c.admission_high_water req.after
          then err (admission_cursor_ahead req.after c.admission_high_water)
          else ok (page_of req c.admission_high_water batches))
unfolding page read_admission_interval
pull-Holds space store req c batches width counted fits (e, v) h =
    elim (Bool-cases (ltb c.admission_high_water req.after)) [
      | inl ahead ↦ rw ahead (pull-page space store req c true counted ahead)
      | inr behind ↦
          let through = through_of req c.admission_high_water in
          let below : req.after ≤ c.admission_high_water = ground (arith, behind) in
          let first : min (req.after + 1) u64_max ≡ req.after + 1 = omega (arith, fits, below) in
          let count : through + 1 - (req.after + 1) ≡ length batches = omega (arith, e) in
          let read =
            read_batches-Holds space width store (req.after + 1) batches
              (omega (arith, e, fits, below)) v h in
          let dense =
            (validate_dense_iff (page_of req c.admission_high_water batches)
                (omega (arith, fits, below))).1
              (e, v) in
          let answered : page space store req c.admission_high_water false
              ≡ some (ok (page_of req c.admission_high_water batches)) =
            rw (first, count, read, dense) refl in
          rw behind (pull-page space store req c false counted behind ∙ answered)
    ]
