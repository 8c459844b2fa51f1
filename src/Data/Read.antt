-- ===== src/Data/Read.antt =====
-- server/src/space/data.rs: `get`, `list` and `read_at`, the reads of current state and of the
-- changes since a cursor. `none` is a panic.
use homebase.Prelude.{
  ℕ, ◌+◌, Bool, true, false, List, [], ◌∷◌, ◌++◌, leb, ◌==◌, nat_ord, list_ord, list_cmp,
  if◌then◌else◌, Option, none, some,
}
use homebase.Prelude.Bytes.{Bytes}
use homebase.Key.{Key}
use homebase.Range.{Range, full, prefix}
use homebase.Reader.{◌>>=◌}
use homebase.Messages.{
  GetRequest, GetResponse, ListRequest, ListResponse, RangeCursor, RangeCut, snapshot, delta,
  ReadAtRequest, ReadAtResponse, AdmittedBatch,
}
use homebase.Schema.{SpaceId, data_key, data_scan_all, user_key_from_data}
use homebase.Schema.Heads.{max_admission_seq}
use homebase.Schema.DataRecord.{DataRecord, data_decode}
use homebase.Schema.LeaseRecord.{check}
use homebase.Storage.{in_order, MemoryStore, scan, scan_prefix, prefix_successor}
use homebase.Tag.{AdmissionSeq, AdmittedEntry}
use homebase.Data.{
  data_at, counters_at, effective_history, effective_live_count, point_record_visible,
}
use homebase.Data.Staged.{mutation_relevant}
use homebase.Data.Log.{read_admission_interval}
use Prim.Native.Nat.Ordering.{gt}

-- `Ord::max` of two byte strings.
abbrev bytes_max : Bytes → Bytes → Bytes
bytes_max a b = elim (list_cmp a b) [ gt ↦ a | _ ↦ b ]

abbrev start_of : Option Key → SpaceId → Bytes → Bytes
start_of none space base = base
start_of (some after) space base = bytes_max (data_key space after ++ 0 ∷ []) base

-- `req.limit.is_some_and(|limit| entries.len() >= limit)`
abbrev at_limit : Option ℕ → ℕ → Bool
at_limit none n = false
at_limit (some limit) n = leb limit n

unfoldable pub relevant_entries : Range → List AdmittedEntry → List AdmittedEntry
unfolding mutation_relevant
relevant_entries range [] = []
relevant_entries range (entry ∷ entries) =
    let rest = relevant_entries range entries in
    if mutation_relevant range entry.device_entry.mutation then entry ∷ rest else rest

unfoldable pub relevant_batches : Range → List AdmittedBatch → List AdmittedEntry
unfolding relevant_entries
relevant_batches range [] = []
relevant_batches range (batch ∷ batches) =
    relevant_entries range batch.entries ++ relevant_batches range batches

abbrev scan_of : Range → SpaceId → Bytes
scan_of full space = data_scan_all space
scan_of (prefix p) space = data_key space p

module _ (space : SpaceId) (store : MemoryStore) where
  abbrev visible_entry : Option DataRecord → Option (Option AdmittedEntry)
  visible_entry none = some none
  visible_entry (some rec) = do
    visible ← point_record_visible space store rec
    some (if visible then some rec.entry else none)

  unfoldable pub get_entries : List Key → Option (List (Option AdmittedEntry))
  unfolding data_at point_record_visible
  get_entries [] = some []
  get_entries (key ∷ keys) = do
    stored ← data_at space store key
    entry ← visible_entry stored
    entries ← get_entries keys
    some (entry ∷ entries)

  -- The verb `get`.
  unfoldable pub get_keys : GetRequest → Option GetResponse
  unfolding get_entries
  get_keys req = do entries ← get_entries req.keys; some (record { entries = entries })

  -- The loop of `list`: `n` entries are taken so far.
  unfoldable pub list_loop :
      Option ℕ → ℕ → List (Bytes × Bytes) → Option (List AdmittedEntry × Bool)
  unfolding user_key_from_data data_decode point_record_visible
  list_loop limit n [] = some ([], false)
  list_loop limit n ((storage_key, bytes) ∷ found) = do
    key ← user_key_from_data storage_key
    rec ← data_decode key bytes
    visible ← point_record_visible space store rec
    elim visible [
      | false ↦ list_loop limit n found
      | true ↦ elim (at_limit limit n) [
        | true ↦ some ([], true)
        | false ↦ do
          (entries, truncated) ← list_loop limit (n + 1) found
          some (rec.entry ∷ entries, truncated)
      ]
    ]

  -- The verb `list`. A cursor beyond the prefix is not clamped at its end, and the scan panics.
  unfoldable pub list_entries : ListRequest → Option ListResponse
  unfolding list_loop data_key scan prefix_successor
  list_entries req = do
    let base = data_key space req.prefix
    let start = start_of req.start_after space base
    ordered ← check (in_order start (prefix_successor base))
    (entries, truncated) ← list_loop req.limit 0 (scan store start (prefix_successor base))
    some (record { entries = entries; truncated = truncated })

  -- The loop of `snapshot`.
  unfoldable pub live_entries : List (Bytes × Bytes) → Option (List AdmittedEntry)
  unfolding user_key_from_data data_decode point_record_visible
  live_entries [] = some []
  live_entries ((storage_key, bytes) ∷ found) = do
    key ← user_key_from_data storage_key
    rec ← data_decode key bytes
    visible ← point_record_visible space store rec
    entries ← live_entries found
    some (if visible then rec.entry ∷ entries else entries)

  unfoldable pub snapshot_of : Range → Option (List AdmittedEntry)
  unfolding effective_live_count live_entries scan_prefix data_key data_scan_all
  snapshot_of range = do
    live_count ← effective_live_count space store range
    elim (live_count == 0) [
      | true ↦ some []
      | false ↦ live_entries (scan_prefix store (scan_of range space))
    ]

  unfoldable pub delta_of : Range → AdmissionSeq → AdmissionSeq → Option (List AdmittedEntry)
  unfolding effective_history max_admission_seq read_admission_interval relevant_batches
  delta_of range since at = do
    effective ← effective_history space store range
    elim (leb (max_admission_seq effective.history) since) [
      | true ↦ some []
      | false ↦ do
        batches ← read_admission_interval space store since at
        some (relevant_batches range batches)
    ]

  abbrev cut_of : AdmissionSeq → Range → Option AdmissionSeq → Option RangeCut
  cut_of at range none = do entries ← snapshot_of range; some (snapshot entries)
  cut_of at range (some since) = do entries ← delta_of range since at; some (delta entries)

  unfoldable pub cuts : AdmissionSeq → List RangeCursor → Option (List RangeCut)
  unfolding snapshot_of delta_of
  cuts at [] = some []
  cuts at (cursor ∷ cursors) = do
    cut ← cut_of at cursor.range cursor.since
    rest ← cuts at cursors
    some (cut ∷ rest)

  -- The verb `read_at`.
  unfoldable pub read_at : ReadAtRequest → Option ReadAtResponse
  unfolding counters_at cuts
  read_at req = do
    counters ← counters_at space store
    let at = counters.admission_high_water
    ranges ← cuts at req.ranges
    some (record { at = at; ranges = ranges })
