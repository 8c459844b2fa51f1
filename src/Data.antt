-- ===== src/Data.antt =====
-- server/src/space/data.rs: the data plane of one space over its store. `none` is a panic, on a
-- corrupt record. Here: what a read sees of the records. The store is the reference store, whose
-- operations never fail; it is changed by the one `apply` of `admit` alone.
pub mod Counts
pub mod Staged
pub mod Staging
pub mod Admit
pub mod Log
pub mod Read
pub mod Sequence
pub mod Keys
pub mod Footprint
pub mod Visible
pub mod Written
pub mod Pull
pub mod Outcome
pub mod Examples
use homebase.Prelude.{
  ℕ, max, Bool, true, false, List, [], ◌∷◌, ◌==◌, nat_ord, if◌then◌else◌, Option, none, some,
}
use homebase.Prelude.Bytes.{Bytes}
use homebase.Key.{Key}
use homebase.Range.{Range, full, prefix, covers_range}
use homebase.Reader.{◌>>=◌}
use mathlib.Core.Option
use homebase.Schema.{
  SpaceId, data_key, prefix_meta_key, root_meta_key, range_delete_key, device_key, counters_key,
}
use homebase.Schema.LeaseRecord.{CountersRecord, counters_default, counters_decode}
use homebase.Schema.Heads.{HistoricalHeads, heads_merge}
use homebase.Schema.Records.{PrefixMetaRecord, meta_empty, meta_decode, DeviceRecord, device_decode}
use homebase.Schema.DataRecord.{DataRecord, data_decode}
use homebase.Schema.RangeDelete.{
  RangeDeleteRecord, range_delete_decode, range_delete_parts, covering_range_delete_keys,
}
use homebase.Storage.{MemoryStore, get}
use homebase.Tag.{
  AdmissionOrder, AdmittedEntry, DeviceId, Mutation, set, delete, delete_range, OpaqueValue, Ver,
  order, order_lt, order_max,
}

-- `.map(|bytes| decode(bytes).expect(…))`
abbrev pub decoded {ℓ} : {A : Type ℓ} → (Bytes → Option A) → Option Bytes → Option (Option A)
decoded decode none = some none
decoded decode (some bytes) = Option.map some (decode bytes)

-- Does nothing, or something older, stand in the way of this order?
abbrev pub after : Option AdmissionOrder → AdmissionOrder → Bool
after none o = true
after (some reset) o = order_lt reset o

abbrev pub record_order : RangeDeleteRecord → AdmissionOrder
record_order rec = order rec.entry.admission

abbrev newer : Option RangeDeleteRecord → RangeDeleteRecord → RangeDeleteRecord
newer none rec = rec
newer (some current) rec =
    if order_lt (record_order current) (record_order rec) then rec else current

-- The loop of `covering_range_delete` over the records that it finds.
unfoldable pub newest_of :
    Option RangeDeleteRecord → List RangeDeleteRecord → Option RangeDeleteRecord
newest_of newest [] = newest
newest_of newest (rec ∷ recs) = newest_of (some (newer newest rec)) recs

unfoldable pub max_ver : Option Ver → Option Ver → Option Ver
max_ver (some left) (some right) = some (max left right)
max_ver (some ver) none = some ver
max_ver none (some ver) = some ver
max_ver none none = none

-- The loop of `covering_range_max_ver`.
unfoldable pub max_ver_of : Option Ver → List RangeDeleteRecord → Option Ver
unfolding max_ver
max_ver_of ver [] = ver
max_ver_of ver (rec ∷ recs) = max_ver_of (max_ver ver (some rec.max_ver)) recs

pub record EffectiveHistory : Type 0 where
  pub history : HistoricalHeads
  pub max_ver : Ver

-- The loop of `effective_history`.
unfoldable pub merge_records : EffectiveHistory → List RangeDeleteRecord → EffectiveHistory
unfolding heads_merge
merge_records effective [] = effective
merge_records effective (rec ∷ recs) =
    let merged : EffectiveHistory = record {
      history = heads_merge effective.history rec.history;
      max_ver = max effective.max_ver rec.max_ver;
    } in
    merge_records merged recs

-- The newest of a reset and of those that the staged events of this request bring over a target.
unfoldable pub staged_reset :
    Range → Option AdmissionOrder → List AdmittedEntry → Option AdmissionOrder
unfolding covers_range
staged_reset target newest [] = newest
staged_reset target newest (event ∷ events) =
    staged_reset target (next event.device_entry.mutation) events
  where
    later : Option AdmissionOrder → AdmissionOrder
    later none = order event.admission
    later (some current) = order_max current (order event.admission)

    next : Mutation OpaqueValue → Option AdmissionOrder
    next (delete_range range) = if covers_range range target then some (later newest) else newest
    next (set key value) = newest
    next (delete key) = newest

abbrev pub aggregate_key : SpaceId → Range → Bytes
aggregate_key space full = root_meta_key space
aggregate_key space (prefix p) = prefix_meta_key space p

abbrev pub or_empty : Option PrefixMetaRecord → PrefixMetaRecord
or_empty none = meta_empty
or_empty (some rec) = rec

abbrev pub or_default : Option CountersRecord → CountersRecord
or_default none = counters_default
or_default (some c) = c

module _ (space : SpaceId) (store : MemoryStore) where
  unfoldable pub data_at : Key → Option (Option DataRecord)
  data_at key = decoded (data_decode key) (get store (data_key space key))

  unfoldable pub range_delete_at : Range → Option (Option RangeDeleteRecord)
  range_delete_at range =
      decoded (range_delete_decode range) (get store (range_delete_key space range))

  unfoldable pub device_at : DeviceId → Option (Option DeviceRecord)
  device_at device = decoded device_decode (get store (device_key space device))

  unfoldable pub counters_at : Option CountersRecord
  counters_at = Option.map or_default (decoded counters_decode (get store (counters_key space)))

  unfoldable pub aggregate_at : Bytes → Option PrefixMetaRecord
  aggregate_at key = Option.map or_empty (decoded meta_decode (get store key))

  -- The tombstones under some keys, as the three loops over the covering keys read them: a key
  -- that is absent is skipped, and the target is recovered from the key.
  unfoldable pub tombstones : List Bytes → Option (List RangeDeleteRecord)
  tombstones [] = some []
  tombstones (key ∷ keys) = elim (get store key) [
    | none ↦ tombstones keys
    | some bytes ↦ do
      (owner, range) ← range_delete_parts key
      rec ← range_delete_decode range bytes
      recs ← tombstones keys
      some (rec ∷ recs)
  ]

  unfoldable pub covering_records : Range → Option (List RangeDeleteRecord)
  unfolding covering_range_delete_keys tombstones
  covering_records target = tombstones (covering_range_delete_keys space target)

  unfoldable pub covering_range_delete : Range → Option (Option RangeDeleteRecord)
  unfolding covering_records newest_of
  covering_range_delete target = do recs ← covering_records target; some (newest_of none recs)

  unfoldable pub covering_range_max_ver : Key → Option (Option Ver)
  unfolding covering_records max_ver_of
  covering_range_max_ver key = do recs ← covering_records (prefix key); some (max_ver_of none recs)

  unfoldable pub effective_history : Range → Option EffectiveHistory
  unfolding aggregate_at covering_records merge_records
  effective_history target = do
    aggregate ← aggregate_at (aggregate_key space target)
    recs ← covering_records target
    some (merge_records (record { history = aggregate.history; max_ver = aggregate.max_ver }) recs)

  unfoldable pub effective_live_count : Range → Option ℕ
  unfolding aggregate_at covering_range_delete
  effective_live_count target = do
    aggregate ← aggregate_at (aggregate_key space target)
    covering ← covering_range_delete target
    some (elim covering [
      | none ↦ aggregate.live_count
      | some rec ↦
          if order_lt aggregate.count_epoch (record_order rec) then 0 else aggregate.live_count
    ])

  -- A point that was set at an order, against the newest tombstone over it.
  abbrev pub visible_at : Mutation OpaqueValue → AdmissionOrder → Option Bool
  visible_at (set key value) o = do
    covering ← covering_range_delete (prefix key)
    some (after (Option.map record_order covering) o)
  visible_at (delete key) o = some false
  visible_at (delete_range range) o = some false

  unfoldable pub point_record_visible : DataRecord → Option Bool
  unfolding covering_range_delete
  point_record_visible rec = visible_at rec.entry.device_entry.mutation (order rec.entry.admission)

  unfoldable pub newest_covering_reset : Range → List AdmittedEntry → Option (Option AdmissionOrder)
  unfolding covering_range_delete staged_reset
  newest_covering_reset target events = do
    covering ← covering_range_delete target
    some (staged_reset target (Option.map record_order covering) events)

  abbrev visible_with : List AdmittedEntry → Mutation OpaqueValue → AdmissionOrder → Option Bool
  visible_with events (set key value) o = do
    reset ← newest_covering_reset (prefix key) events
    some (after reset o)
  visible_with events (delete key) o = some false
  visible_with events (delete_range range) o = some false

  unfoldable pub point_record_visible_with_events :
      Option DataRecord → List AdmittedEntry → Option Bool
  unfolding newest_covering_reset
  point_record_visible_with_events none events = some false
  point_record_visible_with_events (some rec) events =
      visible_with events rec.entry.device_entry.mutation (order rec.entry.admission)
