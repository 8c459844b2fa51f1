-- ===== src/Data/Counts.antt =====
-- server/src/space/data.rs: the aggregates of a point or of a range, from the root down to the
-- exact prefix, staged for the request. `none` is a panic.
use homebase.Prelude.{
  ℕ, suc, ◌+◌, ◌-◌, Bool, true, false, List, [], ◌∷◌, map, ltb, leb, nat_ord, list_ord,
  if◌then◌else◌, Option, none, some,
}
use homebase.Prelude.Bytes.{Bytes}
use homebase.Prelude.Map.{Map, map_get, map_insert}
use homebase.Clock.{u64_max}
use homebase.Key.{Key}
use homebase.Range.{Range, prefix}
use homebase.Reader.{◌>>=◌}
use homebase.Schema.{SpaceId}
use homebase.Schema.Records.{PrefixMetaRecord, meta_observe_history, materialize_count_at}
use homebase.Schema.RangeDelete.{covering_ranges}
use homebase.Storage.{MemoryStore}
use homebase.Tag.{AdmissionOrder, AdmissionSeq, AdmittedEntry, DeviceId, Ver, order_lt}
use homebase.Data.{aggregate_key, aggregate_at, newest_covering_reset}

-- A signed number, an `i64`.
pub data ℤ : Type 0 where
  pos negsuc : ℕ → ℤ

-- `(set as i64) - (live as i64)`
abbrev pub count_delta : Bool → Bool → ℤ
count_delta true true = pos 0
count_delta true false = pos 1
count_delta false true = negsuc 0
count_delta false false = pos 0

-- `u64::checked_add_signed`
unfoldable pub checked_add_signed : ℕ → ℤ → Option ℕ
checked_add_signed count (pos n) = if leb (count + n) u64_max then some (count + n) else none
checked_add_signed count (negsuc n) = if ltb n count then some (count - suc n) else none

-- `u64::checked_sub`
unfoldable pub checked_sub : ℕ → ℕ → Option ℕ
checked_sub count n = if leb n count then some (count - n) else none

abbrev pub Aggregates : Type 0
Aggregates = Map Bytes PrefixMetaRecord

unfoldable pub last_key : List (Range × Bytes) → Option Bytes
last_key [] = none
last_key ((target, key) ∷ []) = some key
last_key ((target, key) ∷ node ∷ path) = last_key (node ∷ path)

unfoldable pub aggregate_path : SpaceId → Range → List (Range × Bytes)
unfolding covering_ranges
aggregate_path space range = map (λ node. (node, aggregate_key space node)) (covering_ranges range)

module _ (device : DeviceId) (seq : AdmissionSeq) (ver : Ver) (order : AdmissionOrder) where
  -- What a point mutation does to one loaded aggregate of its path.
  unfoldable pub count_point : PrefixMetaRecord → ℤ → Option PrefixMetaRecord
  unfolding meta_observe_history checked_add_signed materialize_count_at
  count_point record' delta = do
    let observed = meta_observe_history record' device seq ver
    live_count ← checked_add_signed observed.live_count delta
    some (materialize_count_at (record observed { live_count = live_count }) order)

  -- What a range deletion does to the aggregate of an ancestor.
  unfoldable pub count_ancestor : PrefixMetaRecord → ℕ → Option PrefixMetaRecord
  unfolding meta_observe_history checked_sub materialize_count_at
  count_ancestor record' removed = do
    let observed = meta_observe_history record' device seq ver
    live_count ← checked_sub observed.live_count removed
    some (materialize_count_at (record observed { live_count = live_count }) order)

  -- What a range deletion does to the aggregate of its own target.
  unfoldable pub count_target : PrefixMetaRecord → PrefixMetaRecord
  unfolding meta_observe_history
  count_target record' =
      let observed = meta_observe_history record' device seq ver in
      record observed { live_count = 0; count_epoch = order }

  -- The second loop of `apply_range_count`, over the path.
  unfoldable pub range_loop : ℕ → List (Range × Bytes) → Aggregates → Option Aggregates
  unfolding count_ancestor count_target
  range_loop removed [] staged = some staged
  range_loop removed ((target, key) ∷ []) staged = do
    record' ← map_get key staged
    some (map_insert key (count_target record') staged)
  range_loop removed ((target, key) ∷ node ∷ path) staged = do
    record' ← map_get key staged
    counted ← count_ancestor record' removed
    range_loop removed (node ∷ path) (map_insert key counted staged)

-- A count from before a reset is zero.
abbrev pub reset_count : Option AdmissionOrder → Bytes → Aggregates → Option Aggregates
reset_count none key staged = some staged
reset_count (some reset) key staged = do
  record' ← map_get key staged
  some (
      if order_lt record'.count_epoch reset
      then map_insert key (record record' { live_count = 0; count_epoch = reset }) staged
      else staged)

module _ (space : SpaceId) (store : MemoryStore) where
  unfoldable pub load_aggregate : Aggregates → Bytes → Option Aggregates
  unfolding aggregate_at
  load_aggregate staged key = elim (map_get key staged) [
    | some record' ↦ some staged
    | none ↦ do record' ← aggregate_at space store key; some (map_insert key record' staged)
  ]

  unfoldable pub materialize_aggregate :
      Aggregates → List AdmittedEntry → Range → Bytes → Option Aggregates
  unfolding load_aggregate newest_covering_reset
  materialize_aggregate staged events target key = do
    loaded ← load_aggregate staged key
    reset ← newest_covering_reset space store target events
    reset_count reset key loaded

  -- The first loop of `apply_range_count`, over the path.
  unfoldable pub materialize_path :
      List AdmittedEntry → List (Range × Bytes) → Aggregates → Option Aggregates
  unfolding materialize_aggregate
  materialize_path events [] staged = some staged
  materialize_path events ((target, key) ∷ path) staged = do
    materialized ← materialize_aggregate staged events target key
    materialize_path events path materialized

  module _ (events : List AdmittedEntry) (device : DeviceId) (seq : AdmissionSeq) (ver : Ver)
      (order : AdmissionOrder) where
    unfoldable pub point_loop : ℤ → List (Range × Bytes) → Aggregates → Option Aggregates
    unfolding materialize_aggregate count_point
    point_loop delta [] staged = some staged
    point_loop delta ((target, key) ∷ path) staged = do
      materialized ← materialize_aggregate staged events target key
      record' ← map_get key materialized
      counted ← count_point device seq ver order record' delta
      point_loop delta path (map_insert key counted materialized)

    unfoldable pub apply_point_count : Aggregates → Key → ℤ → Option Aggregates
    unfolding point_loop aggregate_path
    apply_point_count staged key delta = point_loop delta (aggregate_path space (prefix key)) staged

    unfoldable pub apply_range_count : Aggregates → Range → Option Aggregates
    unfolding materialize_path aggregate_path last_key range_loop
    apply_range_count staged range = do
      let path = aggregate_path space range
      materialized ← materialize_path events path staged
      target_key ← last_key path
      target ← map_get target_key materialized
      range_loop device seq ver order target.live_count path materialized
