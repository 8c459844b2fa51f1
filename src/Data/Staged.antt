-- ===== src/Data/Staged.antt =====
-- server/src/space/data.rs: what an admission reads of the stored state and of what its request has
-- staged so far. `none` is a panic.
use homebase.Prelude.{
  Bool, true, false, List, [], ◌∷◌, ltb, nat_ord, list_ord, if◌then◌else◌, Option, none, some,
}
use homebase.Prelude.Map.{Map, map_get}
use homebase.Key.{Key}
use homebase.Range.{Range, prefix, covers_key, overlaps}
use homebase.Range.Order.{range_ord}
use homebase.Reader.{◌>>=◌}
use homebase.Messages.{RangeAssert, RangeAssertFailure}
use homebase.Schema.{SpaceId}
use homebase.Schema.Heads.{max_excluding}
use homebase.Schema.DataRecord.{DataRecord}
use homebase.Schema.RangeDelete.{RangeDeleteRecord, range_delete_new, range_delete_observe}
use homebase.Storage.{MemoryStore}
use homebase.Tag.{
  AdmissionOrder, AdmittedEntry, DeviceId, Mutation, set, delete, delete_range, OpaqueValue, Ver,
  entry_ver, order, order_cmp,
}
use homebase.Data.{data_at, range_delete_at, effective_history, max_ver, record_order}
use Prim.Native.Nat.Ordering.{eq}

unfoldable pub mutation_relevant : Range → Mutation OpaqueValue → Bool
unfolding covers_key overlaps
mutation_relevant query (set key value) = covers_key query key
mutation_relevant query (delete key) = covers_key query key
mutation_relevant query (delete_range range) = overlaps query range

-- Does the event reset a key?
unfoldable pub resets : Key → Mutation OpaqueValue → Bool
unfolding covers_key
resets key (delete_range range) = covers_key range key
resets key (set other value) = false
resets key (delete other) = false

-- The greatest version of the events that a test selects.
unfoldable pub events_max_ver : (Mutation OpaqueValue → Bool) → List AdmittedEntry → Option Ver
unfolding max_ver
events_max_ver p [] = none
events_max_ver p (event ∷ events) =
    let rest = events_max_ver p events in
    if p event.device_entry.mutation then max_ver (some (entry_ver event)) rest else rest

abbrev same_order : AdmissionOrder → AdmissionOrder → Bool
same_order a b = elim (order_cmp a b) [ eq ↦ true | _ ↦ false ]

abbrev or_new : AdmittedEntry → Option RangeDeleteRecord → Option RangeDeleteRecord
or_new admitted none = range_delete_new admitted
or_new admitted (some rec) = some rec

module _ (space : SpaceId) (store : MemoryStore) where
  -- `staged.get(key).or(stored.as_ref())`, the store read only if nothing is staged.
  unfoldable pub prior_record : Map Key DataRecord → Key → Option (Option DataRecord)
  unfolding data_at
  prior_record points key = elim (map_get key points) [
    | some rec ↦ some (some rec)
    | none ↦ data_at space store key
  ]

  abbrev observed_tombstone : AdmittedEntry → RangeDeleteRecord → Option RangeDeleteRecord
  observed_tombstone admitted rec =
      if same_order (record_order rec) (order admitted.admission)
      then some rec
      else range_delete_observe rec admitted

  -- The tombstone that a range deletion leaves staged.
  unfoldable pub staged_tombstone :
      Map Range RangeDeleteRecord → Range → AdmittedEntry → Option RangeDeleteRecord
  unfolding range_delete_at range_delete_new range_delete_observe
  staged_tombstone ranges range admitted = elim (map_get range ranges) [
    | some rec ↦ range_delete_observe rec admitted
    | none ↦ do
      stored ← range_delete_at space store range
      rec ← or_new admitted stored
      observed_tombstone admitted rec
  ]

  unfoldable pub range_assert_failures :
      DeviceId → List RangeAssert → Option (List RangeAssertFailure)
  unfolding effective_history max_excluding
  range_assert_failures device [] = some []
  range_assert_failures device (assertion ∷ asserts) = do
    effective ← effective_history space store (prefix assertion.prefix)
    failures ← range_assert_failures device asserts
    let actual = max_excluding effective.history device
    let failure : RangeAssertFailure = record {
      prefix = assertion.prefix;
      upto = assertion.upto;
      actual = actual;
    }
    some (if ltb assertion.upto actual then failure ∷ failures else failures)
