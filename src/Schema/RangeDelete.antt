-- ===== src/Schema/RangeDelete.antt =====
-- server/src/schema.rs: `RangeDeleteRecord`, the tombstones of one exact range, and their keys.
pub mod Parts
pub mod Codec
pub mod Covering
use homebase.Prelude.{
  ℕ, zero, suc, ◌+◌, max, Bool, true, false, ◌&&◌, ◌||◌, not, List, [], ◌∷◌, ◌++◌, map, length, ltb,
  ◌==◌, nat_ord, list_ord, if◌then◌else◌, Option, none, some, to_option, get_elem?, drop, take,
}
use homebase.Prelude.Bytes.{Bytes, to_be_bytes, from_be_bytes}
use homebase.Key.{Key, encode_components, decode_components, key_new}
use homebase.Range.{Range, full, prefix}
use homebase.Range.Order.{range_ord}
use homebase.Reader.{Reader, reader_new, read_u8, read_u64, rest, ◌>>=◌}
use homebase.Schema.{SpaceId, component, range_delete_kind, range_delete_key}
use homebase.Schema.LeaseRecord.{check}
use homebase.Schema.Heads.{
  HistoricalHeads, DeviceAdmission, heads_empty, heads_observe, heads_encode, heads_decode,
  max_admission_seq,
}
use homebase.Schema.DataRecord.{tags_encode, read_tags, sealed, read_seal}
use homebase.Tag.{
  AdmissionSeq, AdmittedEntry, DeviceTag, AdmissionTag, Ver, delete_range, is_delete_range,
  mutation_range, order, order_lt, entry_ver,
}

pub record RangeDeleteRecord : Type 0 where
  pub entry : AdmittedEntry
  pub history : HistoricalHeads
  pub max_ver : Ver

-- `RangeDeleteRecord::new`, which panics on a point entry.
unfoldable pub range_delete_new : AdmittedEntry → Option RangeDeleteRecord
unfolding heads_observe is_delete_range
range_delete_new entry =
    if is_delete_range entry.device_entry.mutation
    then some (record {
      entry = entry;
      history =
          heads_observe heads_empty entry.device_entry.tag.device entry.admission.admission_seq;
      max_ver = entry_ver entry;
    })
    else none

abbrev same_target : Option Range → Option Range → Bool
same_target none none = true
same_target none (some b) = false
same_target (some a) none = false
same_target (some a) (some b) = a == b

-- `RangeDeleteRecord::observe`, which panics when the target is another.
unfoldable pub range_delete_observe : RangeDeleteRecord → AdmittedEntry → Option RangeDeleteRecord
unfolding heads_observe mutation_range
range_delete_observe rec entry =
    if same_target (mutation_range rec.entry.device_entry.mutation)
      (mutation_range entry.device_entry.mutation)
    then some (record {
      entry =
          if order_lt (order rec.entry.admission) (order entry.admission) then entry else rec.entry;
      history =
          heads_observe rec.history entry.device_entry.tag.device entry.admission.admission_seq;
      max_ver = max rec.max_ver (entry_ver entry);
    })
    else none

-- `RangeDeleteRecord::encode`, which panics on a point entry.
unfoldable pub range_delete_encode : RangeDeleteRecord → Option Bytes
unfolding heads_encode is_delete_range
range_delete_encode rec =
    if is_delete_range rec.entry.device_entry.mutation
    then some (
        1
        ∷ tags_encode rec.entry (
            heads_encode rec.history
            ++ (to_be_bytes 8 rec.max_ver ++ sealed rec.entry.device_entry.seal [])))
    else none

-- Is this head the admission that the record is about?
abbrev current : DeviceTag → AdmissionTag → DeviceAdmission → Bool
current tag admission head =
    (head.device == tag.device) && (head.admission_seq == admission.admission_seq)

abbrev pub consistent : DeviceTag → AdmissionTag → HistoricalHeads → Ver → Bool
consistent tag admission history max_ver = not (
    not (current tag admission history.first || current tag admission history.second)
    || (not (max_admission_seq history == admission.admission_seq) || ltb max_ver tag.ver))

-- `RangeDeleteRecord::decode`
unfoldable pub range_delete_decode : Range → Bytes → Option RangeDeleteRecord
unfolding read_tags read_seal heads_decode max_admission_seq
range_delete_decode range bytes = do
  (version, r0) ← read_u8 (reader_new bytes)
  done ← check (version == 1)
  ((tag, admission), r1) ← read_tags r0
  (history, r2) ← heads_decode r1
  (max_ver, r3) ← read_u64 r2
  (seal, r4) ← read_seal r3
  over ← check (length (rest r4) == 0)
  sound ← check (consistent tag admission history max_ver)
  some (record {
    entry = record {
      device_entry = record { mutation = delete_range range; tag = tag; seal = seal };
      admission = admission;
    };
    history = history;
    max_ver = max_ver;
  })

-- `bytes.try_into()`, from a slice to an array.
abbrev pub as_array : ℕ → Bytes → Option Bytes
as_array n bytes = if length bytes == n then some bytes else none

-- The range that the components behind the depth spell.
abbrev range_of : ℕ → List Bytes → Option Range
range_of zero suffix = some full
range_of (suc depth) suffix = do key ← to_option (key_new suffix); some (prefix key)

unfoldable pub range_delete_parts : Bytes → Option (SpaceId × Range)
range_delete_parts storage_key = do
  components ← to_option (decode_components storage_key)
  c0 ← get_elem? components 0
  space ← as_array 16 c0
  c1 ← get_elem? components 1
  kind ← check (c1 == component range_delete_kind)
  c2 ← get_elem? components 2
  bytes ← as_array 2 c2
  let depth = from_be_bytes bytes
  counted ← check (length components == 3 + depth)
  range ← range_of depth (drop 3 components)
  some (space, range)

unfoldable pub range_delete_scan_all : SpaceId → Bytes
range_delete_scan_all space = encode_components (space ∷ component range_delete_kind ∷ [])

-- The first `depth` components of a key and the `n - 1` longer beginnings that follow. A
-- beginning of a valid key is valid, so `Key::new` returns it.
unfoldable pub beginnings : Key → ℕ → ℕ → List Key
beginnings p zero depth = []
beginnings p (suc n) depth = take depth p ∷ beginnings p n (depth + 1)

-- The ranges of `covering_range_delete_keys` and of `aggregate_path`.
unfoldable pub covering_ranges : Range → List Range
unfolding beginnings
covering_ranges full = full ∷ []
covering_ranges (prefix p) = full ∷ map prefix (beginnings p (length p) 1)

unfoldable pub covering_range_delete_keys : SpaceId → Range → List Bytes
unfolding covering_ranges
covering_range_delete_keys space target = map (range_delete_key space) (covering_ranges target)
