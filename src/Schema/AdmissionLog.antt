-- ===== src/Schema/AdmissionLog.antt =====
-- server/src/schema.rs: the storage keys of the immutable admission log.
pub mod Parts
use homebase.Prelude.{
  ℕ, zero, suc, List, [], ◌∷◌, length, ltb, ◌==◌, nat_ord, list_ord, if◌then◌else◌, Option, none,
  some, to_option, get_elem?, drop, take,
}
use homebase.Prelude.Bytes.{Bytes, from_be_bytes}
use homebase.Key.{Key, KeyComponent, encode_components, decode_components, key_new}
use homebase.Range.{Range, full, prefix}
use homebase.Reader.{◌>>=◌}
use homebase.Schema.{
  SpaceId, component, admission_log_kind, prefix_meta_kind, u64_component, u32_component,
}
use homebase.Schema.LeaseRecord.{check}
use homebase.Schema.RangeDelete.{as_array}
use homebase.Tag.{AdmissionSeq}

abbrev pub admission_header_component : ℕ
admission_header_component = 0

abbrev pub admission_op_component : ℕ
admission_op_component = 1

abbrev pub admission_point_target : ℕ
admission_point_target = 0

abbrev pub admission_full_target : ℕ
admission_full_target = 1

abbrev pub admission_prefix_target : ℕ
admission_prefix_target = 2

abbrev pub admission_component : ℕ → KeyComponent
admission_component kind = kind ∷ []

unfoldable pub admission_log_scan_all : SpaceId → Bytes
admission_log_scan_all space = encode_components (space ∷ component admission_log_kind ∷ [])

unfoldable pub prefix_meta_scan_all : SpaceId → Bytes
prefix_meta_scan_all space = encode_components (space ∷ component prefix_meta_kind ∷ [])

unfoldable pub admission_header_key : SpaceId → AdmissionSeq → Bytes
admission_header_key space seq = encode_components (
    space
    ∷ component admission_log_kind
    ∷ u64_component seq
    ∷ admission_component admission_header_component
    ∷ [])

pub data AdmissionTarget : Type 0 where
  point : Key → AdmissionTarget
  range : Range → AdmissionTarget

-- What stands behind the index of an operation in its key.
abbrev pub target_components : AdmissionTarget → List KeyComponent
target_components (point key) = admission_component admission_point_target ∷ key
target_components (range full) = admission_component admission_full_target ∷ []
target_components (range (prefix p)) = admission_component admission_prefix_target ∷ p

abbrev pub op_components : SpaceId → AdmissionSeq → ℕ → AdmissionTarget → List KeyComponent
op_components space seq op_index target =
    space
    ∷ component admission_log_kind
    ∷ u64_component seq
    ∷ admission_component admission_op_component
    ∷ u32_component op_index
    ∷ target_components target

unfoldable pub admission_op_key : SpaceId → AdmissionSeq → ℕ → Key → Bytes
admission_op_key space seq op_index key =
    encode_components (op_components space seq op_index (point key))

unfoldable pub admission_range_op_key : SpaceId → AdmissionSeq → ℕ → Range → Bytes
admission_range_op_key space seq op_index target =
    encode_components (op_components space seq op_index (range target))

unfoldable pub admission_op_scan : SpaceId → AdmissionSeq → Bytes
admission_op_scan space seq = encode_components (
    space
    ∷ component admission_log_kind
    ∷ u64_component seq
    ∷ admission_component admission_op_component
    ∷ [])

abbrev pub target_of : Bytes → List KeyComponent → Option AdmissionTarget
target_of (zero ∷ []) suffix = do key ← to_option (key_new suffix); some (point key)
target_of (suc zero ∷ []) [] = some (range full)
target_of (suc zero ∷ []) (c ∷ suffix) = none
target_of (suc (suc zero) ∷ []) suffix = do
  key ← to_option (key_new suffix)
  some (range (prefix key))
target_of [] suffix = none
target_of (suc (suc (suc n)) ∷ []) suffix = none
target_of (a ∷ b ∷ bytes) suffix = none

unfoldable pub admission_op_parts : Bytes → Option (AdmissionSeq × ℕ × AdmissionTarget)
admission_op_parts storage_key = do
  components ← to_option (decode_components storage_key)
  c3 ← get_elem? components 3
  kind ← check (c3 == admission_component admission_op_component)
  c2 ← get_elem? components 2
  seq ← as_array 8 c2
  c4 ← get_elem? components 4
  op_index ← as_array 4 c4
  c5 ← get_elem? components 5
  target ← target_of c5 (drop 6 components)
  some (from_be_bytes seq, from_be_bytes op_index, target)
