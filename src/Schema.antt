-- ===== src/Schema.antt =====
-- server/src/schema.rs: the storage keys of one space, and (in the children) the records that
-- stand under them. The components are never empty and never too long, so `KeyComponent::new`
-- cannot fail on them, and a depth is at most `MAX_COMPONENTS`.
pub mod Keys
pub mod LeaseRecord
pub mod Heads
pub mod Records
pub mod DataRecord
pub mod RangeDelete
pub mod AdmissionLog
pub mod Examples
use homebase.Prelude.{
  ℕ, ◌+◌, ◌≡◌, Bool, true, false, List, [], ◌∷◌, ◌++◌, length, ◌==◌, nat_ord, if◌then◌else◌, Option,
  none, some, get_elem?, drop, take, to_option, ltb,
}
use homebase.Prelude.Bytes.{Bytes, to_be_bytes, from_be_bytes}
use homebase.Key.{Key, KeyComponent, encode_components, decode_components, key_new}
use homebase.Range.{Range, full, prefix}
use homebase.Tag.{AdmissionSeq, DeviceId}
use homebase.Lease.{LeaseId}
use homebase.Reader.{◌>>=◌}

-- The 16 bytes of a `SpaceId`.
abbrev pub SpaceId : Type 0
SpaceId = Bytes

pub data RecordKind : Type 0 where
  data_kind range_delete_kind lease_by_prefix_kind lease_by_id_kind : RecordKind
  meta_kind device_kind prefix_meta_kind admission_log_kind : RecordKind

abbrev pub kind_byte : RecordKind → ℕ
kind_byte data_kind = 0
kind_byte range_delete_kind = 1
kind_byte lease_by_prefix_kind = 2
kind_byte lease_by_id_kind = 3
kind_byte meta_kind = 4
kind_byte device_kind = 5
kind_byte prefix_meta_kind = 6
kind_byte admission_log_kind = 7

-- `RecordKind::component`
abbrev pub component : RecordKind → KeyComponent
component kind = kind_byte kind ∷ []

abbrev pub u64_component : ℕ → KeyComponent
u64_component v = to_be_bytes 8 v

abbrev pub u32_component : ℕ → KeyComponent
u32_component v = to_be_bytes 4 v

-- The code asserts that the depth is at most 256; every caller is a valid key or a loop up to 256.
abbrev pub depth_component : ℕ → KeyComponent
depth_component depth = to_be_bytes 2 depth

unfoldable pub data_key : SpaceId → Key → Bytes
data_key space key = encode_components (space ∷ component data_kind ∷ key)

-- `user_key_from_data`; `get(2..)` needs two components.
unfoldable pub user_key_from_data : Bytes → Option Key
user_key_from_data storage_key = do
  components ← to_option (decode_components storage_key)
  suffix ← if ltb (length components) 2 then none else some (drop 2 components)
  to_option (key_new suffix)

unfoldable pub data_scan_all : SpaceId → Bytes
data_scan_all space = encode_components (space ∷ component data_kind ∷ [])

unfoldable pub prefix_meta_key : SpaceId → List KeyComponent → Bytes
prefix_meta_key space head =
    encode_components (space ∷ component prefix_meta_kind ∷ depth_component (length head) ∷ head)

-- `b"root"` and `b"counters"`
abbrev pub root_name : Bytes
root_name = 114 ∷ 111 ∷ 111 ∷ 116 ∷ []

abbrev pub counters_name : Bytes
counters_name = 99 ∷ 111 ∷ 117 ∷ 110 ∷ 116 ∷ 101 ∷ 114 ∷ 115 ∷ []

unfoldable pub root_meta_key : SpaceId → Bytes
root_meta_key space = encode_components (space ∷ component meta_kind ∷ root_name ∷ [])

-- The components behind the record kind of a range tombstone's key.
abbrev pub range_components : Range → List KeyComponent
range_components full = depth_component 0 ∷ []
range_components (prefix p) = depth_component (length p) ∷ p

unfoldable pub range_delete_key : SpaceId → Range → Bytes
range_delete_key space range =
    encode_components (space ∷ component range_delete_kind ∷ range_components range)

unfoldable pub device_key : SpaceId → DeviceId → Bytes
device_key space device = encode_components (space ∷ component device_kind ∷ device ∷ [])

unfoldable pub lease_by_id_key : SpaceId → LeaseId → Bytes
lease_by_id_key space id =
    encode_components (space ∷ component lease_by_id_kind ∷ u64_component id ∷ [])

unfoldable pub lease_by_id_scan : SpaceId → Bytes
lease_by_id_scan space = encode_components (space ∷ component lease_by_id_kind ∷ [])

unfoldable pub lease_by_prefix_key : SpaceId → Key → LeaseId → Bytes
lease_by_prefix_key space p id = encode_components (
    space
    ∷ component lease_by_prefix_kind
    ∷ depth_component (length p)
    ∷ (p ++ u64_component id ∷ []))

unfoldable pub lease_by_prefix_scan : SpaceId → ℕ → List KeyComponent → Bytes
lease_by_prefix_scan space depth head =
    encode_components (space ∷ component lease_by_prefix_kind ∷ depth_component depth ∷ head)

unfoldable pub counters_key : SpaceId → Bytes
counters_key space = encode_components (space ∷ component meta_kind ∷ counters_name ∷ [])
