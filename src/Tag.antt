-- ===== src/Tag.antt =====
-- core/src/tag.rs: device-authored and admitted entries. The newtypes over `u64` are numbers, and
-- the fixed-size byte arrays are byte strings.
use homebase.Prelude.{
  ℕ, Bool, true, false, Option, none, some, Ordering, compare, then, lt, replicate,
}
use homebase.Prelude.Bytes.{Bytes}
use homebase.Key.{Key}
use homebase.Range.{Range}
use homebase.Seal.{Seal}

abbrev pub DeviceId : Type 0
DeviceId = Bytes

abbrev pub DeviceSeq : Type 0
DeviceSeq = ℕ

abbrev pub AdmissionSeq : Type 0
AdmissionSeq = ℕ

abbrev pub Ver : Type 0
Ver = ℕ

abbrev pub CipherEpoch : Type 0
CipherEpoch = ℕ

abbrev pub DeviceChecksum : Type 0
DeviceChecksum = Bytes

abbrev pub checksum_empty : DeviceChecksum
checksum_empty = replicate 32 0

abbrev pub OpaqueValue : Type 0
OpaqueValue = Bytes

-- Ordered by its fields, first to last.
pub record AdmissionOrder : Type 0 where
  pub admission_seq : AdmissionSeq
  pub op_index : ℕ

abbrev pub order_cmp : AdmissionOrder → AdmissionOrder → Ordering
order_cmp a b = then (compare a.admission_seq b.admission_seq) (compare a.op_index b.op_index)

abbrev pub order_lt : AdmissionOrder → AdmissionOrder → Bool
order_lt a b = elim (order_cmp a b) [ lt ↦ true | _ ↦ false ]

-- `Ord::max`, which keeps the second of two equals.
abbrev pub order_max : AdmissionOrder → AdmissionOrder → AdmissionOrder
order_max a b = elim (order_lt b a) [ true ↦ a | false ↦ b ]

pub data Mutation {ℓ} (T : Type ℓ) : Type ℓ where
  set : Key → T → Mutation T
  delete : Key → Mutation T
  delete_range : Range → Mutation T

module _ {ℓ} {T : Type ℓ} where
  unfoldable pub point_key : Mutation T → Option Key
  point_key (set key value) = some key
  point_key (delete key) = some key
  point_key (delete_range range) = none

  unfoldable pub mutation_range : Mutation T → Option Range
  mutation_range (delete_range range) = some range
  mutation_range (set key value) = none
  mutation_range (delete key) = none

  unfoldable pub is_set : Mutation T → Bool
  is_set (set key value) = true
  is_set (delete key) = false
  is_set (delete_range range) = false

  unfoldable pub is_delete_range : Mutation T → Bool
  is_delete_range (delete_range range) = true
  is_delete_range (set key value) = false
  is_delete_range (delete key) = false

pub record DeviceTag : Type 0 where
  pub device : DeviceId
  pub device_seq : DeviceSeq
  pub ver : Ver
  pub cipher_epoch : CipherEpoch

pub record DeviceEntry : Type 0 where
  pub mutation : Mutation OpaqueValue
  pub tag : DeviceTag
  pub seal : Seal

pub record AdmissionTag : Type 0 where
  pub admission_seq : AdmissionSeq
  pub op_index : ℕ

abbrev pub order : AdmissionTag → AdmissionOrder
order t = record { admission_seq = t.admission_seq; op_index = t.op_index }

pub record AdmittedEntry : Type 0 where
  pub device_entry : DeviceEntry
  pub admission : AdmissionTag

abbrev pub entry_ver : AdmittedEntry → Ver
entry_ver e = e.device_entry.tag.ver
