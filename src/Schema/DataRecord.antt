-- ===== src/Schema/DataRecord.antt =====
-- server/src/schema.rs: `DataRecord`, one stored key's tag and value.
pub mod Codec
use homebase.Prelude.{
  ℕ, zero, suc, ◌%◌, ◌^◌, [], ◌∷◌, ◌++◌, length, ◌==◌, nat_ord, Option, none, some, to_option,
}
use homebase.Prelude.Bytes.{Bytes, to_be_bytes}
use homebase.Key.{Key}
use homebase.Reader.{
  Reader, Read, reader_new, read_u8, read_u32, read_u64, read_bytes16, read_take, rest, ◌>>=◌,
}
use homebase.Seal.{Seal, seal_encode, seal_decode}
use homebase.Schema.LeaseRecord.{check}
use homebase.Tag.{
  Mutation, set, delete, delete_range, OpaqueValue, DeviceTag, AdmissionTag, AdmittedEntry,
}

pub record DataRecord : Type 0 where
  pub entry : AdmittedEntry

-- The fixed fields that every stored entry starts with: the device's tag and the admission tag.
abbrev pub tags_encode : AdmittedEntry → Bytes → Bytes
tags_encode entry bytes =
    let tag = entry.device_entry.tag in
    tag.device
    ++ (to_be_bytes 8 tag.device_seq
        ++ (to_be_bytes 8 tag.ver
            ++ (to_be_bytes 8 tag.cipher_epoch
                ++ (to_be_bytes 8 entry.admission.admission_seq
                    ++ (to_be_bytes 4 entry.admission.op_index ++ bytes)))))

unfoldable pub read_tags : Reader → Read (DeviceTag × AdmissionTag)
read_tags r = do
  (device, r1) ← read_bytes16 r
  (device_seq, r2) ← read_u64 r1
  (ver, r3) ← read_u64 r2
  (cipher_epoch, r4) ← read_u64 r3
  (admission_seq, r5) ← read_u64 r4
  (op_index, r6) ← read_u32 r5
  let tag : DeviceTag = record {
    device = device;
    device_seq = device_seq;
    ver = ver;
    cipher_epoch = cipher_epoch;
  }
  some ((tag, record { admission_seq = admission_seq; op_index = op_index }), r6)

-- The seal behind its length; the `as u32` cast truncates.
abbrev pub sealed : Seal → Bytes → Bytes
sealed seal bytes =
    let encoded = seal_encode seal in to_be_bytes 4 (length encoded % 2 ^ 32) ++ (encoded ++ bytes)

unfoldable pub read_seal : Reader → Read Seal
read_seal r = do
  (seal_len, r1) ← read_u32 r
  (encoded, r2) ← read_take r1 seal_len
  seal ← to_option (seal_decode encoded)
  some (seal, r2)

-- The byte that tells a deletion from a value, and the value; a range deletion is a panic.
abbrev value_encode : Mutation OpaqueValue → Option Bytes
value_encode (delete key) = some (0 ∷ [])
value_encode (set key value) = some (1 ∷ value)
value_encode (delete_range range) = none

-- `DataRecord::encode`
unfoldable pub data_encode : DataRecord → Option Bytes
data_encode rec = do
  bytes ← value_encode rec.entry.device_entry.mutation
  some (1 ∷ tags_encode rec.entry (sealed rec.entry.device_entry.seal bytes))

abbrev pub mutation_of : Key → ℕ → Bytes → Option (Mutation OpaqueValue)
mutation_of key zero value = some (delete key)
mutation_of key (suc zero) value = some (set key value)
mutation_of key (suc (suc n)) value = none

-- `DataRecord::decode`
unfoldable pub data_decode : Key → Bytes → Option DataRecord
unfolding read_tags read_seal
data_decode key bytes = do
  (version, r0) ← read_u8 (reader_new bytes)
  done ← check (version == 1)
  ((tag, admission), r1) ← read_tags r0
  (seal, r2) ← read_seal r1
  (kind, r3) ← read_u8 r2
  mutation ← mutation_of key kind (rest r3)
  some (record {
    entry = record {
      device_entry = record { mutation = mutation; tag = tag; seal = seal };
      admission = admission;
    };
  })
