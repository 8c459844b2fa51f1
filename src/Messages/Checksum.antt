-- ===== src/Messages/Checksum.antt =====
-- core/src/messages.rs and core/src/tag.rs: the cumulative checksum of a device's batches. SHA-256
-- is a parameter; updates of a hash are the hash of what they append.
use homebase.Prelude.{List, [], ◌∷◌, ◌++◌, length}
use homebase.Prelude.Bytes.{Bytes, to_be_bytes}
use homebase.Key.{key_encode}
use homebase.Range.{range_encode}
use homebase.Seal.{seal_encode}
use homebase.Schema.{SpaceId}
use homebase.Messages.{AdmissionBatch, RangeAssert}
use homebase.Tag.{
  DeviceChecksum, DeviceEntry, DeviceId, Mutation, OpaqueValue, set, delete, delete_range,
}

-- `b"homebase.device-checksum.v1\0"`
abbrev checksum_domain : Bytes
checksum_domain =
    104 ∷ 111 ∷ 109 ∷ 101 ∷ 98 ∷ 97 ∷ 115 ∷ 101 ∷ 46 ∷ 100 ∷ 101 ∷ 118 ∷ 105 ∷ 99 ∷ 101 ∷ 45 ∷ 99
    ∷ 104 ∷ 101 ∷ 99 ∷ 107 ∷ 115 ∷ 117 ∷ 109 ∷ 46 ∷ 118 ∷ 49 ∷ 0 ∷ []

abbrev pub hash_bytes : Bytes → Bytes
hash_bytes bytes = to_be_bytes 8 (length bytes) ++ bytes

abbrev pub mutation_bytes : Mutation OpaqueValue → Bytes
mutation_bytes (set key value) = 0 ∷ (hash_bytes (key_encode key) ++ hash_bytes value)
mutation_bytes (delete key) = 1 ∷ hash_bytes (key_encode key)
mutation_bytes (delete_range range) = 2 ∷ hash_bytes (range_encode range)

unfoldable pub assert_bytes : List RangeAssert → Bytes
assert_bytes [] = []
assert_bytes (assertion ∷ asserts) =
    hash_bytes (key_encode assertion.prefix)
    ++ (to_be_bytes 8 assertion.upto ++ assert_bytes asserts)

unfoldable pub entry_bytes : List DeviceEntry → Bytes
entry_bytes [] = []
entry_bytes (entry ∷ entries) =
    mutation_bytes entry.mutation
    ++ (entry.tag.device
        ++ (to_be_bytes 8 entry.tag.device_seq
            ++ (to_be_bytes 8 entry.tag.ver
                ++ (to_be_bytes 8 entry.tag.cipher_epoch
                    ++ (hash_bytes (seal_encode entry.seal) ++ entry_bytes entries)))))

-- Everything that the hash of a batch is over.
unfoldable pub checksum_input : DeviceChecksum → SpaceId → DeviceId → AdmissionBatch → Bytes
unfolding assert_bytes entry_bytes
checksum_input previous space device batch =
    checksum_domain
    ++ (previous
        ++ (space
            ++ (device
                ++ (to_be_bytes 8 batch.device_seq
                    ++ (to_be_bytes 8 (length batch.range_asserts)
                        ++ (assert_bytes batch.range_asserts
                            ++ (to_be_bytes 8 (length batch.entries)
                                ++ entry_bytes batch.entries)))))))

module _ (sha256 : Bytes → Bytes) where
  -- `AdmissionBatch::checksum`
  unfoldable pub batch_checksum :
      DeviceChecksum → SpaceId → DeviceId → AdmissionBatch → DeviceChecksum
  unfolding checksum_input
  batch_checksum previous space device batch = sha256 (checksum_input previous space device batch)
