-- ===== src/Schema/DataRecord/Codec.antt =====
-- The codec of point records (server/src/schema.rs).
use homebase.Prelude.{
  ℕ, ◌≤◌, ◌<◌, ◌^◌, ◌%◌, ◌≡◌, refl, subst, [], ◌∷◌, ◌++◌, length, some, arith, nat_ord,
}
use homebase.Prelude.Bytes.{Bytes, to_be_bytes}
use homebase.Key.{Key, usize_max}
use homebase.Reader.{Reader, reader_new}
use homebase.Reader.Steps.{
  Before, Before-new, rest-Before, skip, read_take_lem, read_u8_lem, read_u32_lem, read_u64_lem,
  read_bytes16_lem,
}
use homebase.Schema.DataRecord.{
  DataRecord, tags_encode, read_tags, sealed, read_seal, mutation_of, data_encode, data_decode,
}
use homebase.Seal.Codec.{length-seal_encode, seal_decode-encode}
use homebase.Seal.{Seal, IsSeal, seal_encode}
use homebase.Tag.{point_key, Mutation, set, delete, delete_range, OpaqueValue, AdmittedEntry}

-- What the types of the fields guarantee.
pub record IsEntry (entry : AdmittedEntry) : Type 0 where
  pub device_len : length entry.device_entry.tag.device ≡ 16
  pub seq_fits : entry.device_entry.tag.device_seq < 256 ^ 8
  pub ver_fits : entry.device_entry.tag.ver < 256 ^ 8
  pub epoch_fits : entry.device_entry.tag.cipher_epoch < 256 ^ 8
  pub admission_fits : entry.admission.admission_seq < 256 ^ 8
  pub index_fits : entry.admission.op_index < 256 ^ 4
  pub seal_valid : IsSeal entry.device_entry.seal

-- The tags are read back, and the reader stands behind them.
pub read_tags_lem :
    (entry : AdmittedEntry) (r : Reader) (s : Bytes)
    → IsEntry entry
    → Before r (tags_encode entry s)
    → (r' : Reader) × (read_tags r ≡ some ((entry.device_entry.tag, entry.admission), r'))
      × Before r' s
unfolding read_tags
read_tags_lem entry r s v b =
    let tag = entry.device_entry.tag in
    let (e0, b0) = read_bytes16_lem r tag.device _ v.device_len b in
    let (e1, b1) = read_u64_lem _ tag.device_seq _ v.seq_fits b0 in
    let (e2, b2) = read_u64_lem _ tag.ver _ v.ver_fits b1 in
    let (e3, b3) = read_u64_lem _ tag.cipher_epoch _ v.epoch_fits b2 in
    let (e4, b4) = read_u64_lem _ entry.admission.admission_seq _ v.admission_fits b3 in
    let (e5, b5) = read_u32_lem _ entry.admission.op_index s v.index_fits b4 in
    (_, rw (e0, e1, e2, e3, e4, e5) refl, b5)

pub read_seal_lem :
    (seal : Seal) (r : Reader) (s : Bytes)
    → IsSeal seal
    → Before r (sealed seal s)
    → (r' : Reader) × (read_seal r ≡ some (seal, r')) × Before r' s
unfolding read_seal
read_seal_lem seal r s v b =
    let n = length (seal_encode seal) in
    let len = length-seal_encode seal v in
    let small : n % 2 ^ 32 ≡ n = omega (arith, len) in
    let (e0, b0) =
      read_u32_lem r n (seal_encode seal ++ s) (omega (arith, len))
        (subst (λ (k : ℕ). Before r (to_be_bytes 4 k ++ (seal_encode seal ++ s))) small b) in
    let (e1, b1) = read_take_lem n (skip 4 r) (seal_encode seal) s refl b0 in
    (_, rw (e0, e1, seal_decode-encode seal v) refl, b1)

module _ (rec : DataRecord) (key : Key) (v : IsEntry rec.entry) where
  body : ℕ → Bytes → Bytes
  body kind value = 1 ∷ tags_encode rec.entry (sealed rec.entry.device_entry.seal (kind ∷ value))

  decode_body :
      (kind : ℕ) (value : Bytes)
      → mutation_of key kind value ≡ some rec.entry.device_entry.mutation
      → length (body kind value) ≤ usize_max
      → data_decode key (body kind value) ≡ some rec
  unfolding data_decode body
  decode_body kind value m fits =
      let b = Before-new (body kind value) fits in
      let (e0, b0) = read_u8_lem (reader_new (body kind value)) 1 _ b in
      let (r1, e1, b1) = read_tags_lem rec.entry _ _ v b0 in
      let (r2, e2, b2) =
        read_seal_lem rec.entry.device_entry.seal r1 (kind ∷ value) v.seal_valid b1 in
      let (e3, b3) = read_u8_lem r2 kind value b2 in rw (e0, e1, e2, e3, rest-Before _ _ b3, m) refl

  -- A well-formed point record, under the key of its mutation, has an encoding, and where that fits
  -- the address space it is decoded from it.
  pub data_decode-encode :
      point_key rec.entry.device_entry.mutation ≡ some key
      → (bytes : Bytes) × (data_encode rec ≡ some bytes)
        × (length bytes ≤ usize_max → data_decode key bytes ≡ some rec)
  unfolding data_encode point_key body
  data_decode-encode = on_mutation rec.entry.device_entry.mutation refl
    where
      on_mutation :
          (m : Mutation OpaqueValue)
          → rec.entry.device_entry.mutation ≡ m
          → point_key m ≡ some key
          → (bytes : Bytes) × (data_encode rec ≡ some bytes)
            × (length bytes ≤ usize_max → data_decode key bytes ≡ some rec)
      on_mutation (set k value) e h =
          let same : k ≡ key = cc in
          (body 1 value, rw e refl, decode_body 1 value (rw (e, same) refl))
      on_mutation (delete k) e h =
          let same : k ≡ key = cc in (body 0 [], rw e refl, decode_body 0 [] (rw (e, same) refl))
      on_mutation (delete_range r) e h = cc
