-- ===== src/Schema/RangeDelete/Codec.antt =====
-- The codec of tombstones (server/src/schema.rs).
use homebase.Prelude.{
  ◌≤◌, ◌<◌, ◌^◌, ◌≡◌, refl, sym, ap, subst, true, [], ◌∷◌, ◌++◌, length, append_assoc, some,
  nat_ord, list_ord,
}
use homebase.Prelude.Bytes.{Bytes, to_be_bytes}
use homebase.Key.{usize_max}
use homebase.Range.{Range}
use homebase.Reader.{Reader, reader_new}
use homebase.Reader.Steps.{
  Before, Before-new, rest-Before, read_u8_lem, read_u64_lem, read_bytes16_lem,
}
use homebase.Schema.Heads.{
  HistoricalHeads, ordered_heads, heads_encode, heads_decode, max_admission_seq,
}
use homebase.Schema.DataRecord.{tags_encode, sealed}
use homebase.Schema.DataRecord.Codec.{IsEntry, read_tags_lem, read_seal_lem}
use homebase.Schema.RangeDelete.{
  RangeDeleteRecord, consistent, range_delete_encode, range_delete_decode,
}
use homebase.Tag.{delete_range, is_delete_range}

-- What the types of the fields guarantee, and the order of the heads.
pub record IsHistory (h : HistoricalHeads) : Type 0 where
  pub first_len : length h.first.device ≡ 16
  pub first_fits : h.first.admission_seq < 256 ^ 8
  pub second_len : length h.second.device ≡ 16
  pub second_fits : h.second.admission_seq < 256 ^ 8
  pub ordered : ordered_heads h ≡ true

heads_bytes : HistoricalHeads → Bytes → Bytes
heads_bytes h s =
    h.first.device
    ++ (to_be_bytes 8 h.first.admission_seq
        ++ (h.second.device ++ (to_be_bytes 8 h.second.admission_seq ++ s)))

heads_bytes_lem : (h : HistoricalHeads) (s : Bytes) → heads_encode h ++ s ≡ heads_bytes h s
unfolding heads_encode heads_bytes
heads_bytes_lem h s = simp append_assoc

read_heads_lem :
    (h : HistoricalHeads) (r : Reader) (s : Bytes)
    → IsHistory h
    → Before r (heads_encode h ++ s)
    → (r' : Reader) × (heads_decode r ≡ some (h, r')) × Before r' s
unfolding heads_decode heads_bytes
read_heads_lem h r s v b =
    let (e0, b0) =
      read_bytes16_lem r h.first.device _ v.first_len (subst (Before r) (heads_bytes_lem h s) b) in
    let (e1, b1) = read_u64_lem _ h.first.admission_seq _ v.first_fits b0 in
    let (e2, b2) = read_bytes16_lem _ h.second.device _ v.second_len b1 in
    let (e3, b3) = read_u64_lem _ h.second.admission_seq s v.second_fits b2 in
    (_, rw (e0, e1, e2, e3, v.ordered) refl, b3)

-- What the types of the fields guarantee, and what the decoder checks.
pub record IsTombstone (range : Range) (rec : RangeDeleteRecord) : Type 0 where
  pub target : rec.entry.device_entry.mutation ≡ delete_range range
  pub entry_valid : IsEntry rec.entry
  pub history_valid : IsHistory rec.history
  pub ver_fits : rec.max_ver < 256 ^ 8
  pub consistency :
      consistent rec.entry.device_entry.tag rec.entry.admission rec.history rec.max_ver ≡ true

module _ (range : Range) (rec : RangeDeleteRecord) (v : IsTombstone range rec) where
  body : Bytes
  body =
      1
      ∷ tags_encode rec.entry (
          heads_encode rec.history
          ++ (to_be_bytes 8 rec.max_ver ++ sealed rec.entry.device_entry.seal []))

  decode_body : length body ≤ usize_max → range_delete_decode range body ≡ some rec
  unfolding range_delete_decode body max_admission_seq
  decode_body fits =
      let b = Before-new body fits in
      let (e0, b0) = read_u8_lem (reader_new body) 1 _ b in
      let (r1, e1, b1) = read_tags_lem rec.entry _ _ v.entry_valid b0 in
      let (r2, e2, b2) = read_heads_lem rec.history r1 _ v.history_valid b1 in
      let (e3, b3) = read_u64_lem r2 rec.max_ver _ v.ver_fits b2 in
      let (r4, e4, b4) =
        read_seal_lem rec.entry.device_entry.seal _ [] v.entry_valid.seal_valid b3 in
      rw (e0, e1, e2, e3, e4, rest-Before _ _ b4, v.consistency)
        (ap
          (λ m. some (record rec {
            entry = record {
              device_entry = record rec.entry.device_entry { mutation = m };
              admission = rec.entry.admission;
            };
          }))
          (sym v.target))

  -- A well-formed tombstone has an encoding, and where that fits the address space it is decoded
  -- from it, under its range.
  pub range_delete_decode-encode :
      (bytes : Bytes) × (range_delete_encode rec ≡ some bytes)
      × (length bytes ≤ usize_max → range_delete_decode range bytes ≡ some rec)
  unfolding range_delete_encode body is_delete_range
  range_delete_decode-encode = (body, rw v.target refl, decode_body)
