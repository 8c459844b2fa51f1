-- ===== src/Schema/LeaseRecord/Codec.antt =====
-- The codecs of lease records and counters (server/src/schema.rs).
use homebase.Prelude.{
  ◌≤◌, ◌<◌, ◌^◌, ◌≡◌, refl, [], length, length-append, append-nil, some, arith, nat_ord,
}
use homebase.Prelude.Bytes.{length-to_be_bytes}
use homebase.Key.{key_encode, usize_max}
use homebase.Key.Limits.{key_decode_iff}
use homebase.Clock.{clamp_millis}
use homebase.Lease.{LeaseMode, read, write}
use homebase.Reader.{reader_new}
use homebase.Reader.Steps.{
  Before-new, rest-Before, skip, read_u8_lem, read_u64_lem, read_bytes16_lem,
}
use homebase.Schema.LeaseRecord.{
  LeaseRecord, IsLeaseRecord, lease_encode, lease_decode, mode_byte, mode_of_byte, CountersRecord,
  counters_encode, counters_decode,
}

mode_of_byte_lem : (m : LeaseMode) → mode_of_byte (mode_byte m) ≡ some m
mode_of_byte_lem read = refl
mode_of_byte_lem write = refl

lease_encode-fits : (rec : LeaseRecord) → IsLeaseRecord rec → length (lease_encode rec) ≤ usize_max
unfolding lease_encode key_encode
lease_encode-fits rec v = simp (length-append, length-to_be_bytes) (omega arith)

-- Every well-formed lease record is decoded from its encoding, every field as it was.
pub lease_decode-encode :
    (rec : LeaseRecord) → IsLeaseRecord rec → lease_decode (lease_encode rec) ≡ some rec
unfolding lease_encode lease_decode key_encode
lease_decode-encode rec v =
    let b = Before-new (lease_encode rec) (lease_encode-fits rec v) in
    let (e0, b0) = read_u8_lem _ _ _ b in
    let (e1, b1) = read_u64_lem _ rec.id _ v.id_fits b0 in
    let (e2, b2) = read_u8_lem _ _ _ b1 in
    let (e3, b3) = read_bytes16_lem _ rec.device _ v.device_len b2 in
    let (e4, b4) = read_u64_lem _ rec.requested_at.wall _ v.wall_fits b3 in
    let (e5, b5) = read_u64_lem _ rec.requested_at.mono _ v.mono_fits b4 in
    let (e6, b6) = read_bytes16_lem _ rec.requested_at.lineage _ v.lineage_len b5 in
    let (e7, b7) = read_u64_lem _ rec.granted_at _ v.granted_fits b6 in
    let (e8, b8) = read_u64_lem _ rec.barrier _ v.barrier_fits b7 in
    let (e9, b9) = read_u64_lem _ rec.deadline _ v.deadline_fits b8 in
    let (e10, b10) = read_u64_lem _ (clamp_millis rec.ttl) _ (omega arith) b9 in
    let t : clamp_millis rec.ttl ≡ rec.ttl = omega (arith, v.ttl_fits) in
    rw
      (
        e0,
        e1,
        e2,
        mode_of_byte_lem rec.mode,
        e3,
        e4,
        e5,
        e6,
        e7,
        e8,
        e9,
        e10,
        rest-Before _ _ b10,
        (key_decode_iff (key_encode rec.prefix) rec.prefix).1 (v.prefix_valid, refl),
      )
      (rw t refl)

-- Counters that fit 64 bits are decoded from their encoding.
pub counters_decode-encode :
    (c : CountersRecord)
    → c.next_lease_id < 256 ^ 8
    → c.admission_high_water < 256 ^ 8
    → counters_decode (counters_encode c) ≡ some c
unfolding counters_encode counters_decode
counters_decode-encode c h k =
    let b = Before-new (counters_encode c) fits in
    let (e0, b0) = read_u8_lem _ _ _ b in
    let (e1, b1) = read_u64_lem _ c.next_lease_id _ h b0 in
    let (e2, b2) =
      read_u64_lem (skip 8 (skip 1 (reader_new (counters_encode c)))) c.admission_high_water [] k
        (rw append-nil b1) in
    rw (e0, e1, e2) refl
  where
    fits : length (counters_encode c) ≤ usize_max
    fits = simp (length-append, length-to_be_bytes) (omega arith)
