-- ===== src/Schema/LeaseRecord.antt =====
-- server/src/schema.rs: the records of the lease table and the counters, and their codecs.
pub mod Codec
use homebase.Prelude.{
  ℕ, ◌+◌, ◌≤◌, ◌<◌, ◌^◌, ◌≡◌, Bool, true, false, List, [], ◌∷◌, ◌++◌, length, ltb, ◌==◌, nat_ord,
  if◌then◌else◌, Option, none, some, to_option, zero, suc,
}
use homebase.Prelude.Bytes.{Bytes, to_be_bytes}
use homebase.Key.{Key, IsKey, key_encode, key_decode}
use homebase.Clock.{HybridTimestamp, Timestamp, Duration, clamp_millis, u64_max}
use homebase.Tag.{AdmissionSeq, DeviceId}
use homebase.Lease.{LeaseId, LeaseMode, read, write}
use homebase.Reader.{reader_new, read_u8, read_u64, read_bytes16, rest, ◌>>=◌}

abbrev pub lease_record_version : ℕ
lease_record_version = 2

abbrev pub counters_record_version : ℕ
counters_record_version = 1

pub record LeaseRecord : Type 0 where
  pub id : LeaseId
  pub prefix : Key
  pub mode : LeaseMode
  pub device : DeviceId
  pub requested_at : HybridTimestamp
  pub granted_at : Timestamp
  pub barrier : AdmissionSeq
  pub deadline : Timestamp
  pub ttl : Duration

unfoldable pub is_live : LeaseRecord → Timestamp → Bool
is_live rec now = ltb now rec.deadline

abbrev pub mode_byte : LeaseMode → ℕ
mode_byte read = 0
mode_byte write = 1

abbrev pub mode_of_byte : ℕ → Option LeaseMode
mode_of_byte zero = some read
mode_of_byte (suc zero) = some write
mode_of_byte (suc (suc n)) = none

abbrev pub check : Bool → Option (Unit {0})
check true = some tt
check false = none

-- `LeaseRecord::encode`
unfoldable pub lease_encode : LeaseRecord → Bytes
lease_encode rec =
    lease_record_version
    ∷ (to_be_bytes 8 rec.id
        ++ (mode_byte rec.mode
            ∷ (rec.device
                ++ (to_be_bytes 8 rec.requested_at.wall
                    ++ (to_be_bytes 8 rec.requested_at.mono
                        ++ (rec.requested_at.lineage
                            ++ (to_be_bytes 8 rec.granted_at
                                ++ (to_be_bytes 8 rec.barrier
                                    ++ (to_be_bytes 8 rec.deadline
                                        ++ (to_be_bytes 8 (clamp_millis rec.ttl)
                                            ++ key_encode rec.prefix))))))))))

-- `LeaseRecord::decode`
unfoldable pub lease_decode : Bytes → Option LeaseRecord
lease_decode bytes = do
  (version, r0) ← read_u8 (reader_new bytes)
  done ← check (version == lease_record_version)
  (id, r1) ← read_u64 r0
  (mode_tag, r2) ← read_u8 r1
  mode ← mode_of_byte mode_tag
  (device, r3) ← read_bytes16 r2
  (wall, r4) ← read_u64 r3
  (mono, r5) ← read_u64 r4
  (lineage, r6) ← read_bytes16 r5
  (granted_at, r7) ← read_u64 r6
  (barrier, r8) ← read_u64 r7
  (deadline, r9) ← read_u64 r8
  (ttl, r10) ← read_u64 r9
  prefix ← to_option (key_decode (rest r10))
  some (record {
    id = id;
    prefix = prefix;
    mode = mode;
    device = device;
    requested_at = record { wall = wall; mono = mono; lineage = lineage };
    granted_at = granted_at;
    barrier = barrier;
    deadline = deadline;
    ttl = ttl;
  })

pub record CountersRecord : Type 0 where
  pub next_lease_id : ℕ
  pub admission_high_water : ℕ

-- `CountersRecord::default()`
abbrev pub counters_default : CountersRecord
counters_default = record { next_lease_id = 0; admission_high_water = 0 }

unfoldable pub counters_encode : CountersRecord → Bytes
counters_encode c =
    counters_record_version
    ∷ (to_be_bytes 8 c.next_lease_id ++ to_be_bytes 8 c.admission_high_water)

unfoldable pub counters_decode : Bytes → Option CountersRecord
counters_decode bytes = do
  (version, r0) ← read_u8 (reader_new bytes)
  done ← check (version == counters_record_version)
  (next_lease_id, r1) ← read_u64 r0
  (admission_high_water, r2) ← read_u64 r1
  some (record { next_lease_id = next_lease_id; admission_high_water = admission_high_water })

-- What the types of the fields guarantee, and that the time to live has whole milliseconds.
pub record IsLeaseRecord (rec : LeaseRecord) : Type 0 where
  pub id_fits : rec.id < 256 ^ 8
  pub prefix_valid : IsKey rec.prefix
  pub device_len : length rec.device ≡ 16
  pub wall_fits : rec.requested_at.wall < 256 ^ 8
  pub mono_fits : rec.requested_at.mono < 256 ^ 8
  pub lineage_len : length rec.requested_at.lineage ≡ 16
  pub granted_fits : rec.granted_at < 256 ^ 8
  pub barrier_fits : rec.barrier < 256 ^ 8
  pub deadline_fits : rec.deadline < 256 ^ 8
  pub ttl_fits : rec.ttl ≤ u64_max
