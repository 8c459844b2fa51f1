-- ===== src/Space/Examples.antt =====
-- A run of a space: an acquired lease, time that passes, and an admission under the lease.
use homebase.Prelude.{
  ◌≡◌, ◌+◌, ◌<◌, ◌^◌, refl, subst, [], ◌∷◌, none, some, err, Option, arith, replicate, All, nat_ord,
  list_ord,
}
use homebase.Prelude.Bytes.{Bytes, IsByte, to_be_bytes, from_be_bytes}
use homebase.Prelude.Map.{map_get, map_insert, map_range}
use homebase.Key.{
  Key, IsKey, encode_components, decode_components, key_new, encoded_components_len, key_decode,
  key_encode,
}
use homebase.Lease.{write}
use homebase.Messages.{AcquireRequest, AdmissionRequest, KernelError}
use homebase.Reader.{read_u8, read_u64, read_bytes16, read_take, rest}
use homebase.Schema.{
  root_meta_key, prefix_meta_key, lease_by_prefix_key, lease_by_id_key, lease_by_prefix_scan,
}
use homebase.Schema.LeaseRecord.{
  CountersRecord, counters_default, counters_decode, lease_decode, lease_encode, is_live,
}
use homebase.Seal.{empty_aead_v1}
use homebase.Storage.{MemoryStore, get, scan_prefix, prefix_successor}
use homebase.Tag.{set, checksum_empty}
use homebase.Leases.{counters, covering, overlapping, put_records, purge_records}
use homebase.Leases.Exclusion.{IsRequest}
use homebase.Leases.Acquire.Safety.{IsSpace-new}
use homebase.Space.{Space, Reply, reply_admit, call_acquire, call_admit, space_new, serve}
use homebase.Space.Runs.{World, Run, start, later, called, Kept, run-IsSpace}

abbrev id : Bytes
id = 7 ∷ replicate 15 0

abbrev hash : Bytes → Bytes
hash bytes = replicate 32 7

abbrev world : World
world = record { space = space_new id; store = []; now = 10 }

abbrev row : Key
row = (114 ∷ []) ∷ []

abbrev device : Bytes
device = replicate 16 0

abbrev acquire_row : AcquireRequest
acquire_row = record {
  device = device;
  requested_at = record { wall = 0; mono = 0; lineage = device };
  specs = record { prefix = row; mode = write; ttl = 100 } ∷ [];
}

abbrev admit_row : AdmissionRequest
admit_row = record {
  device = device;
  expected_checksum = checksum_empty;
  evidence = [];
  batches =
      record {
        device_seq = 1;
        range_asserts = [];
        entries =
            record {
              mutation = set row (42 ∷ []);
              tag = record { device = device; device_seq = 1; ver = 5; cipher_epoch = 0 };
              seal = empty_aead_v1;
            }
            ∷ [];
      }
      ∷ [];
}

-- What a call leaves, and answers.
abbrev served : Option (Space × MemoryStore × Reply) → Space × MemoryStore × Reply
served none = (space_new [], [], reply_admit (err KernelError.invalid_seal))
served (some result) = result

leased : Space × MemoryStore × Reply
leased = served (serve hash world.space world.store 10 (call_acquire acquire_row))

acquired :
    serve hash world.space world.store 10 (call_acquire acquire_row)
    ≡ some (leased.0, leased.1, leased.2)
unfolding leased serve overlapping scan_prefix map_range counters get map_get
acquired = refl

abbrev held : World
held = record { space = leased.0; store = leased.1; now = 50 }

written : Space × MemoryStore × Reply
written = served (serve hash held.space held.store 50 (call_admit admit_row))

admitted :
    serve hash held.space held.store 50 (call_admit admit_row)
    ≡ some (written.0, written.1, written.2)
unfolding written leased serve overlapping scan_prefix map_range counters get map_get put_records
    purge_records map_insert lease_by_prefix_key encode_components lease_by_id_key covering
    lease_by_prefix_scan to_be_bytes lease_decode read_u8 lease_encode read_u64 read_take key_encode
    read_bytes16 key_decode decode_components key_new encoded_components_len from_be_bytes rest
    prefix_successor counters_decode root_meta_key prefix_meta_key is_live
admitted = refl

abbrev one_lease : CountersRecord
one_lease = record { next_lease_id = 1; admission_high_water = 0 }

held_counters : counters held.space.id held.store ≡ some one_lease
unfolding leased serve overlapping scan_prefix map_range counters get map_get put_records
    purge_records map_insert lease_by_prefix_key encode_components lease_by_id_key covering
    lease_by_prefix_scan to_be_bytes lease_decode read_u8 lease_encode read_u64 read_take key_encode
    read_bytes16 key_decode decode_components key_new encoded_components_len from_be_bytes rest
    prefix_successor counters_decode root_meta_key prefix_meta_key
held_counters = refl

new_counters : counters id [] ≡ some counters_default
unfolding counters get map_get
new_counters = refl

id_bytes : All IsByte id
id_bytes = (
  omega arith,
  (
    omega arith,
    (
      omega arith,
      (
        omega arith,
        (
          omega arith,
          (
            omega arith,
            (
              omega arith,
              (
                omega arith,
                (
                  omega arith,
                  (
                    omega arith,
                    (
                      omega arith,
                      (omega arith, (omega arith, (omega arith, (omega arith, (omega arith, tt))))),
                    ),
                  ),
                ),
              ),
            ),
          ),
        ),
      ),
    ),
  ),
)

device_bytes : All IsByte device
device_bytes = (
  omega arith,
  (
    omega arith,
    (
      omega arith,
      (
        omega arith,
        (
          omega arith,
          (
            omega arith,
            (
              omega arith,
              (
                omega arith,
                (
                  omega arith,
                  (
                    omega arith,
                    (
                      omega arith,
                      (omega arith, (omega arith, (omega arith, (omega arith, (omega arith, tt))))),
                    ),
                  ),
                ),
              ),
            ),
          ),
        ),
      ),
    ),
  ),
)

row-IsKey : IsKey row
unfolding encode_components
row-IsKey = record {
  components = ((omega arith, omega arith), tt);
  nonempty = omega arith;
  depth = omega arith;
  size = omega arith;
}

acquire_row-IsRequest : IsRequest acquire_row
acquire_row-IsRequest = record {
  device_len = refl;
  wall_fits = omega arith;
  mono_fits = omega arith;
  lineage_len = refl;
  specs_valid = (
    record {
      prefix_valid = row-IsKey;
      prefix_bytes = ((omega arith, tt), tt);
      ttl_fits = omega arith;
    },
    tt,
  );
}

same_counters :
    (space : Bytes) (store : MemoryStore) (c d : CountersRecord)
    → counters space store ≡ some c
    → counters space store ≡ some d
    → c ≡ d
same_counters space store c d e f = cc

run : Run hash world (record { space = written.0; store = written.1; now = 50 })
run =
    called held (call_admit admit_row) written.0 written.1 written.2
      (later (record { space = leased.0; store = leased.1; now = 10 }) 50
        (called world (call_acquire acquire_row) leased.0 leased.1 leased.2 start
          (
            acquire_row-IsRequest,
            omega arith,
            λ c e.
                subst (λ (d : CountersRecord). d.next_lease_id + 1 < 256 ^ 8)
                  (same_counters id [] counters_default c new_counters e) (omega arith),
          )
          acquired)
        (omega arith))
      (
        device_bytes,
        ((((omega arith, tt), tt), tt), tt),
        λ c e.
            subst (λ (d : CountersRecord). d.admission_high_water + 1 + 1 < 2 ^ 64)
              (same_counters held.space.id held.store one_lease c held_counters e) (omega arith),
      )
      admitted

run-IsSpace_example : (written.0.id ≡ id) × Kept id written.1 50 counters_default
run-IsSpace_example =
    run-IsSpace hash world (record { space = written.0; store = written.1; now = 50 })
      counters_default id_bytes (IsSpace-new id 10) run
