-- ===== src/Schema/Examples.antt =====
-- A lease record on concrete fields.
use homebase.Prelude.{◌≡◌, ◌≤◌, refl, List, [], ◌∷◌, length, some, arith}
use homebase.Prelude.Bytes.{Bytes}
use homebase.Key.{Key, usize_max, encode_components, escape}
use homebase.Lease.{read}
use homebase.Schema.LeaseRecord.{
  LeaseRecord, IsLeaseRecord, lease_encode, lease_decode, CountersRecord, counters_encode,
  counters_decode,
}
use homebase.Schema.LeaseRecord.Codec.{lease_decode-encode, counters_decode-encode}
use homebase.Range.{prefix}
use homebase.Clock.{lineage_none}
use homebase.Seal.{IsSeal, empty_aead_v1, validate_payload}
use homebase.Tag.{AdmittedEntry, set, delete_range, point_key}
use homebase.Schema.{range_delete_key}
use homebase.Schema.Heads.{admission_empty, heads_empty, max_excluding, max_admission_seq}
use homebase.Schema.Heads.TopTwo.{Event, observe_all, newest_by_others, max_excluding-observe_all}
use homebase.Schema.DataRecord.{data_encode, data_decode}
use homebase.Schema.DataRecord.Codec.{IsEntry, data_decode-encode}
use homebase.Schema.RangeDelete.{
  RangeDeleteRecord, range_delete_parts, range_delete_encode, range_delete_decode,
}
use homebase.Schema.RangeDelete.Parts.{range_delete_parts-key}
use homebase.Schema.RangeDelete.Codec.{IsTombstone, range_delete_decode-encode}
use homebase.Schema.AdmissionLog.{point, admission_op_parts}
use homebase.Schema.AdmissionLog.Parts.{op_key, admission_op_parts-key}

abbrev id16 : Bytes
id16 = 9 ∷ 8 ∷ 7 ∷ 6 ∷ 5 ∷ 4 ∷ 3 ∷ 2 ∷ 1 ∷ 0 ∷ 0 ∷ 0 ∷ 0 ∷ 0 ∷ 0 ∷ 0 ∷ []

abbrev lease : LeaseRecord
lease = record {
  id = 300;
  prefix = (5 ∷ []) ∷ (0 ∷ 6 ∷ []) ∷ [];
  mode = read;
  device = id16;
  requested_at = record { wall = 70000; mono = 12; lineage = id16 };
  granted_at = 70010;
  barrier = 4;
  deadline = 70110;
  ttl = 100;
}

lease-IsLeaseRecord : IsLeaseRecord lease
unfolding encode_components escape
lease-IsLeaseRecord = record {
  id_fits = omega arith;
  prefix_valid = record {
    components = ((omega arith, omega arith), ((omega arith, omega arith), tt));
    nonempty = omega arith;
    depth = omega arith;
    size = omega arith;
  };
  device_len = refl;
  wall_fits = omega arith;
  mono_fits = omega arith;
  lineage_len = refl;
  granted_fits = omega arith;
  barrier_fits = omega arith;
  deadline_fits = omega arith;
  ttl_fits = omega arith;
}

lease_decode-encode_example : lease_decode (lease_encode lease) ≡ some lease
lease_decode-encode_example = lease_decode-encode lease lease-IsLeaseRecord

abbrev some_counters : CountersRecord
some_counters = record { next_lease_id = 12; admission_high_water = 900 }

counters_decode-encode_example :
    counters_decode (counters_encode some_counters) ≡ some some_counters
counters_decode-encode_example = counters_decode-encode some_counters (omega arith) (omega arith)

abbrev short_key : Key
short_key = (5 ∷ []) ∷ (0 ∷ 6 ∷ []) ∷ []

range_delete_parts-key_example :
    range_delete_parts (range_delete_key id16 (prefix short_key)) ≡ some (id16, prefix short_key)
range_delete_parts-key_example =
    range_delete_parts-key id16 (prefix short_key) refl lease-IsLeaseRecord.prefix_valid

admission_op_parts-key_example :
    admission_op_parts (op_key id16 70000 3 (point short_key)) ≡ some (70000, 3, point short_key)
admission_op_parts-key_example =
    admission_op_parts-key id16 70000 3 (point short_key) refl (omega arith) (omega arith)
      lease-IsLeaseRecord.prefix_valid

abbrev set_entry : AdmittedEntry
set_entry = record {
  device_entry = record {
    mutation = set short_key (1 ∷ 2 ∷ []);
    tag = record { device = id16; device_seq = 4; ver = 9; cipher_epoch = 1 };
    seal = empty_aead_v1;
  };
  admission = record { admission_seq = 12; op_index = 0 };
}

empty-IsSeal : IsSeal empty_aead_v1
unfolding validate_payload
empty-IsSeal = record { nonce_len = refl; aead_len = refl; valid = refl }

set_entry-IsEntry : IsEntry set_entry
set_entry-IsEntry = record {
  device_len = refl;
  seq_fits = omega arith;
  ver_fits = omega arith;
  epoch_fits = omega arith;
  admission_fits = omega arith;
  index_fits = omega arith;
  seal_valid = empty-IsSeal;
}

data_decode-encode_example :
    (bytes : Bytes) × (data_encode (record { entry = set_entry }) ≡ some bytes)
    × (length bytes ≤ usize_max → data_decode short_key bytes ≡ some (record { entry = set_entry }))
unfolding point_key
data_decode-encode_example =
    data_decode-encode (record { entry = set_entry }) short_key set_entry-IsEntry refl

abbrev reset_entry : AdmittedEntry
reset_entry = record set_entry {
  device_entry = record set_entry.device_entry { mutation = delete_range (prefix short_key) };
}

abbrev tombstone : RangeDeleteRecord
tombstone = record {
  entry = reset_entry;
  history = record {
    first = record { device = id16; admission_seq = 12 };
    second = admission_empty;
  };
  max_ver = 9;
}

tombstone-IsTombstone : IsTombstone (prefix short_key) tombstone
unfolding max_admission_seq
tombstone-IsTombstone = record {
  target = refl;
  entry_valid = record {
    device_len = refl;
    seq_fits = omega arith;
    ver_fits = omega arith;
    epoch_fits = omega arith;
    admission_fits = omega arith;
    index_fits = omega arith;
    seal_valid = empty-IsSeal;
  };
  history_valid = record {
    first_len = refl;
    first_fits = omega arith;
    second_len = refl;
    second_fits = omega arith;
    ordered = refl;
  };
  ver_fits = omega arith;
  consistency = refl;
}

range_delete_decode-encode_example :
    (bytes : Bytes) × (range_delete_encode tombstone ≡ some bytes)
    × (length bytes ≤ usize_max → range_delete_decode (prefix short_key) bytes ≡ some tombstone)
range_delete_decode-encode_example =
    range_delete_decode-encode (prefix short_key) tombstone tombstone-IsTombstone

-- Two devices that take turns.
abbrev turns : List Event
turns = (id16, 3) ∷ (lineage_none, 5) ∷ (id16, 7) ∷ (lineage_none, 8) ∷ []

max_excluding-observe_all_example :
    max_excluding (observe_all heads_empty turns) lineage_none
    ≡ newest_by_others lineage_none 0 turns
max_excluding-observe_all_example =
    max_excluding-observe_all turns lineage_none
      (omega arith, (omega arith, (omega arith, (omega arith, tt))))
