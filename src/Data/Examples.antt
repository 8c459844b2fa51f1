-- ===== src/Data/Examples.antt =====
-- The data plane on a concrete store.
use homebase.Prelude.{
  ℕ, ◌<◌, ◌^◌, length, ok, ◌≡◌, refl, [], ◌∷◌, none, some, err, Result, Option, arith, replicate,
  nat_ord, list_ord, All, Bool, true, ◌↔◌,
}
use homebase.Prelude.Bytes.{Bytes, IsByte, to_be_bytes, from_be_bytes}
use homebase.Prelude.Map.{map_get, map_insert, map_range}
use homebase.Key.{Key, IsKey, encode_components, decode_components, key_new, encoded_components_len}
use homebase.Reader.{read_u8, read_u32, read_u64, read_bytes16, read_take, rest}
use homebase.Messages.{KernelError, AdmissionRequest, AdmissionResponse, PullRequest}
use homebase.Schema.{root_meta_key, prefix_meta_key, range_delete_key}
use homebase.Schema.DataRecord.{DataRecord, data_encode}
use homebase.Schema.RangeDelete.{
  RangeDeleteRecord, range_delete_encode, range_delete_decode, covering_ranges,
}
use homebase.Schema.RangeDelete.Covering.{Covered, covering_ranges-Covered}
use homebase.Schema.LeaseRecord.{CountersRecord, counters_default, counters_decode}
use homebase.Seal.{empty_aead_v1, seal_encode, seal_decode}
use homebase.Storage.{MemoryStore, get, scan_prefix, prefix_successor}
use homebase.Tag.{point_key, DeviceEntry, set, delete_range, checksum_empty}
use homebase.Range.{Range, full, prefix}
use homebase.Leases.{covering, overlapping}
use homebase.Leases.Acquire.Safety.{IsSpace-new}
use homebase.Data.{device_at, counters_at, range_delete_at, point_record_visible}
use homebase.Data.Visible.{Readable, Standing, point_record_visible_iff}
use homebase.Data.Admit.{admit}
use homebase.Data.Written.Targets.{ValidBatch}
use homebase.Data.Written.Whole.{Whole, admit-Whole}
use homebase.Data.Log.{pull}
use homebase.Data.Pull.{Row, Rows, Holds, page_of, pull-Holds}
use homebase.Schema.AdmissionLog.{point, range, admission_op_scan}
use homebase.Schema.AdmissionLog.Parts.{op_key}
use homebase.Schema.DataRecord.Codec.{IsEntry}
use homebase.Schema.RangeDelete.Codec.{IsTombstone}
use homebase.Schema.Heads.{HistoricalHeads, admission_empty, heads_encode, max_admission_seq}
use homebase.Schema.Records.{header_decode}
use homebase.Seal.{IsSeal, validate_payload}
use homebase.Tag.{AdmittedEntry, is_delete_range}
use homebase.Messages.{AdmittedBatch}

abbrev space_one : Bytes
space_one = 9 ∷ replicate 15 0

abbrev device_one : Bytes
device_one = 1 ∷ replicate 15 0

abbrev row : Key
row = (114 ∷ []) ∷ (1 ∷ []) ∷ []

abbrev table : Key
table = (114 ∷ []) ∷ []

-- A stand-in for the hash, of the right length.
abbrev hash : Bytes → Bytes
hash bytes = replicate 32 7

abbrev write_row : DeviceEntry
write_row = record {
  mutation = set row (42 ∷ []);
  tag = record { device = device_one; device_seq = 1; ver = 5; cipher_epoch = 0 };
  seal = empty_aead_v1;
}

abbrev clear_table : DeviceEntry
clear_table = record {
  mutation = delete_range (prefix table);
  tag = record { device = device_one; device_seq = 1; ver = 6; cipher_epoch = 0 };
  seal = empty_aead_v1;
}

abbrev two_writes : AdmissionRequest
two_writes = record {
  device = device_one;
  expected_checksum = checksum_empty;
  evidence = [];
  batches =
      record { device_seq = 1; range_asserts = []; entries = write_row ∷ clear_table ∷ [] } ∷ [];
}

abbrev store_of : Option (MemoryStore × Result KernelError AdmissionResponse) → MemoryStore
store_of none = []
store_of (some (store, answer)) = store

abbrev answer_of :
    Option (MemoryStore × Result KernelError AdmissionResponse)
    → Result KernelError AdmissionResponse
answer_of none = err KernelError.invalid_seal
answer_of (some (store, answer)) = answer

written_store : MemoryStore
written_store = store_of (admit hash space_one [] 10 two_writes)

written :
    admit hash space_one [] 10 two_writes
    ≡ some (written_store, answer_of (admit hash space_one [] 10 two_writes))
unfolding written_store admit get map_get covering scan_prefix map_range overlapping map_insert
    root_meta_key encode_components prefix_meta_key to_be_bytes
written = refl

space_bytes : All IsByte space_one
space_bytes = (
  omega arith,
  (
    omega arith,
    (
      omega arith,
      (
        omega arith,
        (
          omega arith,
          (
            omega arith,
            (
              omega arith,
              (
                omega arith,
                (
                  omega arith,
                  (
                    omega arith,
                    (
                      omega arith,
                      (omega arith, (omega arith, (omega arith, (omega arith, (omega arith, tt))))),
                    ),
                  ),
                ),
              ),
            ),
          ),
        ),
      ),
    ),
  ),
)

device_bytes : All IsByte device_one
device_bytes = (
  omega arith,
  (
    omega arith,
    (
      omega arith,
      (
        omega arith,
        (
          omega arith,
          (
            omega arith,
            (
              omega arith,
              (
                omega arith,
                (
                  omega arith,
                  (
                    omega arith,
                    (
                      omega arith,
                      (omega arith, (omega arith, (omega arith, (omega arith, (omega arith, tt))))),
                    ),
                  ),
                ),
              ),
            ),
          ),
        ),
      ),
    ),
  ),
)

unknown_device : device_at space_one [] device_one ≡ some none
unfolding device_at get map_get
unknown_device = refl

abbrev pull_all : PullRequest
pull_all = record { after = 0; max_batches = none }

abbrev one_admission : CountersRecord
one_admission = record { next_lease_id = 0; admission_high_water = 1 }

written_counters : counters_at space_one written_store ≡ some one_admission
unfolding counters_at written_store admit get map_get covering scan_prefix map_range overlapping
    map_insert root_meta_key encode_components prefix_meta_key to_be_bytes counters_decode read_u8
    read_u64 read_take from_be_bytes
written_counters = refl

row-IsKey : IsKey row
unfolding encode_components
row-IsKey = record {
  components = ((omega arith, omega arith), ((omega arith, omega arith), tt));
  nonempty = omega arith;
  depth = omega arith;
  size = omega arith;
}

abbrev set_entry : AdmittedEntry
set_entry = record {
  device_entry = write_row;
  admission = record { admission_seq = 1; op_index = 0 };
}

abbrev clear_entry : AdmittedEntry
clear_entry = record {
  device_entry = clear_table;
  admission = record { admission_seq = 1; op_index = 1 };
}

abbrev logged_batch : AdmittedBatch
logged_batch = record {
  admission_seq = 1;
  device = device_one;
  device_seq = 1;
  checksum = hash [];
  entries = set_entry ∷ clear_entry ∷ [];
}

abbrev bytes_of : Option Bytes → Bytes
bytes_of none = []
bytes_of (some bytes) = bytes

abbrev clear_heads : HistoricalHeads
clear_heads = record {
  first = record { device = device_one; admission_seq = 1 };
  second = admission_empty;
}

abbrev clear_tombstone : RangeDeleteRecord
clear_tombstone = record { entry = clear_entry; history = clear_heads; max_ver = 6 }

numbered-IsEntry :
    (index : ℕ) (e : DeviceEntry)
    → length e.tag.device ≡ 16
    → e.tag.device_seq < 256 ^ 8
    → e.tag.ver < 256 ^ 8
    → e.tag.cipher_epoch < 256 ^ 8
    → index < 256 ^ 4
    → IsSeal e.seal
    → IsEntry
        (record { device_entry = e; admission = record { admission_seq = 1; op_index = index } })
numbered-IsEntry index e d q v c i s = record {
  device_len = d;
  seq_fits = q;
  ver_fits = v;
  epoch_fits = c;
  admission_fits = omega arith;
  index_fits = i;
  seal_valid = s;
}

empty_aead_v1-IsSeal : IsSeal empty_aead_v1
unfolding validate_payload
empty_aead_v1-IsSeal = record { nonce_len = refl; aead_len = refl; valid = refl }

set-IsEntry : IsEntry set_entry
set-IsEntry =
    numbered-IsEntry 0 write_row refl (omega arith) (omega arith) (omega arith) (omega arith)
      empty_aead_v1-IsSeal

clear-IsTombstone : IsTombstone (prefix table) clear_tombstone
unfolding max_admission_seq
clear-IsTombstone = record {
  target = refl;
  entry_valid =
      numbered-IsEntry 1 clear_table refl (omega arith) (omega arith) (omega arith) (omega arith)
        empty_aead_v1-IsSeal;
  history_valid = record {
    first_len = refl;
    first_fits = omega arith;
    second_len = refl;
    second_fits = omega arith;
    ordered = refl;
  };
  ver_fits = omega arith;
  consistency = refl;
}

table-IsKey : IsKey table
unfolding encode_components
table-IsKey = record {
  components = ((omega arith, omega arith), tt);
  nonempty = omega arith;
  depth = omega arith;
  size = omega arith;
}

two_writes-ValidBatch : All ValidBatch two_writes.batches
two_writes-ValidBatch = (
  (
    (row-IsKey, ((omega arith, tt), ((omega arith, tt), tt))),
    ((table-IsKey, ((omega arith, tt), tt)), tt),
  ),
  tt,
)

admit-Whole_example :
    Whole space_one hash [] 10 two_writes counters_default none
      (written_store, answer_of (admit hash space_one [] 10 two_writes))
admit-Whole_example =
    admit-Whole space_one space_bytes hash [] 10 two_writes counters_default none
      (IsSpace-new space_one 10) unknown_device device_bytes two_writes-ValidBatch (omega arith)
      (written_store, answer_of (admit hash space_one [] 10 two_writes)) written

set_row : Row set_entry (point row) (bytes_of (data_encode (record { entry = set_entry })))
unfolding data_encode point_key encode_components to_be_bytes seal_encode
set_row = (refl, row-IsKey, set-IsEntry, refl, omega arith)

clear-Row : Row clear_entry (range (prefix table)) (bytes_of (range_delete_encode clear_tombstone))
unfolding range_delete_encode encode_components to_be_bytes seal_encode heads_encode is_delete_range
clear-Row = (clear_tombstone, refl, table-IsKey, clear-IsTombstone, refl, omega arith)

logged-Rows :
    Rows space_one 1 0
      (set_entry ∷ clear_entry ∷ [])
      (scan_prefix written_store (admission_op_scan space_one 1))
unfolding Rows written_store admit get map_get covering scan_prefix map_range overlapping map_insert
    root_meta_key encode_components prefix_meta_key to_be_bytes admission_op_scan prefix_successor
    op_key seal_encode
logged-Rows = ((point row, refl, set_row), ((range (prefix table), refl, clear-Row), tt))

logged_batch-Holds : Holds space_one written_store logged_batch
unfolding written_store admit get map_get covering scan_prefix map_range overlapping map_insert
    root_meta_key encode_components prefix_meta_key to_be_bytes header_decode read_u8 read_u64
    read_take from_be_bytes read_bytes16 read_u32 rest
logged_batch-Holds = record {
  header_bytes = _;
  header_stored = refl;
  header_read = refl;
  rows = logged-Rows;
}

pull-Holds_example :
    pull space_one written_store pull_all ≡ some (ok (page_of pull_all 1 (logged_batch ∷ [])))
pull-Holds_example =
    pull-Holds space_one written_store pull_all one_admission (logged_batch ∷ []) refl
      written_counters (omega arith)
      (refl, (refl, omega arith, (refl, refl, refl, refl, (refl, refl, refl, refl, tt)), tt))
      (logged_batch-Holds, tt)

abbrev row_record : DataRecord
row_record = record {
  entry = record {
    device_entry = write_row;
    admission = record { admission_seq = 1; op_index = 0 };
  };
}

abbrev found : Range → Option RangeDeleteRecord
found r = elim (range_delete_at space_one written_store r) [ none ↦ none | some t ↦ t ]

readable : All (Readable space_one written_store) (full ∷ prefix table ∷ prefix row ∷ [])
unfolding range_delete_at range_delete_key range_delete_decode written_store admit get map_get
    covering scan_prefix map_range overlapping map_insert root_meta_key encode_components
    prefix_meta_key to_be_bytes counters_decode read_u8 read_u64 read_take from_be_bytes
    read_bytes16 read_u32 rest prefix_successor decode_components key_new encoded_components_len
    seal_encode seal_decode
readable = ((found full, refl), ((found (prefix table), refl), ((found (prefix row), refl), tt)))

row-Readable : Covered (Readable space_one written_store) (prefix row)
unfolding covering_ranges
row-Readable = (covering_ranges-Covered (Readable space_one written_store) row row-IsKey).0 readable

point_record_visible_iff_example :
    (visible : Bool) × (point_record_visible space_one written_store row_record ≡ some visible)
    × ((visible ≡ true)
        ↔ Standing space_one written_store row_record row refl row-IsKey row-Readable)
unfolding point_key
point_record_visible_iff_example =
    point_record_visible_iff space_one written_store row_record row refl row-IsKey row-Readable refl
