-- ===== src/Leases/Examples.antt =====
-- The lease verbs on concrete tables.
use homebase.Prelude.{
  ◌≡◌, refl, List, [], ◌∷◌, none, some, ok, err, All, arith, not, nat_ord, list_ord, ◌⊎◌, ◌↔◌,
}
use homebase.Prelude.Bytes.{Bytes, IsByte}
use homebase.Key.{Key, IsKey, encode_components, push_component_byte}
use homebase.Clock.{HybridTimestamp}
use homebase.Lease.{Lease, read, write}
use homebase.Messages.{LeaseSpec, AcquireRequest, ReleaseRequest, RenewRequest, KernelError}
use homebase.Range.{full}
use homebase.Schema.LeaseRecord.{CountersRecord, LeaseRecord, counters_default, is_live}
use homebase.Storage.{MemoryStore, scan_prefix, get}
use homebase.Leases.{LeaseManager, Verb, manager_new, overlapping, covering, counters}
use homebase.Prelude.Map.{map_range, map_get}
use homebase.Leases.Exclusion.{IsSpace, IsRequest}
use homebase.Leases.Table.{IsTable, Held}
use homebase.Leases.Scan.{Overlapping, overlapping_lem}
use homebase.Leases.Scan.Selection.{Exactly}
use homebase.Leases.Scan.Covering.{Covering, covering_lem}
use homebase.Leases.Admission.{KeyAllowed, RangeAllowed, validate_writes_iff}
use homebase.Leases.Renew.{IsRenewal}
use homebase.Leases.Renew.Outcome.{RenewsAll, renew_lem}
use homebase.Leases.Listing.{Lists, list_leases_lem}
use homebase.Leases.Release.{Foreign, release_lem}
use homebase.Leases.Verbs.{acquire, release, validate_writes}
use homebase.Leases.Acquire.Conflict.{Unblocked, Unrelated}
use homebase.Leases.Acquire.Safety.{IsSpace-new, After, acquire-ok_iff, acquire-IsSpace}

abbrev zeros : Bytes
zeros = 0 ∷ 0 ∷ 0 ∷ 0 ∷ 0 ∷ 0 ∷ 0 ∷ 0 ∷ 0 ∷ 0 ∷ 0 ∷ 0 ∷ 0 ∷ 0 ∷ 0 ∷ 0 ∷ []

abbrev device_one : Bytes
device_one = 1 ∷ 0 ∷ 0 ∷ 0 ∷ 0 ∷ 0 ∷ 0 ∷ 0 ∷ 0 ∷ 0 ∷ 0 ∷ 0 ∷ 0 ∷ 0 ∷ 0 ∷ 0 ∷ []

abbrev manager : LeaseManager
manager = manager_new (7 ∷ [])

abbrev db : Key
db = (100 ∷ 98 ∷ []) ∷ []

abbrev logs : Key
logs = (108 ∷ []) ∷ (0 ∷ []) ∷ []

abbrev start : HybridTimestamp
start = record { wall = 0; mono = 0; lineage = zeros }

abbrev write_db : LeaseSpec
write_db = record { prefix = db; mode = write; ttl = 100 }

abbrev read_logs : LeaseSpec
read_logs = record { prefix = logs; mode = read; ttl = 50 }

abbrev request : AcquireRequest
request = record { device = zeros; requested_at = start; specs = write_db ∷ read_logs ∷ [] }

space_bytes : All IsByte manager.space
space_bytes = (omega arith, tt)

db-IsKey : IsKey db
unfolding encode_components push_component_byte
db-IsKey = record {
  components = ((omega arith, omega arith), tt);
  nonempty = omega arith;
  depth = omega arith;
  size = omega arith;
}

logs-IsKey : IsKey logs
unfolding encode_components push_component_byte
logs-IsKey = record {
  components = ((omega arith, omega arith), ((omega arith, omega arith), tt));
  nonempty = omega arith;
  depth = omega arith;
  size = omega arith;
}

request-IsRequest : IsRequest request
request-IsRequest = record {
  device_len = refl;
  wall_fits = omega arith;
  mono_fits = omega arith;
  lineage_len = refl;
  specs_valid = (
    record {
      prefix_valid = db-IsKey;
      prefix_bytes = ((omega arith, (omega arith, tt)), tt);
      ttl_fits = omega arith;
    },
    (
      record {
        prefix_valid = logs-IsKey;
        prefix_bytes = ((omega arith, tt), ((omega arith, tt), tt));
        ttl_fits = omega arith;
      },
      tt,
    ),
  );
}

-- The store that a verb leaves, and its manager.
abbrev store_after : {A : Type 0} → Verb A → MemoryStore
store_after none = []
store_after (some (mgr, store, answer)) = store

abbrev leases_after : Verb (List Lease) → List Lease
leases_after none = []
leases_after (some (mgr, store, ok leases)) = leases
leases_after (some (mgr, store, err e)) = []

abbrev one_write : AcquireRequest
one_write = record { device = zeros; requested_at = start; specs = write_db ∷ [] }

one_store : MemoryStore
one_store = store_after (acquire manager [] 10 one_write)

acquired :
    acquire manager [] 10 one_write
    ≡ some (manager, one_store, ok (leases_after (acquire manager [] 10 one_write)))
unfolding one_store acquire overlapping scan_prefix map_range counters get map_get
acquired = refl

acquire-ok_iff_example :
    ((mgr' : LeaseManager) × (store' : MemoryStore) × (leases : List Lease) × (acquire manager [] 10
          request
        ≡ some (mgr', store', ok leases)))
    ↔ (All (Unblocked manager.space [] 10) request.specs × Unrelated request.specs)
acquire-ok_iff_example =
    acquire-ok_iff manager [] 10 request counters_default space_bytes (IsSpace-new (7 ∷ []) 10)
      request-IsRequest (omega arith) (omega arith)

one_write-IsRequest : IsRequest one_write
one_write-IsRequest = record {
  device_len = refl;
  wall_fits = omega arith;
  mono_fits = omega arith;
  lineage_len = refl;
  specs_valid = (request-IsRequest.specs_valid.0, tt);
}

acquire-IsSpace_example : After manager.space [] 10 counters_default one_store
acquire-IsSpace_example =
    acquire-IsSpace manager [] 10 one_write counters_default space_bytes (IsSpace-new (7 ∷ []) 10)
      one_write-IsRequest (omega arith) (omega arith) manager one_store
      (ok (leases_after (acquire manager [] 10 one_write))) acquired

-- The counters of the table of one lease, and its invariant.
one_space : After manager.space [] 10 counters_default one_store
one_space =
    acquire-IsSpace manager [] 10 one_write counters_default space_bytes (IsSpace-new (7 ∷ []) 10)
      one_write-IsRequest (omega arith) (omega arith) manager one_store
      (ok (leases_after (acquire manager [] 10 one_write))) acquired

abbrev one_counters : CountersRecord
one_counters = one_space.0

one-IsTable : IsTable manager.space one_store
one-IsTable = one_space.1.table

abbrev release_one : ReleaseRequest
release_one = record { device = zeros; leases = 0 ∷ 5 ∷ [] }

release_lem_example :
    (mgr' : LeaseManager) × (store' : MemoryStore) × (release manager one_store 10 release_one
      ≡ some (mgr', store', ok tt))
    × IsSpace manager.space store' 10 one_counters
    × ((r : LeaseRecord)
        → Held manager.space one_store r
        → Foreign 10 release_one r
        → Held manager.space store' r)
    × All
        (λ id.
          (r : LeaseRecord) → Held manager.space store' r → r.id ≡ id → Foreign 10 release_one r)
        release_one.leases
release_lem_example =
    release_lem one_store 10 release_one manager one_counters space_bytes one_space.1

overlapping_lem_example :
    (live dead : List LeaseRecord) × (overlapping manager.space one_store 10 db ≡ some (live, dead))
    × Exactly (Overlapping manager.space one_store (λ r. is_live r 10) db) live
    × Exactly (Overlapping manager.space one_store (λ r. not (is_live r 10)) db) dead
overlapping_lem_example =
    overlapping_lem manager.space space_bytes one_store one-IsTable 10 db
      request-IsRequest.specs_valid.0.prefix_bytes

covering_lem_example :
    (live : List LeaseRecord) × (covering manager.space one_store 10 db ≡ some live)
    × Exactly (Covering manager.space one_store 10 db) live
covering_lem_example =
    covering_lem manager.space space_bytes one_store one-IsTable 10 db
      request-IsRequest.specs_valid.0.prefix_bytes (omega arith)

validate_writes_iff_example :
    ((validate_writes manager.space one_store 10 device_one [] (db ∷ []) (full ∷ []) ≡ some (ok tt))
      × All (KeyAllowed manager.space one_store 10 device_one) (db ∷ [])
      × All (RangeAllowed manager.space one_store 10 device_one) (full ∷ []))
    ⊎ ((e : KernelError) × (validate_writes manager.space one_store 10 device_one []
            (db ∷ [])
            (full ∷ [])
          ≡ some (err e))
        × (¬ (
            All (KeyAllowed manager.space one_store 10 device_one) (db ∷ [])
            × All (RangeAllowed manager.space one_store 10 device_one) (full ∷ []))))
validate_writes_iff_example =
    validate_writes_iff manager.space space_bytes one_store one-IsTable 10 device_one [] (db ∷ [])
      (full ∷ []) ((db-IsKey, request-IsRequest.specs_valid.0.prefix_bytes), tt) (tt, tt)

abbrev renew_one : RenewRequest
renew_one = record { device = zeros; requested_at = start; leases = 0 ∷ 5 ∷ [] }

renew_one-IsRenewal : IsRenewal renew_one
renew_one-IsRenewal = record {
  wall_fits = omega arith;
  mono_fits = omega arith;
  lineage_len = refl;
  ids_fit = (omega arith, (omega arith, tt));
}

renew_lem_example : RenewsAll manager one_store 10 renew_one one_counters
renew_lem_example =
    renew_lem manager one_store 10 renew_one one_counters space_bytes one_space.1 (omega arith)
      renew_one-IsRenewal

list_leases_lem_example : Lists manager one_store 10 (record { device = zeros }) one_counters
list_leases_lem_example =
    list_leases_lem manager one_store 10 (record { device = zeros }) one_counters space_bytes
      one_space.1
