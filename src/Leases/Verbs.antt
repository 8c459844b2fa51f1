-- ===== src/Leases/Verbs.antt =====
-- server/src/space/lease.rs: `acquire`, `renew`, `release`, `list_leases` and the reservation
-- check of admission.
use homebase.Prelude.{
  ℕ, ◌+◌, ◌-◌, ◌%◌, Bool, true, false, not, ◌&&◌, ◌||◌, List, [], ◌∷◌, ◌++◌, max, ◌==◌, nat_ord,
  list_ord, if◌then◌else◌, Option, none, some, Result, ok, err, starts_with,
}
use homebase.Prelude.Map.{Map, map_get, map_insert, map_remove}
use homebase.Clock.{Timestamp, HybridTimestamp, saturating_add, u64_max}
use homebase.Key.{Key}
use homebase.Range.{Range, full, prefix}
use homebase.Tag.{AdmissionSeq, DeviceId}
use homebase.Lease.{Lease, LeaseId, LeaseMode, compatible_with}
use homebase.Messages.{
  LeaseSpec, AcquireRequest, RenewRequest, RenewGrant, RenewResponse, ReleaseRequest,
  ListLeasesRequest, KernelError, contended, range_contended,
}
use homebase.Reader.{◌>>=◌}
use homebase.Schema.{SpaceId, lease_by_id_scan, counters_key}
use homebase.Schema.LeaseRecord.{LeaseRecord, is_live, CountersRecord, counters_encode}
use homebase.Storage.{MemoryStore, WriteBatch, put, scan_prefix, apply}
use homebase.Leases.{
  LeaseManager, Verb, select, decode_all, put_records, purge_records, counters, find_by_id,
  overlapping, covering, all_live,
}

-- `AcquireResponse` holds nothing but these.
unfoldable pub public_lease : LeaseRecord → Lease
public_lease record' = record {
  id = record'.id;
  prefix = record'.prefix;
  mode = record'.mode;
  requested_at = record'.requested_at;
  granted_at = record'.granted_at;
  ttl = record'.ttl;
  barrier = record'.barrier;
}

abbrev pub max_deadline : ℕ → List LeaseRecord → ℕ
max_deadline worst [] = worst
max_deadline worst (rec ∷ recs) = max_deadline (max worst rec.deadline) recs

abbrev pub add_demand : Map LeaseId (Unit {0}) → List LeaseRecord → Map LeaseId (Unit {0})
add_demand demand [] = demand
add_demand demand (rec ∷ recs) = add_demand (map_insert rec.id tt demand) recs

-- How the loop over the specs ends: no live lease conflicts, or one spec has blockers.
pub data Checked : Type 0 where
  clear : WriteBatch → Checked
  blocked : WriteBatch → LeaseSpec → List LeaseRecord → Checked

unfoldable pub check_specs :
    SpaceId → MemoryStore → Timestamp → List LeaseSpec → WriteBatch → Option Checked
check_specs space store now [] purge = some (clear purge)
check_specs space store now (spec ∷ specs) purge = do
  (live, expired) ← overlapping space store now spec.prefix
  let purge' = purge_records space purge expired
  let blockers = select (λ rec. not (compatible_with spec.mode rec.mode)) live
  elim blockers [
    | [] ↦ check_specs space store now specs purge'
    | b ∷ bs ↦ some (blocked purge' spec (b ∷ bs))
  ]

abbrev pub conflicting : Key → LeaseMode → Key → LeaseMode → Bool
conflicting p m q n = (starts_with p q || starts_with q p) && not (compatible_with m n)

-- The inner loop over the specs behind `a`.
unfoldable pub conflict_behind : LeaseSpec → List LeaseSpec → Option Key
conflict_behind a [] = none
conflict_behind a (b ∷ bs) =
    if conflicting a.prefix a.mode b.prefix b.mode then some b.prefix else conflict_behind a bs

unfoldable pub batch_conflict : List LeaseSpec → Option Key
unfolding conflict_behind
batch_conflict [] = none
batch_conflict (a ∷ rest) = elim (conflict_behind a rest) [
  | some p ↦ some p
  | none ↦ batch_conflict rest
]

-- The record that a spec is granted; the counter is a `u64`.
unfoldable pub grant_record :
    DeviceId → HybridTimestamp → Timestamp → AdmissionSeq → LeaseId → LeaseSpec → LeaseRecord
grant_record device requested_at now barrier id spec = record {
  id = id;
  prefix = spec.prefix;
  mode = spec.mode;
  device = device;
  requested_at = requested_at;
  granted_at = now;
  barrier = barrier;
  deadline = saturating_add now spec.ttl;
  ttl = spec.ttl;
}

abbrev pub next_id : LeaseId → LeaseId
next_id id = (id + 1) % (u64_max + 1)

-- The records of a grant, numbered from the counter on.
unfoldable pub grant_records :
    AcquireRequest → Timestamp → AdmissionSeq → LeaseId → List LeaseSpec → List LeaseRecord
unfolding grant_record
grant_records req now barrier id [] = []
grant_records req now barrier id (spec ∷ specs) =
    grant_record req.device req.requested_at now barrier id spec
    ∷ grant_records req now barrier (next_id id) specs

abbrev pub advance_id : LeaseId → List LeaseSpec → LeaseId
advance_id id [] = id
advance_id id (spec ∷ specs) = advance_id (next_id id) specs

unfoldable pub put_all : SpaceId → WriteBatch → List LeaseRecord → WriteBatch
put_all space batch [] = batch
put_all space batch (rec ∷ recs) = put_all space (put_records space batch rec) recs

abbrev pub public_leases : List LeaseRecord → List Lease
public_leases [] = []
public_leases (rec ∷ recs) = public_lease rec ∷ public_leases recs

unfoldable pub grant :
    LeaseManager → MemoryStore → Timestamp → AcquireRequest → WriteBatch → Verb (List Lease)
unfolding grant_records put_all
grant mgr store now req purge = do
  c ← counters mgr.space store
  let barrier = c.admission_high_water
  let recs = grant_records req now barrier c.next_lease_id req.specs
  let c' : CountersRecord = record c { next_lease_id = advance_id c.next_lease_id req.specs }
  let batch = put_all mgr.space purge recs ++ put (counters_key mgr.space) (counters_encode c') ∷ []
  some (mgr, apply store batch, ok (public_leases recs))

unfoldable pub acquire : LeaseManager → MemoryStore → Timestamp → AcquireRequest → Verb (List Lease)
unfolding check_specs batch_conflict grant
acquire mgr store now req = do
  checked ← check_specs mgr.space store now req.specs []
  elim checked [
    | blocked purge spec blockers ↦ some (
      record mgr { demand = add_demand mgr.demand blockers },
      apply store purge,
      err (contended spec.prefix (some (max_deadline 0 blockers - now))),
    )
    | clear purge ↦ elim (batch_conflict req.specs) [
      | some p ↦ some (mgr, apply store purge, err (contended p none))
      | none ↦ grant mgr store now req purge
    ]
  ]

abbrev pub contains : Map LeaseId (Unit {0}) → LeaseId → Bool
contains demand id = elim (map_get id demand) [ some u ↦ true | none ↦ false ]

-- A renewed record.
unfoldable pub renewed : RenewRequest → Timestamp → LeaseRecord → LeaseRecord
renewed req now rec = record rec {
  deadline = saturating_add now rec.ttl;
  granted_at = now;
  requested_at = req.requested_at;
}

unfoldable pub renew_loop :
    LeaseManager
    → MemoryStore
    → Timestamp
    → RenewRequest
    → List LeaseId
    → WriteBatch
    → List RenewGrant
    → List LeaseId
    → Option (WriteBatch × RenewResponse)
unfolding renewed
renew_loop mgr store now req [] batch granted invalid =
    some (batch, record { granted = granted; invalid = invalid })
renew_loop mgr store now req (id ∷ ids) batch granted invalid = do
  found ← find_by_id mgr.space store id
  elim found [
    | none ↦ renew_loop mgr store now req ids batch granted (invalid ++ id ∷ [])
    | some rec ↦ elim (is_live rec now && rec.device == req.device) [
      | true ↦
          renew_loop mgr store now req ids (put_records mgr.space batch (renewed req now rec))
            (granted
              ++ record {
                id = id;
                granted_at = now;
                ttl = rec.ttl;
                contended = contains mgr.demand id;
              }
                ∷ [])
            invalid
      | false ↦
          renew_loop mgr store now req ids
            (if is_live rec now then batch else purge_records mgr.space batch (rec ∷ [])) granted
            (invalid ++ id ∷ [])
    ]
  ]

unfoldable pub renew : LeaseManager → MemoryStore → Timestamp → RenewRequest → Verb RenewResponse
unfolding renew_loop
renew mgr store now req = do
  (batch, response) ← renew_loop mgr store now req req.leases [] [] []
  some (mgr, apply store batch, ok response)

unfoldable pub release_loop :
    LeaseManager
    → MemoryStore
    → Timestamp
    → ReleaseRequest
    → List LeaseId
    → WriteBatch
    → Option (LeaseManager × WriteBatch)
release_loop mgr store now req [] batch = some (mgr, batch)
release_loop mgr store now req (id ∷ ids) batch = do
  found ← find_by_id mgr.space store id
  elim found [
    | none ↦ release_loop mgr store now req ids batch
    | some rec ↦ elim (not (is_live rec now) || rec.device == req.device) [
      | true ↦
          release_loop (record mgr { demand = map_remove id mgr.demand }) store now req ids
            (purge_records mgr.space batch (rec ∷ []))
      | false ↦ release_loop mgr store now req ids batch
    ]
  ]

unfoldable pub release : LeaseManager → MemoryStore → Timestamp → ReleaseRequest → Verb (Unit {0})
unfolding release_loop
release mgr store now req = do
  (mgr', batch) ← release_loop mgr store now req req.leases []
  some (mgr', apply store batch, ok tt)

unfoldable pub list_leases :
    LeaseManager → MemoryStore → Timestamp → ListLeasesRequest → Verb (List Lease)
list_leases mgr store now req = do
  recs ← decode_all (scan_prefix store (lease_by_id_scan mgr.space))
  let held = select (λ rec. is_live rec now && rec.device == req.device) recs
  let dead = select (λ rec. not (is_live rec now)) recs
  some (mgr, apply store (purge_records mgr.space [] dead), ok (public_leases held))

abbrev pub any_foreign : DeviceId → List LeaseRecord → Bool
any_foreign device [] = false
any_foreign device (rec ∷ recs) = not (rec.device == device) || any_foreign device recs

unfoldable pub validate_keys :
    SpaceId → MemoryStore → Timestamp → DeviceId → List Key → Option (Result KernelError (Unit {0}))
validate_keys space store now device [] = some (ok tt)
validate_keys space store now device (key ∷ keys) = do
  live ← covering space store now key
  elim (any_foreign device live) [
    | true ↦ some (err (contended key none))
    | false ↦ validate_keys space store now device keys
  ]

-- The live leases that a range write has to reckon with.
unfoldable pub range_live : SpaceId → MemoryStore → Timestamp → Range → Option (List LeaseRecord)
range_live space store now full = all_live space store now
range_live space store now (prefix p) = do (live, dead) ← overlapping space store now p; some live

unfoldable pub validate_ranges :
    SpaceId
    → MemoryStore
    → Timestamp
    → DeviceId
    → List Range
    → Option (Result KernelError (Unit {0}))
unfolding range_live
validate_ranges space store now device [] = some (ok tt)
validate_ranges space store now device (range ∷ ranges) = do
  live ← range_live space store now range
  elim (any_foreign device live) [
    | true ↦ some (err (range_contended range none))
    | false ↦ validate_ranges space store now device ranges
  ]

unfoldable pub validate_writes :
    SpaceId
    → MemoryStore
    → Timestamp
    → DeviceId
    → List LeaseId
    → List Key
    → List Range
    → Option (Result KernelError (Unit {0}))
unfolding validate_keys validate_ranges
validate_writes space store now device evidence keys ranges = do
  checked ← validate_keys space store now device keys
  elim checked [ err e ↦ some (err e) | ok u ↦ validate_ranges space store now device ranges ]

unfoldable pub validate_put :
    SpaceId
    → MemoryStore
    → Timestamp
    → DeviceId
    → List LeaseId
    → List Key
    → Option (Result KernelError (Unit {0}))
unfolding validate_writes
validate_put space store now device evidence keys =
    validate_writes space store now device evidence keys []
