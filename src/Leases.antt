-- ===== src/Leases.antt =====
-- server/src/space/lease.rs: the lease verbs of one space over its store. `none` is a panic, on a
-- corrupt record. A verb gives back its manager and its store with its answer; the store is the
-- reference store, whose operations never fail.
pub mod Verbs
pub mod Scan
pub mod Table
pub mod Purge
pub mod Exclusion
pub mod Frame
pub mod Acquire
pub mod Release
pub mod Listing
pub mod Renew
pub mod Admission
pub mod Examples
use homebase.Prelude.{
  ℕ, zero, suc, ◌+◌, ◌-◌, ◌%◌, ◌≡◌, Bool, true, false, not, ◌&&◌, ◌||◌, List, [], ◌∷◌, ◌++◌, length,
  max, ltb, ◌==◌, nat_ord, list_ord, if◌then◌else◌, Option, none, some, Result, ok, err, take,
  starts_with,
}
use homebase.Prelude.Bytes.{Bytes}
use homebase.Prelude.Map.{Map, map_get, map_insert, map_remove}
use homebase.Clock.{Timestamp, saturating_add, u64_max}
use homebase.Key.{Key, KeyComponent, max_components}
use homebase.Range.{Range, full, prefix}
use homebase.Tag.{AdmissionSeq, DeviceId}
use homebase.Lease.{Lease, LeaseId, LeaseMode, compatible_with}
use homebase.Messages.{
  LeaseSpec, AcquireRequest, RenewRequest, RenewGrant, RenewResponse, ReleaseRequest,
  ListLeasesRequest, KernelError, contended, range_contended,
}
use homebase.Reader.{◌>>=◌}
use homebase.Schema.{
  SpaceId, lease_by_id_key, lease_by_id_scan, lease_by_prefix_key, lease_by_prefix_scan,
  counters_key,
}
use homebase.Schema.LeaseRecord.{
  LeaseRecord, is_live, lease_encode, lease_decode, CountersRecord, counters_default,
  counters_encode, counters_decode,
}
use homebase.Storage.{MemoryStore, WriteBatch, Op, put, delete, get, scan_prefix, apply}

-- `demand` is a set of lease ids.
pub record LeaseManager : Type 0 where
  pub space : SpaceId
  pub demand : Map LeaseId (Unit {0})

abbrev pub manager_new : SpaceId → LeaseManager
manager_new space = record { space = space; demand = [] }

abbrev pub Verb : Type 0 → Type 0
Verb A = Option (LeaseManager × MemoryStore × Result KernelError A)

unfoldable pub select : (LeaseRecord → Bool) → List LeaseRecord → List LeaseRecord
select p [] = []
select p (r ∷ rs) = if p r then r ∷ select p rs else select p rs

-- `LeaseRecord::decode(&value).expect(…)` on each entry of a scan.
unfoldable pub decode_all : List (Bytes × Bytes) → Option (List LeaseRecord)
decode_all [] = some []
decode_all ((key, value) ∷ entries) = do
  rec ← lease_decode value
  recs ← decode_all entries
  some (rec ∷ recs)

module _ (space : SpaceId) where
  unfoldable pub put_records : WriteBatch → LeaseRecord → WriteBatch
  put_records batch rec =
      let value = lease_encode rec in
      batch
      ++ put (lease_by_id_key space rec.id) value
        ∷ put (lease_by_prefix_key space rec.prefix rec.id) value
        ∷ []

  unfoldable pub purge_records : WriteBatch → List LeaseRecord → WriteBatch
  purge_records batch [] = batch
  purge_records batch (rec ∷ recs) =
      purge_records
        (batch
          ++ delete (lease_by_id_key space rec.id)
            ∷ delete (lease_by_prefix_key space rec.prefix rec.id)
            ∷ [])
        recs

  unfoldable pub counters : MemoryStore → Option CountersRecord
  counters store = elim (get store (counters_key space)) [
    | none ↦ some counters_default
    | some value ↦ counters_decode value
  ]

  -- `lease_by_id`
  unfoldable pub find_by_id : MemoryStore → LeaseId → Option (Option LeaseRecord)
  find_by_id store id = elim (get store (lease_by_id_key space id)) [
    | none ↦ some none
    | some value ↦ do rec ← lease_decode value; some (some rec)
  ]

  -- One pass of the depth loops of `overlapping` and `covering`: the records of that depth.
  unfoldable pub at_depth : MemoryStore → Key → ℕ → Option (List LeaseRecord)
  unfolding decode_all
  at_depth store components depth =
      decode_all (scan_prefix store (lease_by_prefix_scan space depth (take depth components)))

  -- The depths from `depth` on, `n` of them, split into live and dead.
  unfoldable pub overlapping_loop :
      MemoryStore
      → Timestamp
      → Key
      → ℕ
      → ℕ
      → List LeaseRecord
      → List LeaseRecord
      → Option (List LeaseRecord × List LeaseRecord)
  unfolding at_depth select
  overlapping_loop store now components zero depth live dead = some (live, dead)
  overlapping_loop store now components (suc n) depth live dead = do
    recs ← at_depth store components depth
    overlapping_loop store now components n (depth + 1)
        (live ++ select (λ rec. is_live rec now) recs)
        (dead ++ select (λ rec. not (is_live rec now)) recs)

  unfoldable pub overlapping :
      MemoryStore → Timestamp → Key → Option (List LeaseRecord × List LeaseRecord)
  unfolding overlapping_loop
  overlapping store now p = overlapping_loop store now p max_components 1 [] []

  unfoldable pub covering_loop :
      MemoryStore → Timestamp → Key → ℕ → ℕ → List LeaseRecord → Option (List LeaseRecord)
  unfolding at_depth select
  covering_loop store now components zero depth live = some live
  covering_loop store now components (suc n) depth live = do
    recs ← at_depth store components depth
    covering_loop store now components n (depth + 1) (live ++ select (λ rec. is_live rec now) recs)

  unfoldable pub covering : MemoryStore → Timestamp → Key → Option (List LeaseRecord)
  unfolding covering_loop
  covering store now key = covering_loop store now key (length key) 1 []

  unfoldable pub all_live : MemoryStore → Timestamp → Option (List LeaseRecord)
  unfolding decode_all select
  all_live store now = do
    recs ← decode_all (scan_prefix store (lease_by_id_scan space))
    some (select (λ rec. is_live rec now) recs)
