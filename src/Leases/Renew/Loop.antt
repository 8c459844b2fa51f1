-- ===== src/Leases/Renew/Loop.antt =====
-- server/src/space/lease.rs: one round of the loop of `renew`, and what its answers stand for.
use homebase.Prelude.{
  ◌+◌, ◌≤◌, min, arith, All, ◌≡◌, ◌==◌, refl, ap, Bool, true, false, ◌&&◌, List, [], ◌∷◌, ◌++◌,
  Option, none, some, ◌⊎◌, nat_ord, list_ord, if◌then◌else◌,
}
use mathlib.Core.List.{Mem, mem-cons_self, mem-cons_of_mem}
use homebase.Clock.{Timestamp, u64_max}
use homebase.Lease.{LeaseId}
use homebase.Messages.{RenewRequest, RenewGrant, RenewResponse}
use homebase.Schema.{SpaceId}
use homebase.Schema.LeaseRecord.{LeaseRecord, is_live}
use homebase.Storage.{MemoryStore, WriteBatch, apply}
use homebase.Leases.{LeaseManager, find_by_id, put_records, purge_records}
use homebase.Leases.Table.{Held}
use homebase.Leases.Purge.{apply-append}
use homebase.Leases.Renew.{Same, Renewable, IsNamed}
use homebase.Leases.Verbs.{renewed, renew_loop, contains}

pub put_records-apply :
    (space : SpaceId) (batch : WriteBatch) (rec : LeaseRecord) (store : MemoryStore)
    → apply store (put_records space batch rec)
      ≡ apply (apply store batch) (put_records space [] rec)
unfolding put_records
put_records-apply space batch rec store = apply-append batch (put_records space [] rec) store

pub purge_records-apply :
    (space : SpaceId) (batch : WriteBatch) (rec : LeaseRecord) (store : MemoryStore)
    → apply store (purge_records space batch (rec ∷ []))
      ≡ apply (apply store batch) (purge_records space [] (rec ∷ []))
unfolding purge_records
purge_records-apply space batch rec store =
    apply-append batch (purge_records space [] (rec ∷ [])) store

named_within :
    (s l : List LeaseId) → ((id : LeaseId) → Mem id s → Mem id l) → All (λ id. Mem id l) s
named_within [] l f = tt
named_within (id ∷ s) l f =
    (f id mem-cons_self, named_within s l (λ x m. f x (mem-cons_of_mem id m)))

-- The ids of a request are those that it names.
pub named_ids : (l : List LeaseId) → All (λ id. Mem id l) l
named_ids l = named_within l l (λ id m. m)

-- The record that a renewal leaves: the term starts now and lasts as long as it did, within 64
-- bits, and nothing else of the lease has changed.
pub record IsRenewed (now : Timestamp) (req : RenewRequest) (r0 r : LeaseRecord) : Type 0 where
  pub same : Same r r0
  pub deadline : r.deadline ≡ min (now + r0.ttl) u64_max
  pub granted_at : r.granted_at ≡ now
  pub requested_at : r.requested_at ≡ req.requested_at
  pub ttl : r.ttl ≡ r0.ttl
  pub barrier : r.barrier ≡ r0.barrier

pub renewed-IsRenewed :
    (now : Timestamp) (req : RenewRequest) (r0 : LeaseRecord)
    → r0.ttl ≤ u64_max
    → IsRenewed now req r0 (renewed req now r0)
unfolding renewed
renewed-IsRenewed now req r0 fits = record {
  same = record { id = refl; prefix = refl; mode = refl; device = refl };
  deadline = omega (arith, fits);
  granted_at = refl;
  requested_at = refl;
  ttl = refl;
  barrier = refl;
}

-- A grant stands for a live lease of the caller that the request names, which the later table
-- holds renewed.
abbrev pub Granted :
    SpaceId → Timestamp → RenewRequest → MemoryStore → MemoryStore → RenewGrant → Type 0
Granted space now req store0 store g =
    (r0 : LeaseRecord) × Held space store0 r0
    × IsNamed now req r0
    × ((r0.id ≡ g.id) × (g.granted_at ≡ now) × (g.ttl ≡ r0.ttl))
    × IsRenewed now req r0 (renewed req now r0)
    × Held space store (renewed req now r0)

-- No live lease of the caller has the id.
abbrev pub Invalid : SpaceId → Timestamp → RenewRequest → MemoryStore → LeaseId → Type 0
Invalid space now req store0 id =
    (r : LeaseRecord) → Held space store0 r → r.id ≡ id → ¬ Renewable now req r

-- Every live lease of the table is in the later table, as it was, or else renewed, and then it is
-- the caller's and the request names it.
abbrev pub Keeps : SpaceId → Timestamp → RenewRequest → MemoryStore → MemoryStore → Type 0
Keeps space now req store0 store =
    (r0 : LeaseRecord)
    → Held space store0 r0
    → is_live r0 now ≡ true
    → (r : LeaseRecord) × Held space store r
      × ((r ≡ r0) ⊎ (IsNamed now req r0 × IsRenewed now req r0 r))

-- The loop's continuation on a record that is found.
unfoldable pub on_found :
    LeaseManager
    → MemoryStore
    → Timestamp
    → RenewRequest
    → LeaseId
    → List LeaseId
    → WriteBatch
    → List RenewGrant
    → List LeaseId
    → LeaseRecord
    → Bool
    → Option (WriteBatch × RenewResponse)
on_found mgr store now req id ids batch granted invalid rec true =
    renew_loop mgr store now req ids (put_records mgr.space batch (renewed req now rec))
      (granted
        ++ record { id = id; granted_at = now; ttl = rec.ttl; contended = contains mgr.demand id }
          ∷ [])
      invalid
on_found mgr store now req id ids batch granted invalid rec false =
    renew_loop mgr store now req ids
      (if is_live rec now then batch else purge_records mgr.space batch (rec ∷ [])) granted
      (invalid ++ id ∷ [])

module _ (mgr : LeaseManager) (store : MemoryStore) (now : Timestamp) (req : RenewRequest)
    (id : LeaseId) (ids : List LeaseId) (batch : WriteBatch) (granted : List RenewGrant)
    (invalid : List LeaseId) where
  pub renew_loop-missing :
      find_by_id mgr.space store id ≡ some none
      → renew_loop mgr store now req (id ∷ ids) batch granted invalid
        ≡ renew_loop mgr store now req ids batch granted (invalid ++ id ∷ [])
  unfolding renew_loop
  renew_loop-missing e = rw e refl

  pub renew_loop-found :
      (rec : LeaseRecord) (own : Bool)
      → find_by_id mgr.space store id ≡ some (some rec)
      → (is_live rec now && rec.device == req.device) ≡ own
      → renew_loop mgr store now req (id ∷ ids) batch granted invalid
        ≡ on_found mgr store now req id ids batch granted invalid rec own
  unfolding renew_loop on_found
  renew_loop-found rec own e q =
      rw e (ap (on_found mgr store now req id ids batch granted invalid rec) q)
