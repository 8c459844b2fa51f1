-- ===== src/Leases/Exclusion.antt =====
-- Mutual exclusion of the live leases of one space, and what granting one more needs.
use homebase.Prelude.{
  ◌<◌, ◌≤◌, ◌^◌, ◌≡◌, ◌∙◌, true, false, length, none, some, All, arith, inl, inr, ◌⊎◌, ◌≢◌, nat_ord,
  list_ord,
}
use homebase.Prelude.Bytes.{IsByte}
use homebase.Clock.{Timestamp, u64_max}
use homebase.Key.{Key, IsKey}
use homebase.Lease.{LeaseMode, LeaseId, compatible_with_comm}
use homebase.Messages.{LeaseSpec, AcquireRequest}
use homebase.Schema.{SpaceId, counters_key}
use homebase.Schema.LeaseRecord.{LeaseRecord, is_live, CountersRecord, counters_encode}
use homebase.Storage.{MemoryStore, get}
use homebase.Leases.Table.{IsTable, Held}
use homebase.Leases.Purge.{Purged}
use homebase.Leases.Verbs.{conflicting}

pub conflicting_comm :
    (p : Key) (m : LeaseMode) (q : Key) (n : LeaseMode) → conflicting p m q n ≡ conflicting q n p m
conflicting_comm p m q n = rw (compatible_with_comm m n) (ground arith)

-- No live lease of the table conflicts with `prefix` in mode `mode`.
abbrev pub Free : SpaceId → MemoryStore → Timestamp → Key → LeaseMode → Type 0
Free space store now prefix mode =
    (r : LeaseRecord)
    → Held space store r
    → is_live r now ≡ true
    → conflicting prefix mode r.prefix r.mode ≡ false

-- Two live leases with different ids never conflict.
abbrev pub Exclusive : SpaceId → MemoryStore → Timestamp → Type 0
Exclusive space store now =
    (a b : LeaseRecord)
    → Held space store a
    → Held space store b
    → is_live a now ≡ true
    → is_live b now ≡ true
    → a.id ≢ b.id
    → conflicting a.prefix a.mode b.prefix b.mode ≡ false

abbrev pub IdsBelow : SpaceId → MemoryStore → LeaseId → Type 0
IdsBelow space store id = (r : LeaseRecord) → Held space store r → r.id < id

-- The invariant of a space's leases: both indexes agree, live leases exclude each other, and the
-- counters read back and lie above every id.
pub record IsSpace (space : SpaceId) (store : MemoryStore) (now : Timestamp) (c : CountersRecord)
    : Type 0 where
  pub table : IsTable space store
  pub exclusive : Exclusive space store now
  pub below : IdsBelow space store c.next_lease_id
  pub stored :
      (get store (counters_key space) ≡ some (counters_encode c))
      ⊎ ((get store (counters_key space) ≡ none)
          × (c.next_lease_id ≡ 0)
          × (c.admission_high_water ≡ 0))
  pub id_fits : c.next_lease_id < 256 ^ 8
  pub high_water_fits : c.admission_high_water < 256 ^ 8

-- What the types of a request guarantee: keys and times are well-formed.
pub record IsSpec (spec : LeaseSpec) : Type 0 where
  pub prefix_valid : IsKey spec.prefix
  pub prefix_bytes : All (All IsByte) spec.prefix
  pub ttl_fits : spec.ttl ≤ u64_max

pub record IsRequest (req : AcquireRequest) : Type 0 where
  pub device_len : length req.device ≡ 16
  pub wall_fits : req.requested_at.wall < 256 ^ 8
  pub mono_fits : req.requested_at.mono < 256 ^ 8
  pub lineage_len : length req.requested_at.lineage ≡ 16
  pub specs_valid : All IsSpec req.specs

-- A lease that has not expired had not expired before.
pub is_live-earlier :
    (r : LeaseRecord) (now later : Timestamp)
    → now ≤ later
    → is_live r later ≡ true
    → is_live r now ≡ true
unfolding is_live
is_live-earlier r now later h e = ground (arith, h, e)

-- Purging records keeps the invariant.
pub Purged-IsSpace :
    (space : SpaceId) (K : LeaseRecord → Type 0) (now : Timestamp) (c : CountersRecord)
    (store : MemoryStore)
    → IsSpace space store now c
    → (store' : MemoryStore) → Purged space K store store'
    → IsSpace space store' now c
Purged-IsSpace space K now c store i store' p = record {
  table = p.table;
  exclusive = λ a b ha hb. i.exclusive a b (p.sub a ha) (p.sub b hb);
  below = λ r h. i.below r (p.sub r h);
  stored = elim i.stored [
    | inl e ↦ inl (p.counters_same ∙ e)
    | inr (e, y, z) ↦ inr (p.counters_same ∙ e, y, z)
  ];
  id_fits = i.id_fits;
  high_water_fits = i.high_water_fits;
}
