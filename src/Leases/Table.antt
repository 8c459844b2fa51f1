-- ===== src/Leases/Table.antt =====
-- The lease table in the store: both indexes hold the same well-formed records.
pub mod Write
pub mod Step
pub mod Counters
use homebase.Prelude.{
  ℕ, ◌≡◌, refl, sym, ap, ◌∙◌, subst, Bool, true, false, List, [], ◌∷◌, ◌++◌, length, ◌==◌, nat_ord,
  list_ord, if◌then◌else◌, Option, none, some, starts_with, All, arith, eq_of_==, ==_iff, ==_self,
  Bool-cases, inl, inr, ◌⊎◌, ◌<◌,
}
use mathlib.Core.Path.{ap₂}
use homebase.Prelude.Bytes.{Bytes, IsByte}
use homebase.Prelude.Map.{map_get-insert, map_get-remove}
use homebase.Key.{Key}
use homebase.Schema.{SpaceId, lease_by_id_key, lease_by_id_scan, lease_by_prefix_key, counters_key}
use homebase.Schema.Keys.{
  lease_by_prefix_scan_all, id_key-id_scan, prefix_key-id_scan, id_key-prefix_scan,
  prefix_key-prefix_scan, counters_key-id_scan, counters_key-prefix_scan, id_key-injective,
  prefix_key-injective, id_key-IsByte, prefix_key-IsByte, counters_key-IsByte,
}
use homebase.Schema.LeaseRecord.{LeaseRecord, IsLeaseRecord, lease_encode, lease_decode}
use homebase.Schema.LeaseRecord.Codec.{lease_decode-encode}
use homebase.Storage.{MemoryStore, put, delete, get, apply}
use homebase.Storage.Store.{IsStore, apply-IsStore}
use homebase.Leases.{put_records, purge_records}

-- A well-formed record whose prefix is made of bytes.
pub record IsRecord (rec : LeaseRecord) : Type 0 where
  pub fields : IsLeaseRecord rec
  pub prefix_bytes : All (All IsByte) rec.prefix

-- Every entry of either index is a well-formed record under its own key, and stands in the other
-- index as well.
pub record IsTable (space : SpaceId) (store : MemoryStore) : Type 0 where
  pub is_store : IsStore store
  pub by_id :
      (k v : Bytes)
      → get store k ≡ some v
      → starts_with k (lease_by_id_scan space) ≡ true
      → (rec : LeaseRecord) × IsRecord rec
        × (k ≡ lease_by_id_key space rec.id)
        × (v ≡ lease_encode rec)
        × (get store (lease_by_prefix_key space rec.prefix rec.id) ≡ some (lease_encode rec))
  pub by_prefix :
      (k v : Bytes)
      → get store k ≡ some v
      → starts_with k (lease_by_prefix_scan_all space) ≡ true
      → (rec : LeaseRecord) × IsRecord rec
        × (k ≡ lease_by_prefix_key space rec.prefix rec.id)
        × (v ≡ lease_encode rec)
        × (get store (lease_by_id_key space rec.id) ≡ some (lease_encode rec))

-- The record is in the table.
pub record Held (space : SpaceId) (store : MemoryStore) (rec : LeaseRecord) : Type 0 where
  pub valid : IsRecord rec
  pub stored : get store (lease_by_id_key space rec.id) ≡ some (lease_encode rec)

-- A record of the table with the same id has the same prefix.
abbrev pub Agrees : SpaceId → MemoryStore → LeaseRecord → Type 0
Agrees space store rec =
    (r : LeaseRecord) → Held space store r → r.id ≡ rec.id → r.prefix ≡ rec.prefix

pub lease_encode-injective :
    (a b : LeaseRecord) → IsRecord a → IsRecord b → lease_encode a ≡ lease_encode b → a ≡ b
lease_encode-injective a b va vb h =
    let e : some a ≡ some b =
      sym (lease_decode-encode a va.fields) ∙ ap lease_decode h ∙ lease_decode-encode b vb.fields in
    cc
