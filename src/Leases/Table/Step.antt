-- ===== src/Leases/Table/Step.antt =====
-- The steps of the lease table: a record written, and a record purged.
use homebase.Prelude.{
  ◌≡◌, refl, ◌∙◌, [], ◌∷◌, ◌==◌, nat_ord, list_ord, if◌then◌else◌, none, some, All, inl, inr, ◌⊎◌,
  ◌≢◌,
}
use homebase.Prelude.Bytes.{Bytes, IsByte}
use homebase.Prelude.Map.{map_get-insert, map_get-remove, map_insert, map_remove}
use homebase.Schema.{SpaceId, lease_by_id_key, lease_by_prefix_key}
use homebase.Schema.Keys.{id_key-IsByte, prefix_key-IsByte}
use homebase.Schema.LeaseRecord.{LeaseRecord, lease_encode}
use homebase.Storage.{MemoryStore, get, apply}
use homebase.Storage.Store.{IsStore, apply-IsStore}
use homebase.Leases.{put_records, purge_records}
use homebase.Leases.Table.{IsRecord, IsTable, Held, Agrees}
use homebase.Leases.Table.Write.{written-IsTable, Held-written, Held-kept, get-id_key}

module _ (space : SpaceId) (bytes : All IsByte space) (store : MemoryStore)
    (rec : LeaseRecord) where
  put_store : MemoryStore
  put_store = apply store (put_records space [] rec)

  purge_store : MemoryStore
  purge_store = apply store (purge_records space [] (rec ∷ []))

  pub get-put_store :
      (k : Bytes)
      → get (apply store (put_records space [] rec)) k ≡ (
          if k == lease_by_prefix_key space rec.prefix rec.id
          then some (lease_encode rec)
          else if k == lease_by_id_key space rec.id
          then some (lease_encode rec)
          else get store k)
  unfolding put_store put_records apply get
  get-put_store k =
      map_get-insert k (lease_by_prefix_key space rec.prefix rec.id) (lease_encode rec)
        (map_insert (lease_by_id_key space rec.id) (lease_encode rec) store)
      ∙ rw (map_get-insert k (lease_by_id_key space rec.id) (lease_encode rec) store) refl

  pub get-purge_store :
      (k : Bytes)
      → get (apply store (purge_records space [] (rec ∷ []))) k ≡ (
          if k == lease_by_prefix_key space rec.prefix rec.id
          then none
          else if k == lease_by_id_key space rec.id
          then none
          else get store k)
  unfolding purge_store purge_records apply get
  get-purge_store k =
      map_get-remove k (lease_by_prefix_key space rec.prefix rec.id)
        (map_remove (lease_by_id_key space rec.id) store)
      ∙ rw (map_get-remove k (lease_by_id_key space rec.id) store) refl

  module _ (v : IsRecord rec) (t : IsTable space store) (agrees : Agrees space store rec) where
    put-IsStore : IsStore put_store
    unfolding put_store put_records
    put-IsStore =
        apply-IsStore (put_records space [] rec) store
          (
            id_key-IsByte space bytes rec.id,
            (prefix_key-IsByte space bytes rec.prefix rec.id v.prefix_bytes, tt),
          )
          t.is_store

    purge-IsStore : IsStore purge_store
    unfolding purge_store purge_records
    purge-IsStore = apply-IsStore (purge_records space [] (rec ∷ [])) store tt t.is_store

    pub put-IsTable : IsTable space (apply store (put_records space [] rec))
    unfolding put_store
    put-IsTable =
        written-IsTable space store put_store rec (some (lease_encode rec)) get-put_store v t agrees
          put-IsStore (inr refl)

    pub Held-put :
        (r : LeaseRecord)
        → Held space (apply store (put_records space [] rec)) r
        → (r ≡ rec) ⊎ (Held space store r × (r.id ≢ rec.id))
    unfolding put_store
    Held-put r h =
        elim (Held-written space store put_store rec (some (lease_encode rec)) get-put_store v t
          agrees put-IsStore (inr refl) r h) [ inl p ↦ inl p.1 | inr p ↦ inr p ]

    pub Held-put_kept :
        (r : LeaseRecord)
        → Held space store r
        → r.id ≢ rec.id
        → Held space (apply store (put_records space [] rec)) r
    unfolding put_store
    Held-put_kept =
        Held-kept space store put_store rec (some (lease_encode rec)) get-put_store v t agrees
          put-IsStore (inr refl)

    pub Held-put_self : Held space (apply store (put_records space [] rec)) rec
    unfolding put_store
    Held-put_self = record {
      valid = v;
      stored = get-id_key space store put_store rec (some (lease_encode rec)) get-put_store;
    }

    pub purge-IsTable : IsTable space (apply store (purge_records space [] (rec ∷ [])))
    unfolding purge_store
    purge-IsTable =
        written-IsTable space store purge_store rec none get-purge_store v t agrees purge-IsStore
          (inl refl)

    pub Held-purge :
        (r : LeaseRecord)
        → Held space (apply store (purge_records space [] (rec ∷ []))) r
        → Held space store r × (r.id ≢ rec.id)
    unfolding purge_store
    Held-purge r h =
        elim (Held-written space store purge_store rec none get-purge_store v t agrees purge-IsStore
          (inl refl) r h) [ inl p ↦ cc p.0 | inr p ↦ p ]

    pub Held-purge_kept :
        (r : LeaseRecord)
        → Held space store r
        → r.id ≢ rec.id
        → Held space (apply store (purge_records space [] (rec ∷ []))) r
    unfolding purge_store
    Held-purge_kept =
        Held-kept space store purge_store rec none get-purge_store v t agrees purge-IsStore
          (inl refl)
