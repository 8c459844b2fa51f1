-- ===== src/Leases/Table/Counters.antt =====
-- Writing the counters leaves the lease table alone.
use homebase.Prelude.{
  ℕ, ◌≡◌, refl, sym, ap, ◌∙◌, true, false, [], ◌∷◌, ◌==◌, nat_ord, list_ord, if◌then◌else◌, none,
  some, starts_with, All, eq_of_==, ==_self, Bool-cases, inl, inr, ◌⊎◌, ◌<◌, ◌^◌,
}
use homebase.Prelude.Bytes.{Bytes, IsByte}
use homebase.Prelude.Map.{map_get-insert}
use homebase.Key.{Key}
use homebase.Schema.{SpaceId, lease_by_id_key, lease_by_id_scan, lease_by_prefix_key, counters_key}
use homebase.Schema.Keys.{
  lease_by_prefix_scan_all, id_key-id_scan, prefix_key-prefix_scan, counters_key-id_scan,
  counters_key-prefix_scan, counters_key-IsByte,
}
use homebase.Schema.LeaseRecord.{LeaseRecord, CountersRecord, counters_encode, counters_default}
use homebase.Schema.LeaseRecord.Codec.{counters_decode-encode}
use homebase.Storage.{MemoryStore, put, get, apply}
use homebase.Storage.Store.{apply-IsStore}
use homebase.Leases.{counters}
use homebase.Leases.Table.{IsTable, Held}

-- A key that an index scan covers is not the counters' key.
pub counters_key-unscanned :
    (space : SpaceId) (scan k : Bytes)
    → starts_with (counters_key space) scan ≡ false
    → starts_with k scan ≡ true
    → (k == counters_key space) ≡ false
counters_key-unscanned space scan k h st = elim (Bool-cases (k == counters_key space)) [
  | inl q ↦
      let e = eq_of_== k (counters_key space) q in
      cc (sym st ∙ ap (λ (j : Bytes). starts_with j scan) e ∙ h)
  | inr q ↦ q
]

module _ (space : SpaceId) (bytes : All IsByte space) (store : MemoryStore)
    (c : CountersRecord) where
  counters_store : MemoryStore
  counters_store = apply store (put (counters_key space) (counters_encode c) ∷ [])

  get-counters_store :
      (k : Bytes)
      → get counters_store k
        ≡ (if k == counters_key space then some (counters_encode c) else get store k)
  unfolding counters_store apply get
  get-counters_store k = map_get-insert k (counters_key space) (counters_encode c) store

  get-other :
      (scan k : Bytes)
      → starts_with (counters_key space) scan ≡ false
      → starts_with k scan ≡ true
      → get counters_store k ≡ get store k
  get-other scan k h st = get-counters_store k ∙ rw (counters_key-unscanned space scan k h st) refl

  by_id-other :
      (i : ℕ) → get counters_store (lease_by_id_key space i) ≡ get store (lease_by_id_key space i)
  by_id-other i =
      get-other (lease_by_id_scan space) (lease_by_id_key space i) (counters_key-id_scan space)
        (id_key-id_scan space i)

  by_prefix-other :
      (p : Key) (i : ℕ)
      → get counters_store (lease_by_prefix_key space p i)
        ≡ get store (lease_by_prefix_key space p i)
  by_prefix-other p i =
      get-other (lease_by_prefix_scan_all space) (lease_by_prefix_key space p i)
        (counters_key-prefix_scan space) (prefix_key-prefix_scan space p i)

  pub counters_write-read :
      get (apply store (put (counters_key space) (counters_encode c) ∷ [])) (counters_key space)
      ≡ some (counters_encode c)
  unfolding counters_store
  counters_write-read =
      get-counters_store (counters_key space) ∙ rw (==_self (counters_key space)) refl

  pub counters_write-Held :
      (r : LeaseRecord)
      → Held space (apply store (put (counters_key space) (counters_encode c) ∷ [])) r
      → Held space store r
  unfolding counters_store
  counters_write-Held r h = record { valid = h.valid; stored = sym (by_id-other r.id) ∙ h.stored }

  pub Held-counters_write :
      (r : LeaseRecord)
      → Held space store r
      → Held space (apply store (put (counters_key space) (counters_encode c) ∷ [])) r
  unfolding counters_store
  Held-counters_write r h = record { valid = h.valid; stored = by_id-other r.id ∙ h.stored }

  pub counters_write-IsTable :
      IsTable space store
      → IsTable space (apply store (put (counters_key space) (counters_encode c) ∷ []))
  unfolding counters_store
  counters_write-IsTable t = record {
    is_store =
        apply-IsStore (put (counters_key space) (counters_encode c) ∷ []) store
          (counters_key-IsByte space bytes, tt) t.is_store;
    by_id = λ k v e st.
        let (r, vr, ke, ve, o) =
          t.by_id k v
            (sym (get-other (lease_by_id_scan space) k (counters_key-id_scan space) st) ∙ e) st in
        (r, vr, ke, ve, by_prefix-other r.prefix r.id ∙ o);
    by_prefix = λ k v e st.
        let (r, vr, ke, ve, o) =
          t.by_prefix k v
            (sym (get-other (lease_by_prefix_scan_all space) k (counters_key-prefix_scan space) st)
              ∙ e)
            st in
        (r, vr, ke, ve, by_id-other r.id ∙ o);
  }

counters-unset :
    (space : SpaceId) (store : MemoryStore)
    → get store (counters_key space) ≡ none
    → counters space store ≡ some counters_default
unfolding counters
counters-unset space store e = rw (e, counters) refl

-- The counters read back.
pub counters-stored :
    (space : SpaceId) (store : MemoryStore) (c : CountersRecord)
    → (get store (counters_key space) ≡ some (counters_encode c))
      ⊎ ((get store (counters_key space) ≡ none)
          × (c.next_lease_id ≡ 0)
          × (c.admission_high_water ≡ 0))
    → c.next_lease_id < 256 ^ 8
    → c.admission_high_water < 256 ^ 8
    → counters space store ≡ some c
unfolding counters
counters-stored space store c (inl e) h k = rw (e, counters) (counters_decode-encode c h k)
counters-stored space store c (inr (e, a, b)) h k =
    counters-unset space store e ∙ ap some (fields c a b)
  where
    fields :
        (c : CountersRecord)
        → c.next_lease_id ≡ 0
        → c.admission_high_water ≡ 0
        → counters_default ≡ c
    fields c a b i = record { next_lease_id = sym a i; admission_high_water = sym b i }
