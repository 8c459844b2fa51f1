-- ===== src/Leases/Purge.antt =====
-- Purging records of the lease table, one after the other, and what that leaves alone.
use homebase.Prelude.{
  ℕ, ◌≡◌, refl, sym, ap, ◌∙◌, subst, false, List, [], ◌∷◌, ◌++◌, append_assoc, append-nil, ◌==◌,
  nat_ord, list_ord, some, starts_with, All, eq_of_==, Bool-cases, inl, inr, ◌≢◌,
}
use homebase.Prelude.Bytes.{Bytes, IsByte}
use homebase.Key.{Key}
use homebase.Schema.{SpaceId, lease_by_id_key, lease_by_id_scan, lease_by_prefix_key, counters_key}
use homebase.Schema.Keys.{
  lease_by_prefix_scan_all, id_key-id_scan, prefix_key-prefix_scan, counters_key-id_scan,
  counters_key-prefix_scan,
}
use homebase.Schema.LeaseRecord.{LeaseRecord, lease_encode}
use homebase.Storage.{MemoryStore, WriteBatch, get, apply, apply_op}
use homebase.Leases.{put_records, purge_records}
use homebase.Leases.Table.{IsTable, Held, Agrees, lease_encode-injective}
use homebase.Leases.Table.Step.{
  purge-IsTable, Held-purge, Held-purge_kept, get-purge_store, get-put_store,
}

pub apply-append :
    (a b : WriteBatch) (store : MemoryStore) → apply store (a ++ b) ≡ apply (apply store a) b
unfolding apply
apply-append [] b store = refl
apply-append (op ∷ a) b store = apply-append a b (apply_op store op)

-- The batch that purges one record, and then a list of records.
purge_one : SpaceId → LeaseRecord → WriteBatch
purge_one space rec = purge_records space [] (rec ∷ [])

purge_records-split :
    (space : SpaceId) (batch : WriteBatch) (recs : List LeaseRecord)
    → purge_records space batch recs ≡ batch ++ purge_records space [] recs
unfolding purge_records purge_one
purge_records-split space batch [] = sym (append-nil batch)
purge_records-split space batch (r ∷ recs) =
    purge_records-split space (batch ++ purge_one space r) recs
    ∙ append_assoc batch (purge_one space r) (purge_records space [] recs)
    ∙ ap (λ (x : WriteBatch). batch ++ x) (sym (purge_records-split space (purge_one space r) recs))

pub purge_records-append :
    (space : SpaceId) (batch : WriteBatch) (xs ys : List LeaseRecord)
    → purge_records space (purge_records space batch xs) ys ≡ purge_records space batch (xs ++ ys)
unfolding purge_records purge_one
purge_records-append space batch [] ys = refl
purge_records-append space batch (x ∷ xs) ys =
    purge_records-append space (batch ++ purge_one space x) xs ys

apply-purge_one :
    (space : SpaceId) (r : LeaseRecord) (recs : List LeaseRecord) (store : MemoryStore)
    → apply (apply store (purge_one space r)) (purge_records space [] recs)
      ≡ apply store (purge_records space [] (r ∷ recs))
unfolding purge_records purge_one
apply-purge_one space r recs store =
    sym (apply-append (purge_one space r) (purge_records space [] recs) store)
    ∙ ap (apply store) (sym (purge_records-split space (purge_one space r) recs))

pub Held-unique :
    (space : SpaceId) (store : MemoryStore) (a b : LeaseRecord)
    → Held space store a
    → Held space store b
    → a.id ≡ b.id
    → a ≡ b
Held-unique space store a b ha hb e =
    let same : some (lease_encode a) ≡ some (lease_encode b) =
      sym ha.stored ∙ ap (λ (i : ℕ). get store (lease_by_id_key space i)) e ∙ hb.stored in
    lease_encode-injective a b ha.valid hb.valid (cc)

counters_ne_id : (space : SpaceId) (i : ℕ) → (counters_key space == lease_by_id_key space i) ≡ false
counters_ne_id space i = elim (Bool-cases (counters_key space == lease_by_id_key space i)) [
  | inl q ↦
      let e = eq_of_== (counters_key space) (lease_by_id_key space i) q in
      cc (
        sym (counters_key-id_scan space)
        ∙ ap (λ (k : Bytes). starts_with k (lease_by_id_scan space)) e
        ∙ id_key-id_scan space i)
  | inr q ↦ q
]

counters_ne_prefix :
    (space : SpaceId) (p : Key) (i : ℕ)
    → (counters_key space == lease_by_prefix_key space p i) ≡ false
counters_ne_prefix space p i =
    elim (Bool-cases (counters_key space == lease_by_prefix_key space p i)) [
      | inl q ↦
          let e = eq_of_== (counters_key space) (lease_by_prefix_key space p i) q in
          cc (
            sym (counters_key-prefix_scan space)
            ∙ ap (λ (k : Bytes). starts_with k (lease_by_prefix_scan_all space)) e
            ∙ prefix_key-prefix_scan space p i)
      | inr q ↦ q
    ]

-- Writing a record leaves the counters alone.
pub counters-put :
    (space : SpaceId) (bytes : All IsByte space) (store : MemoryStore) (rec : LeaseRecord)
    → get (apply store (put_records space [] rec)) (counters_key space)
      ≡ get store (counters_key space)
counters-put space bytes store rec =
    get-put_store space bytes store rec (counters_key space)
    ∙ rw (counters_ne_prefix space rec.prefix rec.id, counters_ne_id space rec.id) refl

-- Purging a record leaves the counters alone.
pub counters-purge :
    (space : SpaceId) (bytes : All IsByte space) (store : MemoryStore) (rec : LeaseRecord)
    → get (apply store (purge_records space [] (rec ∷ []))) (counters_key space)
      ≡ get store (counters_key space)
counters-purge space bytes store rec =
    get-purge_store space bytes store rec (counters_key space)
    ∙ rw (counters_ne_prefix space rec.prefix rec.id, counters_ne_id space rec.id) refl

-- The store `store` has come from `store0` by purging records of which `K` does not hold.
pub record Purged (space : SpaceId) (K : LeaseRecord → Type 0) (store0 store : MemoryStore)
    : Type 0 where
  pub table : IsTable space store
  pub sub : (r : LeaseRecord) → Held space store r → Held space store0 r
  pub keep : (r : LeaseRecord) → Held space store0 r → K r → Held space store r
  pub counters_same : get store (counters_key space) ≡ get store0 (counters_key space)

Purged-refl :
    (space : SpaceId) (K : LeaseRecord → Type 0) (store : MemoryStore)
    → IsTable space store
    → Purged space K store store
Purged-refl space K store t = record {
  table = t;
  sub = λ r h. h;
  keep = λ r h k. h;
  counters_same = refl;
}

module _ (space : SpaceId) (bytes : All IsByte space) (K : LeaseRecord → Type 0)
    (store0 : MemoryStore) where
  Agrees-Purged :
      (store : MemoryStore) (rec : LeaseRecord)
      → Purged space K store0 store
      → Held space store0 rec
      → Agrees space store rec
  Agrees-Purged store rec p h r hr e =
      ap (λ (x : LeaseRecord). x.prefix) (Held-unique space store0 r rec (p.sub r hr) h e)

  purge_step :
      (store : MemoryStore) (rec : LeaseRecord)
      → Purged space K store0 store
      → Held space store0 rec
      → ¬ K rec
      → Purged space K store0 (apply store (purge_one space rec))
        × ((r : LeaseRecord)
            → Held space (apply store (purge_one space rec)) r
            → Held space store r × (r.id ≢ rec.id))
  unfolding purge_one
  purge_step store rec p h k =
      let agrees = Agrees-Purged store rec p h in
      let back = Held-purge space bytes store rec h.valid p.table agrees in
      (
        record {
          table = purge-IsTable space bytes store rec h.valid p.table agrees;
          sub = λ r hr. p.sub r (back r hr).0;
          keep = λ r hr kr.
              Held-purge_kept space bytes store rec h.valid p.table agrees r (p.keep r hr kr)
                (λ e. k (subst K (Held-unique space store0 r rec hr h e) kr));
          counters_same = counters-purge space bytes store rec ∙ p.counters_same;
        },
        back,
      )

  -- None of the purged records is left.
  abbrev pub Gone : MemoryStore → List LeaseRecord → Type 0
  Gone store recs = All (λ y. (r : LeaseRecord) → Held space store r → r.id ≢ y.id) recs

  abbrev Left : List LeaseRecord → MemoryStore → MemoryStore → Type 0
  Left recs store store' =
      Purged space K store0 store'
      × Gone store' recs
      × ((r : LeaseRecord) → Held space store' r → Held space store r)

  purge_loop :
      (recs : List LeaseRecord) (store : MemoryStore)
      → All (λ r. Held space store0 r × (¬ K r)) recs
      → Purged space K store0 store
      → Left recs store (apply store (purge_records space [] recs))
  purge_loop [] store h p = unfold purge_records apply in (p, tt, λ r hr. hr)
  purge_loop (r ∷ recs) store ((h, k), hs) p =
      let (q, back) = purge_step store r p h k in
      let (last, gone, sub) = purge_loop recs (apply store (purge_one space r)) hs q in
      subst (Left (r ∷ recs) store) (apply-purge_one space r recs store)
        (last, (λ x hx. (back x (sub x hx)).1, gone), λ x hx. (back x (sub x hx)).0)

  pub purge_records-Purged :
      (recs : List LeaseRecord)
      → All (λ r. Held space store0 r × (¬ K r)) recs
      → IsTable space store0
      → Purged space K store0 (apply store0 (purge_records space [] recs))
        × Gone (apply store0 (purge_records space [] recs)) recs
  purge_records-Purged recs h t =
      let (p, gone, sub) = purge_loop recs store0 h (Purged-refl space K store0 t) in (p, gone)
