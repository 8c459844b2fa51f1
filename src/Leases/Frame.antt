-- ===== src/Leases/Frame.antt =====
-- A batch that writes under other keys than the lease table's leaves the table as it was.
use homebase.Prelude.{
  ◌<◌, ◌^◌, ◌≡◌, refl, sym, ap, subst, ◌∙◌, true, false, [], ◌∷◌, ◌==◌, nat_ord, list_ord, none,
  some, starts_with, All, Bool-cases, inl, inr, ◌⊎◌, eq_of_==,
}
use homebase.Prelude.Bytes.{Bytes, IsByte}
use homebase.Clock.{Timestamp}
use homebase.Schema.{SpaceId, lease_by_id_key, lease_by_id_scan, lease_by_prefix_key, counters_key}
use homebase.Schema.Keys.{lease_by_prefix_scan_all, id_key-id_scan, prefix_key-prefix_scan}
use homebase.Schema.LeaseRecord.{LeaseRecord, CountersRecord, counters_encode}
use homebase.Storage.{MemoryStore, WriteBatch, Op, put, delete, get, apply}
use homebase.Storage.Store.{KeyBytes, last_op, get-apply, apply-IsStore}
use homebase.Leases.Table.{IsTable, Held}
use homebase.Leases.Exclusion.{IsSpace}

module _ (space : SpaceId) where
  -- A byte key outside both lease indexes.
  pub record IsApart (k : Bytes) : Type 0 where
    pub off_id : starts_with k (lease_by_id_scan space) ≡ false
    pub off_prefix : starts_with k (lease_by_prefix_scan_all space) ≡ false
    pub bytes : All IsByte k

  abbrev pub ApartOp : Op → Type 0
  ApartOp (put key value) = IsApart key
  ApartOp (delete key) = IsApart key

  ApartOp-KeyBytes : (ops : WriteBatch) → All ApartOp ops → KeyBytes ops
  ApartOp-KeyBytes [] h = tt
  ApartOp-KeyBytes (put key value ∷ ops) (h, hs) = (h.bytes, ApartOp-KeyBytes ops hs)
  ApartOp-KeyBytes (delete key ∷ ops) (h, hs) = ApartOp-KeyBytes ops hs

  -- A key of either index.
  abbrev Indexed : Bytes → Type 0
  Indexed k =
      (starts_with k (lease_by_id_scan space) ≡ true)
      ⊎ (starts_with k (lease_by_prefix_scan_all space) ≡ true)

  Indexed-IsApart : (k j : Bytes) → Indexed k → IsApart j → (k == j) ≡ false
  Indexed-IsApart k j h a = elim (Bool-cases (k == j)) [
    | inr q ↦ q
    | inl q ↦
        let e = eq_of_== k j q in
        elim h [
          | inl t ↦
              cc (sym t ∙ ap (λ (x : Bytes). starts_with x (lease_by_id_scan space)) e ∙ a.off_id)
          | inr t ↦ cc (
              sym t
              ∙ ap (λ (x : Bytes). starts_with x (lease_by_prefix_scan_all space)) e
              ∙ a.off_prefix)
        ]
  ]

  last_op-Indexed :
      (k : Bytes) (ops : WriteBatch) → Indexed k → All ApartOp ops → last_op k ops ≡ none
  unfolding last_op
  last_op-Indexed k [] h a = refl
  last_op-Indexed k (put key value ∷ ops) h (a, as') =
      rw (last_op-Indexed k ops h as', Indexed-IsApart k key h a) refl
  last_op-Indexed k (delete key ∷ ops) h (a, as') =
      rw (last_op-Indexed k ops h as', Indexed-IsApart k key h a) refl

  module _ (store : MemoryStore) (ops : WriteBatch) (apart : All ApartOp ops) where
    get-Indexed : (k : Bytes) → Indexed k → get (apply store ops) k ≡ get store k
    get-Indexed k h = get-apply ops store k ∙ rw (last_op-Indexed k ops h apart) refl

    get-id_key :
        (rec : LeaseRecord)
        → get (apply store ops) (lease_by_id_key space rec.id)
          ≡ get store (lease_by_id_key space rec.id)
    get-id_key rec = get-Indexed (lease_by_id_key space rec.id) (inl (id_key-id_scan space rec.id))

    get-prefix_key :
        (rec : LeaseRecord)
        → get (apply store ops) (lease_by_prefix_key space rec.prefix rec.id)
          ≡ get store (lease_by_prefix_key space rec.prefix rec.id)
    get-prefix_key rec =
        get-Indexed (lease_by_prefix_key space rec.prefix rec.id)
          (inr (prefix_key-prefix_scan space rec.prefix rec.id))

    apart-IsTable : IsTable space store → IsTable space (apply store ops)
    apart-IsTable t = record {
      is_store = apply-IsStore ops store (ApartOp-KeyBytes ops apart) t.is_store;
      by_id = λ k v e h.
          let (rec, r, ek, ev, stored) = t.by_id k v (sym (get-Indexed k (inl h)) ∙ e) h in
          (rec, r, ek, ev, get-prefix_key rec ∙ stored);
      by_prefix = λ k v e h.
          let (rec, r, ek, ev, stored) = t.by_prefix k v (sym (get-Indexed k (inr h)) ∙ e) h in
          (rec, r, ek, ev, get-id_key rec ∙ stored);
    }

    Held-apart : (rec : LeaseRecord) → Held space (apply store ops) rec → Held space store rec
    Held-apart rec h = record { valid = h.valid; stored = sym (get-id_key rec) ∙ h.stored }

    -- The space stays well-formed under counters that only move the admission high water.
    pub apart-IsSpace :
        (now : Timestamp) (c d : CountersRecord)
        → IsSpace space store now c
        → get (apply store ops) (counters_key space) ≡ some (counters_encode d)
        → d.next_lease_id ≡ c.next_lease_id
        → d.admission_high_water < 256 ^ 8
        → IsSpace space (apply store ops) now d
    apart-IsSpace now c d i stored same fits = record {
      table = apart-IsTable i.table;
      exclusive = λ a b ha hb. i.exclusive a b (Held-apart a ha) (Held-apart b hb);
      below = λ r h. subst (λ n. r.id < n) (sym same) (i.below r (Held-apart r h));
      stored = inl stored;
      id_fits = subst (λ n. n < 256 ^ 8) (sym same) i.id_fits;
      high_water_fits = fits;
    }
