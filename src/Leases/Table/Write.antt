-- ===== src/Leases/Table/Write.antt =====
-- Writing or purging a record's two entries keeps both indexes of the lease table together.
use homebase.Prelude.{
  ℕ, ◌≡◌, refl, sym, ap, ◌∙◌, true, false, ◌==◌, nat_ord, list_ord, if◌then◌else◌, Option, none,
  some, starts_with, eq_of_==, ==_iff, ==_self, Bool-cases, inl, inr, ◌⊎◌, ◌≢◌,
}
use mathlib.Core.Path.{ap₂}
use homebase.Prelude.Bytes.{Bytes}
use homebase.Key.{Key}
use homebase.Schema.{SpaceId, lease_by_id_key, lease_by_id_scan, lease_by_prefix_key}
use homebase.Schema.Keys.{
  lease_by_prefix_scan_all, id_key-id_scan, prefix_key-id_scan, id_key-prefix_scan,
  id_key-injective, prefix_key-injective,
}
use homebase.Schema.LeaseRecord.{LeaseRecord, lease_encode}
use homebase.Storage.{MemoryStore, get}
use homebase.Storage.Store.{IsStore}
use homebase.Leases.Table.{IsRecord, IsTable, Held, Agrees, lease_encode-injective}

-- A write of one record's two entries, `w` being what both keys then hold.
module _ (space : SpaceId) (store store' : MemoryStore) (rec : LeaseRecord) (w : Option Bytes)
    (written : (k : Bytes)
      → get store' k ≡ (
          if k == lease_by_prefix_key space rec.prefix rec.id
          then w
          else if k == lease_by_id_key space rec.id
          then w
          else get store k)) where
  get-prefix_key : get store' (lease_by_prefix_key space rec.prefix rec.id) ≡ w
  get-prefix_key =
      written (lease_by_prefix_key space rec.prefix rec.id)
      ∙ rw (==_self (lease_by_prefix_key space rec.prefix rec.id)) refl

  get-unwritten :
      (k : Bytes)
      → (k == lease_by_prefix_key space rec.prefix rec.id) ≡ false
      → (k == lease_by_id_key space rec.id) ≡ false
      → get store' k ≡ get store k
  get-unwritten k h i = written k ∙ rw (h, i) refl

  -- The by-id key is no by-prefix key.
  id_ne_prefix :
      (i j : ℕ) (p : Key) → (lease_by_id_key space i == lease_by_prefix_key space p j) ≡ false
  id_ne_prefix i j p =
      elim (Bool-cases (lease_by_id_key space i == lease_by_prefix_key space p j)) [
        | inl q ↦
            let e = eq_of_== (lease_by_id_key space i) (lease_by_prefix_key space p j) q in
            cc (
              sym (id_key-id_scan space i)
              ∙ ap (λ (k : Bytes). starts_with k (lease_by_id_scan space)) e
              ∙ prefix_key-id_scan space p j)
        | inr q ↦ q
      ]

  prefix_ne_id :
      (i j : ℕ) (p : Key) → (lease_by_prefix_key space p j == lease_by_id_key space i) ≡ false
  prefix_ne_id i j p =
      elim (Bool-cases (lease_by_prefix_key space p j == lease_by_id_key space i)) [
        | inl q ↦
            let e = eq_of_== (lease_by_prefix_key space p j) (lease_by_id_key space i) q in
            cc (
              sym (id_key-id_scan space i)
              ∙ ap (λ (k : Bytes). starts_with k (lease_by_id_scan space)) (sym e)
              ∙ prefix_key-id_scan space p j)
        | inr q ↦ q
      ]

  pub get-id_key : get store' (lease_by_id_key space rec.id) ≡ w
  get-id_key =
      written (lease_by_id_key space rec.id)
      ∙ rw (id_ne_prefix rec.id rec.id rec.prefix, ==_self (lease_by_id_key space rec.id)) refl

  module _ (v : IsRecord rec) (t : IsTable space store) (agrees : Agrees space store rec)
      (s' : IsStore store') (what : (w ≡ none) ⊎ (w ≡ some (lease_encode rec))) where
    -- What a written key is read back as.
    written_value :
        (k u : Bytes)
        → get store' k ≡ w
        → get store' k ≡ some u
        → (u ≡ lease_encode rec) × (w ≡ some (lease_encode rec))
    written_value k u e f = elim what [
      | inl n ↦ cc (sym f ∙ e ∙ n)
      | inr y ↦ (cc (sym f ∙ e ∙ y), y)
    ]

    by_id' :
        (k u : Bytes)
        → get store' k ≡ some u
        → starts_with k (lease_by_id_scan space) ≡ true
        → (r : LeaseRecord) × IsRecord r
          × (k ≡ lease_by_id_key space r.id)
          × (u ≡ lease_encode r)
          × (get store' (lease_by_prefix_key space r.prefix r.id) ≡ some (lease_encode r))
    by_id' k u e st = elim (Bool-cases (k == lease_by_prefix_key space rec.prefix rec.id)) [
      | inl q ↦
          let same = eq_of_== k (lease_by_prefix_key space rec.prefix rec.id) q in
          cc (
            sym st
            ∙ ap (λ (j : Bytes). starts_with j (lease_by_id_scan space)) same
            ∙ prefix_key-id_scan space rec.prefix rec.id)
      | inr q ↦ elim (Bool-cases (k == lease_by_id_key space rec.id)) [
        | inl q' ↦
            let same = eq_of_== k (lease_by_id_key space rec.id) q' in
            let (a, b) = written_value k u (ap (get store') same ∙ get-id_key) e in
            (rec, v, same, a, get-prefix_key ∙ b)
        | inr q' ↦
            let (r, vr, ke, ve, other) = t.by_id k u (sym (get-unwritten k q q') ∙ e) st in
            (
              r,
              vr,
              ke,
              ve,
              get-unwritten (lease_by_prefix_key space r.prefix r.id) (other_key r vr k ke q')
                    (prefix_ne_id rec.id r.id r.prefix)
                  ∙ other,
            )
      ]
    ]
      where
        other_key :
            (r : LeaseRecord)
            → IsRecord r
            → (k : Bytes) → k ≡ lease_by_id_key space r.id
            → (k == lease_by_id_key space rec.id) ≡ false
            → (lease_by_prefix_key space r.prefix r.id
                == lease_by_prefix_key space rec.prefix rec.id)
              ≡ false
        other_key r vr k ke q' =
            elim (Bool-cases (
              lease_by_prefix_key space r.prefix r.id
              == lease_by_prefix_key space rec.prefix rec.id)) [
                | inl y ↦
                    let (p, i) =
                      prefix_key-injective space r.prefix rec.prefix r.id rec.id vr.fields.id_fits
                        v.fields.id_fits
                        (eq_of_== (lease_by_prefix_key space r.prefix r.id)
                          (lease_by_prefix_key space rec.prefix rec.id) y) in
                    cc (
                      sym q'
                      ∙ (==_iff k (lease_by_id_key space rec.id)).1
                          (ke ∙ ap (lease_by_id_key space) i))
                | inr n ↦ n
              ]

    by_prefix' :
        (k u : Bytes)
        → get store' k ≡ some u
        → starts_with k (lease_by_prefix_scan_all space) ≡ true
        → (r : LeaseRecord) × IsRecord r
          × (k ≡ lease_by_prefix_key space r.prefix r.id)
          × (u ≡ lease_encode r)
          × (get store' (lease_by_id_key space r.id) ≡ some (lease_encode r))
    by_prefix' k u e st = elim (Bool-cases (k == lease_by_prefix_key space rec.prefix rec.id)) [
      | inl q ↦
          let same = eq_of_== k (lease_by_prefix_key space rec.prefix rec.id) q in
          let (a, b) = written_value k u (ap (get store') same ∙ get-prefix_key) e in
          (rec, v, same, a, get-id_key ∙ b)
      | inr q ↦ elim (Bool-cases (k == lease_by_id_key space rec.id)) [
        | inl q' ↦
            let same = eq_of_== k (lease_by_id_key space rec.id) q' in
            cc (
              sym st
              ∙ ap (λ (j : Bytes). starts_with j (lease_by_prefix_scan_all space)) same
              ∙ id_key-prefix_scan space rec.id)
        | inr q' ↦
            let (r, vr, ke, ve, other) = t.by_prefix k u (sym (get-unwritten k q q') ∙ e) st in
            (
              r,
              vr,
              ke,
              ve,
              get-unwritten (lease_by_id_key space r.id) (id_ne_prefix r.id rec.id rec.prefix)
                    (other_key r vr other k ke q)
                  ∙ other,
            )
      ]
    ]
      where
        other_key :
            (r : LeaseRecord)
            → IsRecord r
            → get store (lease_by_id_key space r.id) ≡ some (lease_encode r)
            → (k : Bytes) → k ≡ lease_by_prefix_key space r.prefix r.id
            → (k == lease_by_prefix_key space rec.prefix rec.id) ≡ false
            → (lease_by_id_key space r.id == lease_by_id_key space rec.id) ≡ false
        other_key r vr held k ke q =
            elim (Bool-cases (lease_by_id_key space r.id == lease_by_id_key space rec.id)) [
              | inl y ↦
                  let i =
                    id_key-injective space r.id rec.id vr.fields.id_fits v.fields.id_fits
                      (eq_of_== (lease_by_id_key space r.id) (lease_by_id_key space rec.id) y) in
                  let p = agrees r (record { valid = vr; stored = held }) i in
                  cc (
                    sym q
                    ∙ (==_iff k (lease_by_prefix_key space rec.prefix rec.id)).1
                        (ke ∙ ap₂ (lease_by_prefix_key space) p i))
              | inr n ↦ n
            ]

    pub written-IsTable : IsTable space store'
    written-IsTable = record { is_store = s'; by_id = by_id'; by_prefix = by_prefix' }

    -- The records after the write: the written one, and those under other ids.
    pub Held-written :
        (r : LeaseRecord)
        → Held space store' r
        → ((w ≡ some (lease_encode rec)) × (r ≡ rec)) ⊎ (Held space store r × (r.id ≢ rec.id))
    Held-written r h =
        elim (Bool-cases (lease_by_id_key space r.id == lease_by_id_key space rec.id)) [
          | inl q ↦
              let same = eq_of_== (lease_by_id_key space r.id) (lease_by_id_key space rec.id) q in
              let (a, b) =
                written_value (lease_by_id_key space r.id) (lease_encode r)
                  (ap (get store') same ∙ get-id_key) h.stored in
              inl (b, lease_encode-injective r rec h.valid v a)
          | inr q ↦ inr (
            record {
              valid = h.valid;
              stored =
                  sym (
                    get-unwritten (lease_by_id_key space r.id) (id_ne_prefix r.id rec.id rec.prefix)
                      q)
                  ∙ h.stored;
            },
            λ e. cc (
                sym q
                ∙ (==_iff (lease_by_id_key space r.id) (lease_by_id_key space rec.id)).1
                    (ap (lease_by_id_key space) e)),
          )
        ]

    pub Held-kept : (r : LeaseRecord) → Held space store r → r.id ≢ rec.id → Held space store' r
    Held-kept r h n = record {
      valid = h.valid;
      stored =
          get-unwritten (lease_by_id_key space r.id) (id_ne_prefix r.id rec.id rec.prefix)
            (elim (Bool-cases (lease_by_id_key space r.id == lease_by_id_key space rec.id)) [
              | inl y ↦ absurd (
                  n (
                    id_key-injective space r.id rec.id h.valid.fields.id_fits v.fields.id_fits
                      (eq_of_== (lease_by_id_key space r.id) (lease_by_id_key space rec.id) y)))
              | inr y ↦ y
            ])
          ∙ h.stored;
    }
