-- ===== src/Leases/Release.antt =====
-- server/src/space/lease.rs: `release`, its loop over the ids of a request, and `lease_by_id`.
use homebase.Prelude.{
  ℕ, ◌≡◌, ◌==◌, refl, sym, subst, ap, ◌∙◌, Bool, true, false, not, ◌||◌, List, [], ◌∷◌, ◌++◌,
  Option, none, some, ok, All, append_assoc, append-nil, inl, inr, ◌⊎◌, ◌≢◌, nat_ord, list_ord,
  Bool-cases,
}
use homebase.Prelude.Map.{map_remove}
use homebase.Prelude.Bytes.{Bytes, IsByte}
use homebase.Clock.{Timestamp}
use homebase.Lease.{LeaseId}
use homebase.Messages.{ReleaseRequest}
use homebase.Schema.{SpaceId, lease_by_id_key}
use homebase.Schema.Keys.{id_key-id_scan}
use homebase.Schema.LeaseRecord.{LeaseRecord, CountersRecord, is_live, lease_encode, lease_decode}
use homebase.Schema.LeaseRecord.Codec.{lease_decode-encode}
use homebase.Storage.{MemoryStore, WriteBatch, get, apply}
use homebase.Leases.{LeaseManager, find_by_id, purge_records}
use homebase.Leases.Table.{IsTable, Held, lease_encode-injective}
use homebase.Leases.Purge.{purge_records-Purged, purge_records-append}
use homebase.Leases.Exclusion.{IsSpace, Purged-IsSpace}
use homebase.Leases.Verbs.{release_loop, release}

-- The lease is live, and another device's.
abbrev pub Foreign : Timestamp → ReleaseRequest → LeaseRecord → Type 0
Foreign now req r = (not (is_live r now) || r.device == req.device) ≡ false

-- What `find_by_id` finds: nothing, or a record of the table under that id.
abbrev pub Found : SpaceId → MemoryStore → LeaseId → Type 0
Found space store id =
    (find_by_id space store id ≡ some none)
    ⊎ ((r : LeaseRecord) × (find_by_id space store id ≡ some (some r))
        × Held space store r
        × (lease_by_id_key space id ≡ lease_by_id_key space r.id))

find_by_id-get :
    (space : SpaceId) (store : MemoryStore) (id : LeaseId) (v : Bytes) (r : LeaseRecord)
    → get store (lease_by_id_key space id) ≡ some v
    → lease_decode v ≡ some r
    → find_by_id space store id ≡ some (some r)
unfolding find_by_id
find_by_id-get space store id v r e d = rw (find_by_id, e) (rw d refl)

pub find_by_id-Held :
    (space : SpaceId) (store : MemoryStore) (id : LeaseId) (r : LeaseRecord)
    → Held space store r
    → r.id ≡ id
    → find_by_id space store id ≡ some (some r)
find_by_id-Held space store id r h q =
    find_by_id-get space store id (lease_encode r) r
      (ap (λ (j : ℕ). get store (lease_by_id_key space j)) (sym q) ∙ h.stored)
      (lease_decode-encode r h.valid.fields)

module _ (space : SpaceId) (store : MemoryStore) (t : IsTable space store) where
  pub find_by_id_lem : (id : LeaseId) → Found space store id
  unfolding find_by_id
  find_by_id_lem id = found (get store (lease_by_id_key space id)) refl
    where
      found : (o : Option Bytes) → get store (lease_by_id_key space id) ≡ o → Found space store id
      found none e = inl (rw (e, find_by_id) refl)
      found (some v) e =
          let (r, vr, ke, ve, other) =
            t.by_id (lease_by_id_key space id) v e (id_key-id_scan space id) in
          let stored : get store (lease_by_id_key space r.id) ≡ some (lease_encode r) =
            ap (get store) (sym ke) ∙ e ∙ ap some ve in
          inr (
            r,
            find_by_id-get space store id v r e
                (ap lease_decode ve ∙ lease_decode-encode r vr.fields),
            record { valid = vr; stored = stored },
            ke,
          )

-- The records that `release` purges: held, and not another device's live leases; every such record
-- under an id of the request is one of them.
abbrev pub Releases :
    LeaseManager
    → MemoryStore
    → Timestamp
    → ReleaseRequest
    → List LeaseId
    → List LeaseRecord
    → Type 1
Releases mgr store now req ids ys =
    All (λ r. Held mgr.space store r × (¬ Foreign now req r)) ys
    × ((P : LeaseRecord → Type 0)
        → All P ys
        → All
            (λ id.
              (r : LeaseRecord) → Held mgr.space store r → r.id ≡ id → ¬ Foreign now req r → P r)
            ids)

-- What the loop does with a record that it finds.
on_found :
    LeaseManager
    → MemoryStore
    → Timestamp
    → ReleaseRequest
    → LeaseId
    → List LeaseId
    → WriteBatch
    → LeaseRecord
    → Bool
    → Option (LeaseManager × WriteBatch)
on_found mgr store now req id ids batch rec true =
    release_loop (record mgr { demand = map_remove id mgr.demand }) store now req ids
      (purge_records mgr.space batch (rec ∷ []))
on_found mgr store now req id ids batch rec false = release_loop mgr store now req ids batch

module _ (store : MemoryStore) (now : Timestamp) (req : ReleaseRequest) where
  release_loop-missing :
      (mgr : LeaseManager) (id : LeaseId) (ids : List LeaseId) (batch : WriteBatch)
      → find_by_id mgr.space store id ≡ some none
      → release_loop mgr store now req (id ∷ ids) batch ≡ release_loop mgr store now req ids batch
  unfolding release_loop
  release_loop-missing mgr id ids batch e = rw e refl

  release_loop-found :
      (mgr : LeaseManager) (id : LeaseId) (ids : List LeaseId) (batch : WriteBatch)
      (rec : LeaseRecord) (own : Bool)
      → find_by_id mgr.space store id ≡ some (some rec)
      → (not (is_live rec now) || rec.device == req.device) ≡ own
      → release_loop mgr store now req (id ∷ ids) batch
        ≡ on_found mgr store now req id ids batch rec own
  unfolding release_loop on_found
  release_loop-found mgr id ids batch rec own e q =
      rw e (ap (on_found mgr store now req id ids batch rec) q)

  missing_id :
      (mgr : LeaseManager) (id : LeaseId) (P : LeaseRecord → Type 0)
      → find_by_id mgr.space store id ≡ some none
      → (r : LeaseRecord) → Held mgr.space store r
      → r.id ≡ id
      → ¬ Foreign now req r
      → P r
  missing_id mgr id P e r h q n = cc (sym e ∙ find_by_id-Held mgr.space store id r h q)

  found_id :
      (mgr : LeaseManager) (id : LeaseId) (rec : LeaseRecord)
      → Held mgr.space store rec
      → lease_by_id_key mgr.space id ≡ lease_by_id_key mgr.space rec.id
      → (r : LeaseRecord) → Held mgr.space store r
      → r.id ≡ id
      → rec ≡ r
  found_id mgr id rec hrec ke r h q =
      let same : some (lease_encode rec) ≡ some (lease_encode r) =
        sym hrec.stored
        ∙ ap (get store) (sym ke ∙ ap (lease_by_id_key mgr.space) (sym q))
        ∙ h.stored in
      lease_encode-injective rec r hrec.valid h.valid (cc)

  release_loop_lem :
      (ids : List LeaseId) (mgr : LeaseManager) (xs : List LeaseRecord)
      → IsTable mgr.space store
      → (mgr' : LeaseManager) × (ys : List LeaseRecord) × (release_loop mgr store now req ids
            (purge_records mgr.space [] xs)
          ≡ some (mgr', purge_records mgr.space [] (xs ++ ys)))
        × (mgr'.space ≡ mgr.space)
        × Releases mgr store now req ids ys
  unfolding on_found
  release_loop_lem [] mgr xs t =
      (mgr, [], unfold release_loop in rw (append-nil xs) refl, refl, (tt, λ P h. tt))
  release_loop_lem (id ∷ ids) mgr xs t = elim (find_by_id_lem mgr.space store t id) [
    | inl e ↦
        let (mgr', ys, f, s, (h, k)) = release_loop_lem ids mgr xs t in
        (
          mgr',
          ys,
          release_loop-missing mgr id ids (purge_records mgr.space [] xs) e ∙ f,
          s,
          (h, λ P all. (missing_id mgr id P e, k P all)),
        )
    | inr (r, e, held, ke) ↦ elim (Bool-cases (not (is_live r now) || r.device == req.device)) [
      | inl q ↦
          let (mgr', ys, f, s, (h, k)) =
            release_loop_lem ids (record mgr { demand = map_remove id mgr.demand }) (xs ++ r ∷ [])
              t in
          (
            mgr',
            r ∷ ys,
            release_loop-found mgr id ids (purge_records mgr.space [] xs) r true e q
                ∙ rw (purge_records-append mgr.space [] xs (r ∷ []), ← append_assoc xs (r ∷ []) ys)
                    f,
            s,
            (
              ((held, λ n. cc (sym q ∙ n)), h),
              λ P (pr, all).
                  (λ r' h' q' n. subst P (found_id mgr id r held ke r' h' q') pr, k P all),
            ),
          )
      | inr q ↦
          let (mgr', ys, f, s, (h, k)) = release_loop_lem ids mgr xs t in
          (
            mgr',
            ys,
            release_loop-found mgr id ids (purge_records mgr.space [] xs) r false e q ∙ f,
            s,
            (
              h,
              λ P all. (
                λ r' h' q' n.
                    absurd (n (subst (Foreign now req) (found_id mgr id r held ke r' h' q') q)),
                k P all,
              ),
            ),
          )
    ]
  ]

  release_loop-start :
      (mgr : LeaseManager)
      → IsTable mgr.space store
      → (mgr' : LeaseManager) × (ys : List LeaseRecord) × (release_loop mgr store now req req.leases
            []
          ≡ some (mgr', purge_records mgr.space [] ys))
        × (mgr'.space ≡ mgr.space)
        × Releases mgr store now req req.leases ys
  unfolding purge_records
  release_loop-start mgr t = release_loop_lem req.leases mgr [] t

  own_gone :
      (mgr : LeaseManager) (store' : MemoryStore) (ids : List LeaseId)
      → ((r : LeaseRecord) → Held mgr.space store' r → Held mgr.space store r)
      → All
          (λ id.
            (r : LeaseRecord)
            → Held mgr.space store r
            → r.id ≡ id
            → ¬ Foreign now req r
            → (x : LeaseRecord) → Held mgr.space store' x
            → x.id ≢ r.id)
          ids
      → All (λ id. (r : LeaseRecord) → Held mgr.space store' r → r.id ≡ id → Foreign now req r) ids
  own_gone mgr store' [] sub h = tt
  own_gone mgr store' (id ∷ ids) sub (h, hs) = (
    λ r hr e. elim (Bool-cases (not (is_live r now) || r.device == req.device)) [
      | inl q ↦ absurd (h r (sub r hr) e (λ n. cc (sym q ∙ n)) r hr refl)
      | inr q ↦ q
    ],
    own_gone mgr store' ids sub hs,
  )

  -- On a space of a byte id whose invariant holds, `release` never panics and answers ok; the
  -- invariant holds afterwards, every live lease of another device is still in the table, and of
  -- the ids of the request none is left but live leases of other devices.
  pub release_lem :
      (mgr : LeaseManager) (c : CountersRecord)
      → All IsByte mgr.space
      → IsSpace mgr.space store now c
      → (mgr' : LeaseManager) × (store' : MemoryStore) × (release mgr store now req
          ≡ some (mgr', store', ok tt))
        × IsSpace mgr.space store' now c
        × ((r : LeaseRecord) → Held mgr.space store r → Foreign now req r → Held mgr.space store' r)
        × All
            (λ id. (r : LeaseRecord) → Held mgr.space store' r → r.id ≡ id → Foreign now req r)
            req.leases
  unfolding release
  release_lem mgr c bytes i =
      let (mgr', ys, e, s, (h, k)) = release_loop-start mgr i.table in
      let (p, gone) = purge_records-Purged mgr.space bytes (Foreign now req) store ys h i.table in
      (
        mgr',
        apply store (purge_records mgr.space [] ys),
        rw e refl,
        Purged-IsSpace mgr.space (Foreign now req) now c store i
            (apply store (purge_records mgr.space [] ys)) p,
        p.keep,
        own_gone mgr (apply store (purge_records mgr.space [] ys)) req.leases p.sub (
            k
              (λ r.
                (x : LeaseRecord)
                → Held mgr.space (apply store (purge_records mgr.space [] ys)) x
                → x.id ≢ r.id)
              gone),
      )
