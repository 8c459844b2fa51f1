-- ===== src/Leases/Acquire/Outcome.antt =====
-- The whole of `acquire`: what it answers, and what it leaves of the space.
use homebase.Prelude.{
  ℕ, ◌+◌, ◌<◌, ◌≡◌, ◌^◌, refl, sym, ap, ◌∙◌, true, List, [], ◌∷◌, ◌++◌, length, Option, none, some,
  Result, ok, err, max, All, arith, inl, inr, ◌⊎◌, ◌-◌,
}
use homebase.Prelude.Bytes.{IsByte}
use homebase.Clock.{Timestamp}
use homebase.Key.{Key}
use homebase.Lease.{Lease}
use homebase.Messages.{LeaseSpec, AcquireRequest, KernelError, contended}
use homebase.Schema.{SpaceId, counters_key}
use homebase.Schema.LeaseRecord.{LeaseRecord, is_live, CountersRecord, counters_encode}
use homebase.Storage.{MemoryStore, WriteBatch, put, apply}
use homebase.Leases.{LeaseManager, purge_records}
use homebase.Leases.Table.{Held}
use homebase.Leases.Table.Counters.{
  counters_write-IsTable, counters_write-Held, Held-counters_write, counters_write-read,
  counters-stored,
}
use homebase.Leases.Purge.{Purged, purge_records-Purged, apply-append}
use homebase.Leases.Exclusion.{Free, IsRequest, IsSpace, Purged-IsSpace}
use homebase.Leases.Verbs.{
  clear, blocked, check_specs, batch_conflict, grant, acquire, grant_records, put_all,
  public_leases, add_demand, max_deadline,
}
use homebase.Leases.Acquire.{Expired, Blocks, Describes, check_specs-start}
use homebase.Leases.Acquire.Conflict.{
  Conflict, conflicting_iff, Unblocked, Frees-Unblocked, Unrelated, Clash, batch_conflict-some,
  batch_conflict-Unrelated, Numbered, grant_records-Numbered,
}
use homebase.Leases.Acquire.Grant.{grant_loop, batch_conflict-none, put_all-split}

abbrev pub Live : Timestamp → LeaseRecord → Type 0
Live now r = is_live r now ≡ true

-- The live leases of the table are in the later table too.
abbrev pub KeepsLive : SpaceId → Timestamp → MemoryStore → MemoryStore → Type 0
KeepsLive space now store store' =
    (r : LeaseRecord) → Held space store r → Live now r → Held space store' r

worst : (a b : ℕ) → (max a b ≡ a) ⊎ (max a b ≡ b)
worst a b = ground arith

module _ (space : SpaceId) (bytes : All IsByte space) (now : Timestamp) (c : CountersRecord)
    (store : MemoryStore) (i : IsSpace space store now c) where
  -- The table after the purge of expired records.
  purged :
      (ys : List LeaseRecord)
      → All (Expired space store now) ys
      → Purged space (Live now) store (apply store (purge_records space [] ys))
  purged ys h = (purge_records-Purged space bytes (Live now) store ys (dead ys h) i.table).0
    where
      dead :
          (ys : List LeaseRecord)
          → All (Expired space store now) ys
          → All (λ r. Held space store r × (¬ Live now r)) ys
      dead [] h = tt
      dead (y ∷ ys) ((h, d), hs) = ((h, λ e. cc (sym d ∙ e)), dead ys hs)

  Purged-Free :
      (store' : MemoryStore) (specs : List LeaseSpec)
      → Purged space (Live now) store store'
      → All (λ s. Free space store now s.prefix s.mode) specs
      → All (λ s. Free space store' now s.prefix s.mode) specs
  Purged-Free store' [] p fs = tt
  Purged-Free store' (s ∷ specs) p (f, fs) = (λ r h. f r (p.sub r h), Purged-Free store' specs p fs)

module _ (mgr : LeaseManager) (store : MemoryStore) (now : Timestamp) (req : AcquireRequest)
    (c : CountersRecord) where
  -- The records that a grant writes.
  abbrev pub granted : List LeaseRecord
  granted = grant_records req now c.admission_high_water c.next_lease_id req.specs

  -- The counters after the grant.
  abbrev pub counters_after : CountersRecord
  counters_after = record c { next_lease_id = c.next_lease_id + length req.specs }

  -- No live lease of the table conflicts with a spec.
  abbrev pub AllUnblocked : Type 0
  AllUnblocked = All (Unblocked mgr.space store now) req.specs

  abbrev Frees : Type 0
  Frees = All (λ s. Free mgr.space store now s.prefix s.mode) req.specs

  -- Why `acquire` refuses: a live lease of the table conflicts with a spec, and the answer names
  -- that spec's prefix and the time that is left of such a lease, or two specs conflict.
  abbrev pub Refused : KernelError → Type 0
  Refused e =
      ((spec : LeaseSpec) × (r : LeaseRecord) × (Held mgr.space store r
          × (is_live r now ≡ true)
          × Conflict spec.prefix spec.mode r.prefix r.mode)
        × (e ≡ contended spec.prefix (some (r.deadline - now)))
        × (¬ AllUnblocked))
      ⊎ ((p : Key) × (e ≡ contended p none) × Clash p req.specs)

  -- What `acquire` does: it grants every spec, under the next ids, or it refuses.
  abbrev pub Grants : Type 0
  Grants =
      (store' : MemoryStore) × (acquire mgr store now req
        ≡ some (mgr, store', ok (public_leases granted)))
      × AllUnblocked
      × (Unrelated req.specs
          × Numbered req now c.admission_high_water c.next_lease_id req.specs granted
              (public_leases granted))
      × IsSpace mgr.space store' now counters_after
      × All (Held mgr.space store') granted
      × KeepsLive mgr.space now store store'

  abbrev pub Refuses : Type 0
  Refuses =
      (mgr' : LeaseManager) × (store' : MemoryStore) × (e : KernelError) × (acquire mgr store now
          req
        ≡ some (mgr', store', err e))
      × Refused e
      × IsSpace mgr.space store' now c
      × KeepsLive mgr.space now store store'

module _ (mgr : LeaseManager) (store : MemoryStore) (now : Timestamp) (req : AcquireRequest)
    (c : CountersRecord) (bytes : All IsByte mgr.space) (i : IsSpace mgr.space store now c)
    (vr : IsRequest req) (now_fits : now < 256 ^ 8)
    (room : c.next_lease_id + length req.specs < 256 ^ 8) where
  abbrev recs : List LeaseRecord
  recs = granted mgr store now req c

  abbrev c' : CountersRecord
  c' = counters_after mgr store now req c

  granted_case :
      (ys : List LeaseRecord)
      → All (Expired mgr.space store now) ys
      → Frees mgr store now req c
      → batch_conflict req.specs ≡ none
      → (store' : MemoryStore) × (grant mgr store now req (purge_records mgr.space [] ys)
          ≡ some (mgr, store', ok (public_leases recs)))
        × IsSpace mgr.space store' now c'
        × All (Held mgr.space store') recs
        × KeepsLive mgr.space now store store'
  unfolding grant
  granted_case ys h fs n =
      let p = purged mgr.space bytes now c store i ys h in
      let j =
        Purged-IsSpace mgr.space (Live now) now c store i
          (apply store (purge_records mgr.space [] ys)) p in
      let (g, adv) =
        grant_loop mgr.space bytes now req c.admission_high_water now_fits i.high_water_fits vr
          req.specs c.next_lease_id (apply store (purge_records mgr.space [] ys)) j.table
          j.exclusive j.below vr.specs_valid
          (Purged-Free mgr.space bytes now c store i (apply store (purge_records mgr.space [] ys))
            req.specs p fs)
          (batch_conflict-none req.specs n) room in
      let s2 = apply (apply store (purge_records mgr.space [] ys)) (put_all mgr.space [] recs) in
      let same : apply store (
            put_all mgr.space (purge_records mgr.space [] ys) recs
            ++ put (counters_key mgr.space) (counters_encode c') ∷ [])
          ≡ apply s2 (put (counters_key mgr.space) (counters_encode c') ∷ []) =
        apply-append (put_all mgr.space (purge_records mgr.space [] ys) recs)
          (put (counters_key mgr.space) (counters_encode c') ∷ []) store
        ∙ ap (λ (s : MemoryStore). apply s (put (counters_key mgr.space) (counters_encode c') ∷ []))
            (ap (apply store) (put_all-split mgr.space (purge_records mgr.space [] ys) recs)
              ∙ apply-append (purge_records mgr.space [] ys) (put_all mgr.space [] recs) store) in
      (
        apply s2 (put (counters_key mgr.space) (counters_encode c') ∷ []),
        rw (counters-stored mgr.space store c i.stored i.id_fits i.high_water_fits, adv, same) refl,
        record {
          table = counters_write-IsTable mgr.space bytes s2 c' g.table;
          exclusive = λ a b ha hb.
              g.exclusive a b (counters_write-Held mgr.space bytes s2 c' a ha)
                (counters_write-Held mgr.space bytes s2 c' b hb);
          below = λ r h. g.below r (counters_write-Held mgr.space bytes s2 c' r h);
          stored = inl (counters_write-read mgr.space bytes s2 c');
          id_fits = room;
          high_water_fits = i.high_water_fits;
        },
        held s2 recs g.held,
        λ r h l. Held-counters_write mgr.space bytes s2 c' r (g.kept r (p.keep r h l)),
      )
    where
      held :
          (s2 : MemoryStore) (l : List LeaseRecord)
          → All (Held mgr.space s2) l
          → All
              (Held mgr.space (apply s2 (put (counters_key mgr.space) (counters_encode c') ∷ [])))
              l
      held s2 [] h = tt
      held s2 (r ∷ l) (h, hs) = (Held-counters_write mgr.space bytes s2 c' r h, held s2 l hs)

  worst_attained :
      (spec : LeaseSpec) (r : LeaseRecord) (rs : List LeaseRecord)
      → Blocks mgr.space store now spec r
      → All (Blocks mgr.space store now spec) rs
      → (w : LeaseRecord) × Blocks mgr.space store now spec w
        × (max_deadline r.deadline rs ≡ w.deadline)
  worst_attained spec r [] h hs = (r, h, refl)
  worst_attained spec r (x ∷ rs) h (hx, hs) = elim (worst r.deadline x.deadline) [
    | inl e ↦ rw e (worst_attained spec r rs h hs)
    | inr e ↦ rw e (worst_attained spec x rs hx hs)
  ]

  -- What follows a clear check, once the conflict inside the batch is known.
  on_batch :
      WriteBatch
      → Option Key
      → Option (LeaseManager × MemoryStore × Result KernelError (List Lease))
  on_batch purge none = grant mgr store now req purge
  on_batch purge (some p) = some (mgr, apply store purge, err (contended p none))

  acquire-clear :
      (purge : WriteBatch) (o : Option Key)
      → check_specs mgr.space store now req.specs [] ≡ some (clear purge)
      → batch_conflict req.specs ≡ o
      → acquire mgr store now req ≡ on_batch purge o
  unfolding acquire on_batch
  acquire-clear purge o e f = rw e (ap (on_batch purge) f)

  acquire-blocked :
      (purge : WriteBatch) (spec : LeaseSpec) (b : LeaseRecord) (bs : List LeaseRecord)
      → check_specs mgr.space store now req.specs [] ≡ some (blocked purge spec (b ∷ bs))
      → acquire mgr store now req
        ≡ some (
          record mgr { demand = add_demand mgr.demand (b ∷ bs) },
          apply store purge,
          err (contended spec.prefix (some (max_deadline b.deadline bs - now))),
        )
  unfolding acquire
  acquire-blocked purge spec b bs e =
      let m : max 0 b.deadline ≡ b.deadline = omega arith in rw e (rw m refl)

  pub acquire_lem : Grants mgr store now req c ⊎ Refuses mgr store now req c
  unfolding Describes on_batch
  acquire_lem =
      let (ys, h, result) =
        check_specs-start mgr.space bytes store i.table now req.specs vr.specs_valid in
      let p = purged mgr.space bytes now c store i ys h in
      let j =
        Purged-IsSpace mgr.space (Live now) now c store i
          (apply store (purge_records mgr.space [] ys)) p in
      elim result [
        | inl (e, fs) ↦ in_batch ys h p.keep j e fs (batch_conflict req.specs) refl
        | inr (spec, b, bs, e, blocks, n) ↦
            let (w, hw, ew) = worst_attained spec b bs blocks.0 blocks.1 in
            inr (
              record mgr { demand = add_demand mgr.demand (b ∷ bs) },
              apply store (purge_records mgr.space [] ys),
              contended spec.prefix (some (max_deadline b.deadline bs - now)),
              acquire-blocked (purge_records mgr.space [] ys) spec b bs e,
              inl (
                spec,
                w,
                (hw.0, hw.1, (conflicting_iff spec.prefix spec.mode w.prefix w.mode).0 hw.2),
                ap (λ (d : ℕ). contended spec.prefix (some (d - now))) ew,
                λ us. n ((Frees-Unblocked mgr.space store now req.specs).1 us),
              ),
              j,
              p.keep,
            )
      ]
    where
      in_batch :
          (ys : List LeaseRecord)
          → All (Expired mgr.space store now) ys
          → KeepsLive mgr.space now store (apply store (purge_records mgr.space [] ys))
          → IsSpace mgr.space (apply store (purge_records mgr.space [] ys)) now c
          → check_specs mgr.space store now req.specs []
            ≡ some (clear (purge_records mgr.space [] ys))
          → Frees mgr store now req c
          → (o : Option Key) → batch_conflict req.specs ≡ o
          → Grants mgr store now req c ⊎ Refuses mgr store now req c
      in_batch ys h keep j e fs none f =
          let (store', g, s, held, kept) = granted_case ys h fs f in
          inl (
            store',
            acquire-clear (purge_records mgr.space [] ys) none e f ∙ g,
            (Frees-Unblocked mgr.space store now req.specs).0 fs,
            (
              batch_conflict-Unrelated req.specs f,
              grant_records-Numbered req now c.admission_high_water c.next_lease_id req.specs
                  vr.specs_valid room,
            ),
            s,
            held,
            kept,
          )
      in_batch ys h keep j e fs (some p) f = inr (
        mgr,
        apply store (purge_records mgr.space [] ys),
        contended p none,
        acquire-clear (purge_records mgr.space [] ys) (some p) e f,
        inr (p, refl, batch_conflict-some p req.specs f),
        j,
        keep,
      )
