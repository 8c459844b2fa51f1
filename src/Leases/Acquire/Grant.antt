-- ===== src/Leases/Acquire/Grant.antt =====
-- The grant of a batch of specs by `acquire`, one record after the other.
use homebase.Prelude.{
  ◌+◌, ◌<◌, ◌≤◌, ◌≡◌, ◌^◌, refl, sym, ap, ◌∙◌, subst, false, List, [], ◌∷◌, ◌++◌, length, Option,
  none, some, All, append_assoc, append-nil, arith, Bool-cases, inl, inr, ◌⊎◌, ◌≢◌, nat_ord,
  list_ord,
}
use homebase.Prelude.Bytes.{IsByte}
use homebase.Clock.{Timestamp}
use homebase.Key.{Key}
use homebase.Lease.{LeaseMode, LeaseId}
use homebase.Messages.{LeaseSpec, AcquireRequest}
use homebase.Schema.{SpaceId, counters_key}
use homebase.Schema.LeaseRecord.{LeaseRecord}
use homebase.Storage.{MemoryStore, WriteBatch, apply, get}
use homebase.Tag.{AdmissionSeq}
use homebase.Leases.{put_records}
use homebase.Leases.Table.{IsRecord, IsTable, Held, Agrees}
use homebase.Leases.Table.Step.{put-IsTable, Held-put, Held-put_kept, Held-put_self}
use homebase.Leases.Purge.{apply-append, counters-put}
use homebase.Leases.Exclusion.{Free, Exclusive, IdsBelow, IsSpec, IsRequest, conflicting_comm}
use homebase.Leases.Verbs.{
  conflicting, conflict_behind, batch_conflict, grant_record, grant_records, next_id, advance_id,
  put_all,
}

conflict_behind-none :
    (a : LeaseSpec) (bs : List LeaseSpec)
    → conflict_behind a bs ≡ none
    → All (λ b. conflicting a.prefix a.mode b.prefix b.mode ≡ false) bs
unfolding conflict_behind
conflict_behind-none a [] e = tt
conflict_behind-none a (b ∷ bs) e =
    elim (Bool-cases (conflicting a.prefix a.mode b.prefix b.mode)) [
      | inl q ↦ cc (rw q at e)
      | inr q ↦ (q, conflict_behind-none a bs (rw q at e))
    ]

-- No two specs of the batch conflict.
unfoldable pub PairwiseFree : List LeaseSpec → Type 0
PairwiseFree [] = Unit
PairwiseFree (a ∷ rest) =
    All (λ b. conflicting a.prefix a.mode b.prefix b.mode ≡ false) rest × PairwiseFree rest

pub batch_conflict-none :
    (specs : List LeaseSpec) → batch_conflict specs ≡ none → PairwiseFree specs
unfolding batch_conflict PairwiseFree
batch_conflict-none [] e = tt
batch_conflict-none (a ∷ rest) e = behind (batch_conflict-none rest) (conflict_behind a rest) refl e
  where
    behind :
        (batch_conflict rest ≡ none → PairwiseFree rest)
        → (o : Option Key) → conflict_behind a rest ≡ o
        → elim o [ some p ↦ some p | none ↦ batch_conflict rest ] ≡ none
        → All (λ b. conflicting a.prefix a.mode b.prefix b.mode ≡ false) rest × PairwiseFree rest
    behind next none f e = (conflict_behind-none a rest f, next e)
    behind next (some p) f e = cc e

put_one : SpaceId → LeaseRecord → WriteBatch
put_one space rec = put_records space [] rec

pub put_all-split :
    (space : SpaceId) (batch : WriteBatch) (recs : List LeaseRecord)
    → put_all space batch recs ≡ batch ++ put_all space [] recs
unfolding put_all put_one put_records
put_all-split space batch [] = sym (append-nil batch)
put_all-split space batch (r ∷ recs) =
    put_all-split space (batch ++ put_one space r) recs
    ∙ append_assoc batch (put_one space r) (put_all space [] recs)
    ∙ ap (λ (x : WriteBatch). batch ++ x) (sym (put_all-split space (put_one space r) recs))

apply-put_all :
    (space : SpaceId) (r : LeaseRecord) (recs : List LeaseRecord) (store : MemoryStore)
    → apply (apply store (put_records space [] r)) (put_all space [] recs)
      ≡ apply store (put_all space [] (r ∷ recs))
unfolding put_all
apply-put_all space r recs store =
    sym (apply-append (put_records space [] r) (put_all space [] recs) store)
    ∙ ap (apply store) (sym (put_all-split space (put_records space [] r) recs))

-- The table after a batch is granted the ids from `id` to `next`.
pub record Granted (space : SpaceId) (now : Timestamp) (store0 store : MemoryStore)
    (id next : LeaseId) (recs : List LeaseRecord) : Type 0 where
  pub table : IsTable space store
  pub exclusive : Exclusive space store now
  pub below : IdsBelow space store next
  pub held : All (Held space store) recs
  pub kept : (r : LeaseRecord) → Held space store0 r → Held space store r
  pub fresh : (r : LeaseRecord) → Held space store r → Held space store0 r ⊎ (id ≤ r.id)
  pub counters_same : get store (counters_key space) ≡ get store0 (counters_key space)

Granted-trans :
    {space : SpaceId} {now : Timestamp} {s0 s1 s2 : MemoryStore} {id next : LeaseId}
    {rec : LeaseRecord} {recs : List LeaseRecord}
    → Granted space now s0 s1 id (id + 1) (rec ∷ [])
    → Granted space now s1 s2 (id + 1) next recs
    → Granted space now s0 s2 id next (rec ∷ recs)
Granted-trans g h = record {
  table = h.table;
  exclusive = h.exclusive;
  below = h.below;
  held = (h.kept _ g.held.0, h.held);
  kept = λ r k. h.kept r (g.kept r k);
  fresh = λ r k. elim (h.fresh r k) [ inl k1 ↦ g.fresh r k1 | inr l ↦ inr (omega (arith, l)) ];
  counters_same = h.counters_same ∙ g.counters_same;
}

module _ (space : SpaceId) (bytes : All IsByte space) (now : Timestamp) (store : MemoryStore)
    (rec : LeaseRecord) (v : IsRecord rec) (t : IsTable space store)
    (b : IdsBelow space store rec.id) where
  unused : (r : LeaseRecord) → Held space store r → r.id ≢ rec.id
  unused r h e = omega (arith, b r h, e)

  agrees : Agrees space store rec
  agrees r h e = absurd (unused r h e)

  Free-put :
      (p : Key) (m : LeaseMode)
      → Free space store now p m
      → conflicting p m rec.prefix rec.mode ≡ false
      → Free space (apply store (put_records space [] rec)) now p m
  Free-put p m f n r h l = elim (Held-put space bytes store rec v t agrees r h) [
    | inl e ↦ subst (λ (r : LeaseRecord). conflicting p m r.prefix r.mode ≡ false) (sym e) n
    | inr (hr, d) ↦ f r hr l
  ]

  Frees-put :
      (specs : List LeaseSpec)
      → All (λ s. Free space store now s.prefix s.mode) specs
      → All (λ s. conflicting rec.prefix rec.mode s.prefix s.mode ≡ false) specs
      → All (λ s. Free space (apply store (put_records space [] rec)) now s.prefix s.mode) specs
  Frees-put [] fs ps = tt
  Frees-put (s ∷ specs) (f, fs) (p, ps) = (
    Free-put s.prefix s.mode f (conflicting_comm s.prefix s.mode rec.prefix rec.mode ∙ p),
    Frees-put specs fs ps,
  )

  put_step :
      Exclusive space store now
      → Free space store now rec.prefix rec.mode
      → Granted space now store
          (apply store (put_records space [] rec))
          rec.id
          (rec.id + 1)
          (rec ∷ [])
  put_step x f = record {
    table = put-IsTable space bytes store rec v t agrees;
    exclusive = λ a c ha hc la lc d. elim (Held-put space bytes store rec v t agrees a ha) [
      | inl ea ↦ elim (Held-put space bytes store rec v t agrees c hc) [
        | inl ec ↦ absurd (d (ap (λ (r : LeaseRecord). r.id) (ea ∙ sym ec)))
        | inr (kc, dc) ↦
            subst (λ (r : LeaseRecord). conflicting r.prefix r.mode c.prefix c.mode ≡ false)
              (sym ea) (f c kc lc)
      ]
      | inr (ka, da) ↦ elim (Held-put space bytes store rec v t agrees c hc) [
        | inl ec ↦
            subst (λ (r : LeaseRecord). conflicting a.prefix a.mode r.prefix r.mode ≡ false)
              (sym ec) (conflicting_comm a.prefix a.mode rec.prefix rec.mode ∙ f a ka la)
        | inr (kc, dc) ↦ x a c ka kc la lc d
      ]
    ];
    below = λ r h. elim (Held-put space bytes store rec v t agrees r h) [
      | inl e ↦ subst (λ (r : LeaseRecord). r.id < rec.id + 1) (sym e) (omega arith)
      | inr (hr, d) ↦ omega (arith, b r hr)
    ];
    held = (Held-put_self space bytes store rec v t agrees, tt);
    kept = λ r h. Held-put_kept space bytes store rec v t agrees r h (unused r h);
    fresh = λ r h. elim (Held-put space bytes store rec v t agrees r h) [
      | inl e ↦ inr (subst (λ (r : LeaseRecord). rec.id ≤ r.id) (sym e) (omega arith))
      | inr (hr, d) ↦ inl hr
    ];
    counters_same = counters-put space bytes store rec;
  }

module _ (space : SpaceId) (bytes : All IsByte space) (now : Timestamp) (req : AcquireRequest)
    (barrier : AdmissionSeq) (now_fits : now < 256 ^ 8) (barrier_fits : barrier < 256 ^ 8)
    (vr : IsRequest req) where
  grant_record-IsRecord :
      (id : LeaseId) (spec : LeaseSpec)
      → id < 256 ^ 8
      → IsSpec spec
      → IsRecord (grant_record req.device req.requested_at now barrier id spec)
  unfolding grant_record
  grant_record-IsRecord id spec h v = record {
    fields = record {
      id_fits = h;
      prefix_valid = v.prefix_valid;
      device_len = vr.device_len;
      wall_fits = vr.wall_fits;
      mono_fits = vr.mono_fits;
      lineage_len = vr.lineage_len;
      granted_fits = now_fits;
      barrier_fits = barrier_fits;
      deadline_fits = omega arith;
      ttl_fits = v.ttl_fits;
    };
    prefix_bytes = v.prefix_bytes;
  }

  pub grant_loop :
      (specs : List LeaseSpec) (id : LeaseId) (store : MemoryStore)
      → IsTable space store
      → Exclusive space store now
      → IdsBelow space store id
      → All IsSpec specs
      → All (λ spec. Free space store now spec.prefix spec.mode) specs
      → PairwiseFree specs
      → id + length specs < 256 ^ 8
      → Granted space now store
          (apply store (put_all space [] (grant_records req now barrier id specs)))
          id
          (id + length specs)
          (grant_records req now barrier id specs)
        × (advance_id id specs ≡ id + length specs)
  unfolding grant_records PairwiseFree grant_record
  grant_loop [] id store t x b v f p h = (
    unfold put_all apply in
        record {
          table = t;
          exclusive = x;
          below = λ r hr. omega (arith, b r hr);
          held = tt;
          kept = λ r hr. hr;
          fresh = λ r hr. inl hr;
          counters_same = refl;
        },
    omega arith,
  )
  grant_loop (spec ∷ specs) id store t x b (v, vs) (f, fs) (p, ps) h =
      let rec = grant_record req.device req.requested_at now barrier id spec in
      let vrec = grant_record-IsRecord id spec (omega arith) v in
      let g = put_step space bytes now store rec vrec t b x f in
      let (gs, adv) =
        grant_loop specs (id + 1) (apply store (put_records space [] rec)) g.table g.exclusive
          g.below vs (Frees-put space bytes now store rec vrec t b specs fs p) ps (omega arith) in
      let j = Granted-trans g gs in
      let n : next_id id ≡ id + 1 = omega arith in
      let e : (id + 1) + length specs ≡ id + length (spec ∷ specs) = omega arith in
      (
        rw (n, ← e, ← apply-put_all space rec (grant_records req now barrier (id + 1) specs) store)
            j,
        rw n (adv ∙ e),
      )
