-- ===== src/Leases/Renew/Outcome.antt =====
-- server/src/space/lease.rs: the whole of `renew`.
use homebase.Prelude.{
  ℕ, ◌≡◌, ◌<◌, ◌+◌, ◌^◌, ◌==◌, refl, sym, subst, ap, ◌∙◌, true, false, ◌&&◌, List, [], ◌∷◌, ◌++◌,
  ◌⊎◌, length, length-append, Option, some, ok, All, All-append, inl, inr, nat_ord, list_ord,
  Bool-cases, if◌then◌else◌, arith,
}
use mathlib.Core.List.{Mem}
use homebase.Prelude.Bytes.{IsByte}
use homebase.Clock.{Timestamp}
use homebase.Lease.{LeaseId}
use homebase.Messages.{RenewRequest, RenewGrant, RenewResponse}
use homebase.Schema.Keys.{id_key-injective}
use homebase.Schema.LeaseRecord.{LeaseRecord, CountersRecord, is_live}
use homebase.Storage.{MemoryStore, WriteBatch, apply}
use homebase.Leases.{LeaseManager, put_records, purge_records}
use homebase.Leases.Table.{IsTable, Held}
use homebase.Leases.Exclusion.{IsSpace}
use homebase.Leases.Release.{find_by_id_lem, find_by_id-Held}
use homebase.Leases.Renew.{
  IsRenewal, IsNamed, Same, Renewing, Renewing-refl, Renewing-put, renewed-put, renewed-Held,
  Renewing-purge, renewed-purge,
}
use homebase.Leases.Verbs.{renewed, renew_loop, renew, contains}
use homebase.Leases.Renew.Loop.{
  put_records-apply, purge_records-apply, Granted, Invalid, Keeps, on_found, renew_loop-missing,
  renew_loop-found, named_ids, IsRenewed, renewed-IsRenewed,
}

module _ (mgr : LeaseManager) (store : MemoryStore) (now : Timestamp) (req : RenewRequest)
    (bytes : All IsByte mgr.space) (t : IsTable mgr.space store) (now_fits : now < 256 ^ 8)
    (vr : IsRenewal req) where
  -- What the loop has established once it has a batch that leaves `s`, and the two lists.
  record Done (n : ℕ) (s : MemoryStore) (granted : List RenewGrant) (invalid : List LeaseId)
      : Type 0 where
    renewing : Renewing mgr.space now req store s
    grants : All (Granted mgr.space now req store s) granted
    invalids : All (Invalid mgr.space now req store) invalid
    counted : length granted + length invalid ≡ n

  grants_later :
      (s s' : MemoryStore) (granted : List RenewGrant)
      → ((r0 : LeaseRecord)
          → Held mgr.space store r0
          → is_live r0 now ≡ true
          → Held mgr.space s (renewed req now r0)
          → Held mgr.space s' (renewed req now r0))
      → All (Granted mgr.space now req store s) granted
      → All (Granted mgr.space now req store s') granted
  grants_later s s' [] f h = tt
  grants_later s s' (g ∷ gs) f ((r0, h0, named, e, x, h), hs) =
      let own = named.0 in
      ((r0, h0, named, e, x, f r0 h0 (ground (arith, own)) h), grants_later s s' gs f hs)

  module _ (n : ℕ) (s : MemoryStore) (granted : List RenewGrant) (invalid : List LeaseId)
      (d : Done n s granted invalid) where
    Done-invalid :
        (id : LeaseId)
        → Invalid mgr.space now req store id
        → Done (n + 1) s granted (invalid ++ id ∷ [])
    Done-invalid id i = record {
      renewing = d.renewing;
      grants = d.grants;
      invalids = All-append (Invalid mgr.space now req store) invalid (id ∷ []) d.invalids (i, tt);
      counted = omega (arith, d.counted, length-append invalid (id ∷ []));
    }

    Done-put :
        (g : RenewGrant) (rec : LeaseRecord)
        → Held mgr.space store rec
        → IsNamed now req rec
        → (rec.id ≡ g.id) × (g.granted_at ≡ now) × (g.ttl ≡ rec.ttl)
        → Done
            (n + 1)
            (apply s (put_records mgr.space [] (renewed req now rec)))
            (granted ++ g ∷ [])
            invalid
    Done-put g rec held named e =
        let ttl_fits = held.valid.fields.ttl_fits in
        record {
          renewing =
              Renewing-put mgr.space bytes now req store s rec d.renewing held now_fits vr named;
          grants =
              All-append
                (Granted mgr.space now req store
                  (apply s (put_records mgr.space [] (renewed req now rec))))
                granted (g ∷ [])
                (grants_later s (apply s (put_records mgr.space [] (renewed req now rec))) granted
                  (λ r0 h0 l.
                    renewed-put mgr.space bytes now req store s rec d.renewing held now_fits vr
                      named r0 h0)
                  d.grants)
                (
                  (
                    rec,
                    held,
                    named,
                    e,
                    renewed-IsRenewed now req rec (omega (arith, ttl_fits)),
                    renewed-Held mgr.space bytes now req store s rec d.renewing held now_fits vr
                        named,
                  ),
                  tt,
                );
          invalids = d.invalids;
          counted = omega (arith, d.counted, length-append granted (g ∷ []));
        }

    Done-purge :
        (rec : LeaseRecord)
        → Held mgr.space store rec
        → is_live rec now ≡ false
        → Done n (apply s (purge_records mgr.space [] (rec ∷ []))) granted invalid
    Done-purge rec held dead = record {
      renewing = Renewing-purge mgr.space bytes now req store s rec d.renewing held dead;
      grants =
          grants_later s (apply s (purge_records mgr.space [] (rec ∷ []))) granted
            (λ r0 h0 l.
              renewed-purge mgr.space bytes now req store s rec d.renewing held dead r0 h0 l)
            d.grants;
      invalids = d.invalids;
      counted = d.counted;
    }

  Done-unowned :
      (n : ℕ) (batch : WriteBatch) (granted : List RenewGrant) (invalid : List LeaseId)
      (r : LeaseRecord)
      → Held mgr.space store r
      → Done n (apply store batch) granted invalid
      → Done n
          (apply store (if is_live r now then batch else purge_records mgr.space batch (r ∷ [])))
          granted
          invalid
  Done-unowned n batch granted invalid r held d = elim (Bool-cases (is_live r now)) [
    | inl q ↦ rw q d
    | inr q ↦
        rw (q, purge_records-apply mgr.space batch r store)
          (Done-purge n (apply store batch) granted invalid d r held q)
  ]

  -- How the loop ends, from `n` ids on.
  abbrev Ends : ℕ → Option (WriteBatch × RenewResponse) → Type 0
  Ends n result =
      (batch : WriteBatch) × (response : RenewResponse) × (result ≡ some (batch, response))
      × Done n (apply store batch) response.granted response.invalid

  renew_loop_lem :
      (ids : List LeaseId) (n : ℕ) (batch : WriteBatch) (granted : List RenewGrant)
      (invalid : List LeaseId)
      → All (λ id. id < 256 ^ 8) ids
      → All (λ id. Mem id req.leases) ids
      → Done n (apply store batch) granted invalid
      → Ends (n + length ids) (renew_loop mgr store now req ids batch granted invalid)
  unfolding on_found
  renew_loop_lem [] n batch granted invalid f ms d =
      let e : n ≡ n + 0 = omega arith in
      (
        batch,
        record { granted = granted; invalid = invalid },
        unfold renew_loop in refl,
        subst (λ (k : ℕ). Done k (apply store batch) granted invalid) e d,
      )
  renew_loop_lem (id ∷ ids) n batch granted invalid (f, fs) (m, ms) d =
      let later : (b : WriteBatch) (g : List RenewGrant) (i : List LeaseId)
          → Done (n + 1) (apply store b) g i
          → Ends (n + length (id ∷ ids)) (renew_loop mgr store now req ids b g i) =
        λ b g i d'.
          subst (λ (k : ℕ). Ends k (renew_loop mgr store now req ids b g i)) (omega arith)
            (renew_loop_lem ids (n + 1) b g i fs ms d') in
      elim (find_by_id_lem mgr.space store t id) [
        | inl e ↦
            let (b, response, f', d') = later batch granted (invalid ++ id ∷ []) (
              Done-invalid n (apply store batch) granted invalid d id
                (λ r h q own. cc (sym e ∙ find_by_id-Held mgr.space store id r h q))) in
            (
              b,
              response,
              renew_loop-missing mgr store now req id ids batch granted invalid e ∙ f',
              d',
            )
        | inr (r, e, held, ke) ↦ elim (Bool-cases (is_live r now && r.device == req.device)) [
          | inl q ↦
              let g : RenewGrant = record {
                id = id;
                granted_at = now;
                ttl = r.ttl;
                contended = contains mgr.demand id;
              } in
              let same : r.id ≡ id =
                sym (id_key-injective mgr.space id r.id f held.valid.fields.id_fits ke) in
              let (b, response, f', d') =
                later (put_records mgr.space batch (renewed req now r)) (granted ++ g ∷ []) invalid
                  (subst (λ (s : MemoryStore). Done (n + 1) s (granted ++ g ∷ []) invalid)
                    (sym (put_records-apply mgr.space batch (renewed req now r) store))
                    (Done-put n (apply store batch) granted invalid d g r held
                      (q, subst (λ (x : ℕ). Mem x req.leases) (sym same) m) (same, refl, refl))) in
              (
                b,
                response,
                renew_loop-found mgr store now req id ids batch granted invalid r true e q ∙ f',
                d',
              )
          | inr q ↦
              let i : Invalid mgr.space now req store id = λ r' h' q' own.
                let same : some (some r') ≡ some (some r) =
                  sym (find_by_id-Held mgr.space store id r' h' q') ∙ e in
                let same' : r' ≡ r = cc same in
                cc (
                  sym own
                  ∙ ap (λ (x : LeaseRecord). is_live x now && x.device == req.device) same'
                  ∙ q) in
              let after = if is_live r now then batch else purge_records mgr.space batch (r ∷ []) in
              let (b, response, f', d') = later after granted (invalid ++ id ∷ []) (
                Done-invalid n (apply store after) granted invalid
                  (Done-unowned n batch granted invalid r held d) id i) in
              (
                b,
                response,
                renew_loop-found mgr store now req id ids batch granted invalid r false e q ∙ f',
                d',
              )
        ]
      ]

  -- The answer of `renew`, and what it leaves.
  abbrev Renews : RenewResponse → MemoryStore → Type 0
  Renews response store' = Done (length req.leases) store' response.granted response.invalid

  renew_done :
      (response : RenewResponse) × (store' : MemoryStore) × (renew mgr store now req
        ≡ some (mgr, store', ok response))
      × Renews response store'
  unfolding renew
  renew_done =
      let (b, response, e, d) =
        renew_loop_lem req.leases 0 [] [] [] vr.ids_fit (named_ids req.leases) (
          unfold apply in
          record {
            renewing = Renewing-refl mgr.space now req store t;
            grants = tt;
            invalids = tt;
            counted = refl;
          }) in
      (
        response,
        apply store b,
        rw e refl,
        subst (λ (k : ℕ). Done k (apply store b) response.granted response.invalid) (omega arith) d,
      )

  Renewing-IsSpace :
      (c : CountersRecord) (store' : MemoryStore)
      → IsSpace mgr.space store now c
      → Renewing mgr.space now req store store'
      → IsSpace mgr.space store' now c
  Renewing-IsSpace c store' i p = record {
    table = p.table;
    exclusive = λ a b ha hb la lb d.
        let (a0, ha0, sa, la0) = p.from a ha in
        let (b0, hb0, sb, lb0) = p.from b hb in
        rw (sa.prefix, sa.mode, sb.prefix, sb.mode)
          (i.exclusive a0 b0 ha0 hb0 (la0 la) (lb0 lb) (λ e. d (sa.id ∙ e ∙ sym sb.id)));
    below = λ r h. let (r0, h0, s, l) = p.from r h in omega (arith, i.below r0 h0, s.id);
    stored = elim i.stored [
      | inl e ↦ inl (p.counters_same ∙ e)
      | inr (e, y, z) ↦ inr (p.counters_same ∙ e, y, z)
    ];
    id_fits = i.id_fits;
    high_water_fits = i.high_water_fits;
  }

-- The renewal goes through: every id is answered, what is granted is renewed in the table, what is
-- invalid was not the caller's live lease, and no live lease is lost.
abbrev pub RenewsAll :
    LeaseManager → MemoryStore → Timestamp → RenewRequest → CountersRecord → Type 0
RenewsAll mgr store now req c =
    (response : RenewResponse) × (store' : MemoryStore) × (renew mgr store now req
      ≡ some (mgr, store', ok response))
    × IsSpace mgr.space store' now c
    × All (Granted mgr.space now req store store') response.granted
    × All (Invalid mgr.space now req store) response.invalid
    × (length response.granted + length response.invalid ≡ length req.leases)
    × Keeps mgr.space now req store store'

-- On a space of a byte id whose invariant holds, for a well-formed request at a 64-bit time,
-- `renew` never panics and answers ok. The invariant holds afterwards, so renewing admits no
-- conflict, and there are as many answers as ids. Each grant is of a live lease of the caller that
-- the request names; the table holds it with the deadline `now + ttl`, within 64 bits, stamped with
-- the time and the request, and otherwise unchanged. No live lease of the caller has an id that is
-- told invalid. Every live lease is still in the table: as it was, or renewed in that way, and only
-- the caller's own that the request names are.
pub renew_lem :
    (mgr : LeaseManager) (store : MemoryStore) (now : Timestamp) (req : RenewRequest)
    (c : CountersRecord)
    → All IsByte mgr.space
    → IsSpace mgr.space store now c
    → now < 256 ^ 8
    → IsRenewal req
    → RenewsAll mgr store now req c
renew_lem mgr store now req c bytes i now_fits vr =
    let (response, store', e, d) = renew_done mgr store now req bytes i.table now_fits vr in
    (
      response,
      store',
      e,
      Renewing-IsSpace mgr store now req bytes i.table now_fits vr c store' i d.renewing,
      d.grants,
      d.invalids,
      d.counted,
      kept d.renewing.keep,
    )
  where
    kept :
        {store' : MemoryStore}
        → ((r0 : LeaseRecord)
            → Held mgr.space store r0
            → is_live r0 now ≡ true
            → (r : LeaseRecord) × Held mgr.space store' r
              × Same r r0
              × ((r ≡ r0) ⊎ (IsNamed now req r0 × (r ≡ renewed req now r0))))
        → Keeps mgr.space now req store store'
    kept keep r0 h0 l0 =
        let (r, h, s, why) = keep r0 h0 l0 in
        let ttl_fits = h0.valid.fields.ttl_fits in
        (
          r,
          h,
          elim why [
            | inl e ↦ inl e
            | inr (n, e) ↦ inr (
              n,
              subst (IsRenewed now req r0) (sym e)
                  (renewed-IsRenewed now req r0 (omega (arith, ttl_fits))),
            )
          ],
        )
