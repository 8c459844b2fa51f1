-- ===== src/Leases/Renew.antt =====
-- server/src/space/lease.rs: `renew` and its loop over the ids of a request.
pub mod Loop
pub mod Outcome
use homebase.Prelude.{
  ℕ, ◌≡◌, ◌<◌, ◌≤◌, ◌^◌, ◌==◌, refl, sym, subst, ap, ◌∙◌, Bool, true, false, not, ◌&&◌, List, [],
  ◌∷◌, ◌++◌, length, Option, none, some, All, inl, inr, ◌⊎◌, ◌≢◌, nat_ord, list_ord, Bool-cases,
  if◌then◌else◌, eq_of_==, ==_iff, arith,
}
use mathlib.Core.List.{Mem}
use homebase.Prelude.Bytes.{Bytes, IsByte}
use homebase.Clock.{Timestamp, saturating_add, u64_max}
use homebase.Key.{Key}
use homebase.Lease.{LeaseId, LeaseMode}
use homebase.Messages.{RenewRequest}
use homebase.Schema.{SpaceId, counters_key}
use homebase.Schema.LeaseRecord.{LeaseRecord, is_live}
use homebase.Storage.{MemoryStore, get, apply}
use homebase.Leases.{put_records, purge_records}
use homebase.Leases.Table.{IsRecord, IsTable, Held, Agrees}
use homebase.Leases.Table.Step.{
  put-IsTable, Held-put, Held-put_kept, Held-put_self, purge-IsTable, Held-purge, Held-purge_kept,
}
use homebase.Leases.Purge.{Held-unique, counters-put, counters-purge}
use homebase.Leases.Verbs.{renewed}

-- One lease, before and after a renewal.
pub record Same (a b : LeaseRecord) : Type 0 where
  pub id : a.id ≡ b.id
  pub prefix : a.prefix ≡ b.prefix
  pub mode : a.mode ≡ b.mode
  pub device : a.device ≡ b.device

pub Same-refl : (a : LeaseRecord) → Same a a
Same-refl a = record { id = refl; prefix = refl; mode = refl; device = refl }

-- What the types of a request to renew guarantee.
pub record IsRenewal (req : RenewRequest) : Type 0 where
  pub wall_fits : req.requested_at.wall < 256 ^ 8
  pub mono_fits : req.requested_at.mono < 256 ^ 8
  pub lineage_len : length req.requested_at.lineage ≡ 16
  pub ids_fit : All (λ id. id < 256 ^ 8) req.leases

-- The lease is live and the caller's: `renew` renews it.
abbrev pub Renewable : Timestamp → RenewRequest → LeaseRecord → Type 0
Renewable now req r = (is_live r now && r.device == req.device) ≡ true

-- The lease is one that the request names, live and the caller's.
abbrev pub IsNamed : Timestamp → RenewRequest → LeaseRecord → Type 0
IsNamed now req r = Renewable now req r × Mem r.id req.leases

-- The table `store` has come from `store0` by renewals and by purging expired records.
pub record Renewing (space : SpaceId) (now : Timestamp) (req : RenewRequest)
    (store0 store : MemoryStore) : Type 0 where
  pub table : IsTable space store
  pub from :
      (r : LeaseRecord)
      → Held space store r
      → (r0 : LeaseRecord) × Held space store0 r0
        × Same r r0
        × (is_live r now ≡ true → is_live r0 now ≡ true)
  pub keep :
      (r0 : LeaseRecord)
      → Held space store0 r0
      → is_live r0 now ≡ true
      → (r : LeaseRecord) × Held space store r
        × Same r r0
        × ((r ≡ r0) ⊎ (IsNamed now req r0 × (r ≡ renewed req now r0)))
  pub counters_same : get store (counters_key space) ≡ get store0 (counters_key space)

pub Renewing-refl :
    (space : SpaceId) (now : Timestamp) (req : RenewRequest) (store : MemoryStore)
    → IsTable space store
    → Renewing space now req store store
Renewing-refl space now req store t = record {
  table = t;
  from = λ r h. (r, h, Same-refl r, λ e. e);
  keep = λ r h l. (r, h, Same-refl r, inl refl);
  counters_same = refl;
}

module _ (space : SpaceId) (bytes : All IsByte space) (now : Timestamp) (req : RenewRequest)
    (store0 store : MemoryStore) (rec : LeaseRecord) (p : Renewing space now req store0 store)
    (held : Held space store0 rec) where
  -- A record of the later table with the id of `rec` has the same prefix.
  from_rec :
      (r : LeaseRecord)
      → Held space store r
      → r.id ≡ rec.id
      → Same r rec × (is_live r now ≡ true → is_live rec now ≡ true)
  from_rec r h e =
      let (r0, h0, s, l) = p.from r h in
      let same = Held-unique space store0 r0 rec h0 held (sym s.id ∙ e) in
      (subst (Same r) same s, λ live. ap (λ (x : LeaseRecord). is_live x now) (sym same) ∙ l live)

  module _ (now_fits : now < 256 ^ 8) (vr : IsRenewal req) (named : IsNamed now req rec) where
    live_rec : is_live rec now ≡ true
    live_rec = let own = named.0 in ground (arith, own)

    renewed-Same : Same (renewed req now rec) rec
    unfolding renewed
    renewed-Same = record { id = refl; prefix = refl; mode = refl; device = refl }

    renewed-IsRecord : IsRecord (renewed req now rec)
    unfolding renewed
    renewed-IsRecord = record {
      fields = record {
        id_fits = held.valid.fields.id_fits;
        prefix_valid = held.valid.fields.prefix_valid;
        device_len = held.valid.fields.device_len;
        wall_fits = vr.wall_fits;
        mono_fits = vr.mono_fits;
        lineage_len = vr.lineage_len;
        granted_fits = now_fits;
        barrier_fits = held.valid.fields.barrier_fits;
        deadline_fits = omega arith;
        ttl_fits = held.valid.fields.ttl_fits;
      };
      prefix_bytes = held.valid.prefix_bytes;
    }

    put-Agrees : Agrees space store (renewed req now rec)
    unfolding renewed
    put-Agrees r h e = (from_rec r h e).0.prefix

    pub Renewing-put :
        Renewing space now req store0 (apply store (put_records space [] (renewed req now rec)))
    unfolding renewed
    Renewing-put = record {
      table =
          put-IsTable space bytes store (renewed req now rec) renewed-IsRecord p.table put-Agrees;
      from = λ r h.
          elim (Held-put space bytes store (renewed req now rec) renewed-IsRecord p.table put-Agrees
            r h) [
              | inl e ↦ (
                rec,
                held,
                subst (λ (x : LeaseRecord). Same x rec) (sym e) renewed-Same,
                λ l. live_rec,
              )
              | inr (hr, d) ↦ p.from r hr
            ];
      keep = λ r0 h0 l0. elim (Bool-cases (r0.id == rec.id)) [
        | inl q ↦
            let same = Held-unique space store0 r0 rec h0 held (eq_of_== r0.id rec.id q) in
            (
              renewed req now rec,
              Held-put_self space bytes store (renewed req now rec) renewed-IsRecord p.table
                  put-Agrees,
              subst (Same (renewed req now rec)) (sym same) renewed-Same,
              inr (subst (IsNamed now req) (sym same) named, ap (renewed req now) (sym same)),
            )
        | inr q ↦
            let (r, h, s, w) = p.keep r0 h0 l0 in
            (
              r,
              Held-put_kept space bytes store (renewed req now rec) renewed-IsRecord p.table
                  put-Agrees r h (λ e. differ (r.id) r0.id rec.id s.id q e),
              s,
              w,
            )
      ];
      counters_same = counters-put space bytes store (renewed req now rec) ∙ p.counters_same;
    }
      where
        differ : (a b c : ℕ) → a ≡ b → (b == c) ≡ false → a ≢ c
        differ a b c e q f = ground (arith, e, q, f)

    pub renewed-Held :
        Held space (apply store (put_records space [] (renewed req now rec))) (renewed req now rec)
    renewed-Held =
        Held-put_self space bytes store (renewed req now rec) renewed-IsRecord p.table put-Agrees

    -- What has been renewed before stays so.
    pub renewed-put :
        (r0 : LeaseRecord)
        → Held space store0 r0
        → Held space store (renewed req now r0)
        → Held space (apply store (put_records space [] (renewed req now rec))) (renewed req now r0)
    unfolding renewed
    renewed-put r0 h0 h = elim (Bool-cases (r0.id == rec.id)) [
      | inl q ↦
          let same = Held-unique space store0 r0 rec h0 held (eq_of_== r0.id rec.id q) in
          subst
            (λ (x : LeaseRecord).
              Held space (apply store (put_records space [] (renewed req now rec)))
                (renewed req now x))
            (sym same)
            (Held-put_self space bytes store (renewed req now rec) renewed-IsRecord p.table
              put-Agrees)
      | inr q ↦
          Held-put_kept space bytes store (renewed req now rec) renewed-IsRecord p.table put-Agrees
            (renewed req now r0) h (λ e. cc (sym q ∙ (==_iff r0.id rec.id).1 e))
    ]

  module _ (dead : is_live rec now ≡ false) where
    purge-Agrees : Agrees space store rec
    purge-Agrees r h e = (from_rec r h e).0.prefix

    -- A record with another's id is not live where that one has expired.
    live_differs :
        (r0 : LeaseRecord) → Held space store0 r0 → is_live r0 now ≡ true → r0.id ≢ rec.id
    live_differs r0 h0 l e =
        let same = Held-unique space store0 r0 rec h0 held e in
        let dead' = ap (λ (x : LeaseRecord). is_live x now) same in cc (sym l ∙ dead' ∙ dead)

    pub Renewing-purge :
        Renewing space now req store0 (apply store (purge_records space [] (rec ∷ [])))
    Renewing-purge = record {
      table = purge-IsTable space bytes store rec held.valid p.table purge-Agrees;
      from =
          λ r h. p.from r (Held-purge space bytes store rec held.valid p.table purge-Agrees r h).0;
      keep = λ r0 h0 l0.
          let (r, h, s, w) = p.keep r0 h0 l0 in
          (
            r,
            Held-purge_kept space bytes store rec held.valid p.table purge-Agrees r h
                (λ e. live_differs r0 h0 l0 (sym s.id ∙ e)),
            s,
            w,
          );
      counters_same = counters-purge space bytes store rec ∙ p.counters_same;
    }

    pub renewed-purge :
        (r0 : LeaseRecord)
        → Held space store0 r0
        → is_live r0 now ≡ true
        → Held space store (renewed req now r0)
        → Held space (apply store (purge_records space [] (rec ∷ []))) (renewed req now r0)
    unfolding renewed
    renewed-purge r0 h0 l h =
        Held-purge_kept space bytes store rec held.valid p.table purge-Agrees (renewed req now r0) h
          (live_differs r0 h0 l)
