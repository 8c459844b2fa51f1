-- ===== src/Space/Runs.antt =====
-- Runs of a space: calls of its verbs in any order, and time that passes between them.
use homebase.Prelude.{
  ◌+◌, ◌≤◌, ◌<◌, ◌^◌, ◌≡◌, refl, sym, ap, subst, ◌∙◌, length, Option, none, some, Result, ok, err,
  All, arith, inl, inr,
}
use homebase.Prelude.Bytes.{Bytes, IsByte}
use homebase.Clock.{Timestamp}
use homebase.Messages.{AdmissionRequest, AdmissionResponse, AcquireRequest, KernelError}
use homebase.Schema.{SpaceId}
use homebase.Schema.LeaseRecord.{CountersRecord}
use homebase.Schema.Records.{DeviceRecord}
use homebase.Storage.{MemoryStore}
use homebase.Leases.{LeaseManager, counters}
use homebase.Leases.Table.Counters.{counters-stored}
use homebase.Leases.Exclusion.{IsSpace, IsRequest}
use homebase.Leases.Verbs.{acquire}
use homebase.Leases.Acquire.Outcome.{acquire_lem}
use homebase.Leases.Acquire.Safety.{IsSpace-later}
use homebase.Leases.Renew.{IsRenewal}
use homebase.Leases.Renew.Outcome.{renew_lem}
use homebase.Leases.Release.{release_lem}
use homebase.Leases.Listing.{list_leases_lem}
use homebase.Data.Admit.{admit}
use homebase.Data.Log.{pull}
use homebase.Data.Read.{get_keys, list_entries, read_at}
use homebase.Data.Footprint.Batch.{ByteBatch}
use homebase.Data.Outcome.{Outcome, advanced, admit_lem, admit-device_at}
use homebase.Space.{
  Space, Call, Reply, reply_leases, reply_renew, reply_release, reply_admit, reply_pull, reply_get,
  reply_list, reply_read_at, call_acquire, call_renew, call_release, call_list_leases, call_admit,
  call_pull, call_get, call_list, call_read_at, leased, admitted, reading, manager, serve,
}

-- A space, its store, and the time.
pub record World : Type 0 where
  pub space : Space
  pub store : MemoryStore
  pub now : Timestamp

-- What the types of a call guarantee, and that its numbers fit 64 bits.
abbrev pub Fits : World → Call → Type 0
Fits w (call_acquire req) =
    IsRequest req
    × (w.now < 256 ^ 8)
    × ((c : CountersRecord)
        → counters w.space.id w.store ≡ some c
        → c.next_lease_id + length req.specs < 256 ^ 8)
Fits w (call_renew req) = IsRenewal req × (w.now < 256 ^ 8)
Fits w (call_admit req) =
    All IsByte req.device
    × All ByteBatch req.batches
    × ((c : CountersRecord)
        → counters w.space.id w.store ≡ some c
        → c.admission_high_water + length req.batches + 1 < 2 ^ 64)
Fits w (call_release req) = Unit
Fits w (call_list_leases req) = Unit
Fits w (call_pull req) = Unit
Fits w (call_get req) = Unit
Fits w (call_list req) = Unit
Fits w (call_read_at req) = Unit

-- The worlds that a world can come to, under any hash.
pub data Run (sha256 : Bytes → Bytes) (w : World) : World → Type 0 where
  start : Run sha256 w w
  later :
      (v : World) (now : Timestamp)
      → Run sha256 w v
      → v.now ≤ now
      → Run sha256 w (record v { now = now })
  called :
      (v : World) (call : Call) (space : Space) (store : MemoryStore) (reply : Reply)
      → Run sha256 w v
      → Fits v call
      → serve sha256 v.space v.store v.now call ≡ some (space, store, reply)
      → Run sha256 w (record { space = space; store = store; now = v.now })

-- The invariant of the leases holds, for counters that have not gone back.
abbrev pub Kept : SpaceId → MemoryStore → Timestamp → CountersRecord → Type 0
Kept id store now c =
    (d : CountersRecord) × IsSpace id store now d
    × (c.next_lease_id ≤ d.next_lease_id)
    × (c.admission_high_water ≤ d.admission_high_water)

Kept-refl :
    (id : SpaceId) (store : MemoryStore) (now : Timestamp) (c : CountersRecord)
    → IsSpace id store now c
    → Kept id store now c
Kept-refl id store now c i = (c, i, omega arith, omega arith)

-- What a call leaves: the same space id, and the invariant.
abbrev After : Space → Timestamp → CountersRecord → Space × MemoryStore × Reply → Type 0
After s now c (s', store, reply) = (s'.id ≡ s.id) × Kept s.id store now c

-- The value of a call that does not panic.
unwrapped :
    {A : Type 0} (P : A → Type 0) (step : Option A) (found value : A)
    → step ≡ some found
    → P found
    → step ≡ some value
    → P value
unwrapped P step found value e h f = let same : found ≡ value = cc in subst P same h

module _ (sha256 : Bytes → Bytes) (s : Space) (store : MemoryStore) (now : Timestamp)
    (c : CountersRecord) (bytes : All IsByte s.id) (i : IsSpace s.id store now c) where
  stored : counters s.id store ≡ some c
  stored = counters-stored s.id store c i.stored i.id_fits i.high_water_fits

  leased-After :
      {A : Type 0} (reply : Result KernelError A → Reply) (mgr : LeaseManager)
      (store' : MemoryStore) (answer : Result KernelError A) (d : CountersRecord)
      → IsSpace s.id store' now d
      → c.next_lease_id ≤ d.next_lease_id
      → c.admission_high_water ≤ d.admission_high_water
      → After s now c (record s { demand = mgr.demand }, store', reply answer)
  leased-After reply mgr store' answer d j h k = (refl, (d, j, h, k))

  reading-After :
      {A : Type 0} (reply : A → Reply) (answer : Option A) (result : Space × MemoryStore × Reply)
      → reading s store reply answer ≡ some result
      → After s now c result
  reading-After reply none result e = cc
  reading-After reply (some answer) result e =
      unwrapped (After s now c) (some (s, store, reply answer)) (s, store, reply answer) result refl
        (refl, Kept-refl s.id store now c i) e

  acquire-After :
      (req : AcquireRequest) (result : Space × MemoryStore × Reply)
      → IsRequest req
      → now < 256 ^ 8
      → c.next_lease_id + length req.specs < 256 ^ 8
      → leased s reply_leases (acquire (manager s) store now req) ≡ some result
      → After s now c result
  acquire-After req result vr fits room e =
      let P = After s now c in
      elim (acquire_lem (manager s) store now req c bytes i vr fits room) [
        | inl (store', f, fs, n, j, held, keep) ↦
            unwrapped P _ _ result (ap (leased s reply_leases) f)
              (refl, (_, j, omega arith, omega arith)) e
        | inr (mgr, store', er, f, why, j, keep) ↦
            unwrapped P _ _ result (ap (leased s reply_leases) f)
              (refl, Kept-refl s.id store' now c j) e
      ]

  unchanged-Kept : (store' : MemoryStore) → store' ≡ store → Kept s.id store' now c
  unchanged-Kept store' same =
      subst (λ (m : MemoryStore). Kept s.id m now c) (sym same) (Kept-refl s.id store now c i)

  Outcome-Kept :
      (req : AdmissionRequest) (rec : Option DeviceRecord)
      (result : MemoryStore × Result KernelError AdmissionResponse)
      → Outcome s.id store now req c rec result
      → Kept s.id result.0 now c
  Outcome-Kept req rec (store', err error) same = unchanged-Kept store' same
  Outcome-Kept req rec (store', ok response) (inl (same, refused)) = unchanged-Kept store' same
  Outcome-Kept req rec (store', ok response) (inr adm) =
      (advanced c (length req.batches), adm.leases, omega arith, omega arith)

  admit-After :
      (req : AdmissionRequest) (result : Space × MemoryStore × Reply)
      → All IsByte req.device
      → All ByteBatch req.batches
      → c.admission_high_water + length req.batches + 1 < 2 ^ 64
      → admitted s (admit sha256 s.id store now req) ≡ some result
      → After s now c result
  admit-After req result db eb fits e = on_admit (admit sha256 s.id store now req) refl e
    where
      on_admit :
          (answer : Option (MemoryStore × Result KernelError AdmissionResponse))
          → admit sha256 s.id store now req ≡ answer
          → admitted s answer ≡ some result
          → After s now c result
      on_admit none f e = cc
      on_admit (some (store', answer)) f e =
          let (rec, known) = admit-device_at s.id sha256 store now req (store', answer) f in
          unwrapped (After s now c) _ (s, store', reply_admit answer) result refl
            (
              refl,
              Outcome-Kept req rec (store', answer)
                  (admit_lem s.id bytes sha256 store now req c rec i known db eb fits
                    (store', answer) f),
            )
            e

  pub serve-After :
      (call : Call) (result : Space × MemoryStore × Reply)
      → Fits (record { space = s; store = store; now = now }) call
      → serve sha256 s store now call ≡ some result
      → After s now c result
  unfolding serve
  serve-After (call_acquire req) result (vr, fits, room) e =
      acquire-After req result vr fits (room c stored) e
  serve-After (call_renew req) result (vr, fits) e =
      let (response, store', f, j, granted, invalid, counted, keep) =
        renew_lem (manager s) store now req c bytes i fits vr in
      unwrapped (After s now c) _ _ result (ap (leased s reply_renew) f)
        (refl, Kept-refl s.id store' now c j) e
  serve-After (call_release req) result fits e =
      let (mgr, store', f, j, keep, gone) = release_lem store now req (manager s) c bytes i in
      unwrapped (After s now c) _ _ result (ap (leased s reply_release) f)
        (refl, Kept-refl s.id store' now c j) e
  serve-After (call_list_leases req) result fits e =
      let (held, store', f, x, j, live) = list_leases_lem (manager s) store now req c bytes i in
      unwrapped (After s now c) _ _ result (ap (leased s reply_leases) f)
        (refl, Kept-refl s.id store' now c j) e
  serve-After (call_admit req) result (db, eb, room) e =
      admit-After req result db eb (room c stored) e
  serve-After (call_pull req) result fits e =
      reading-After reply_pull (pull s.id store req) result e
  serve-After (call_get req) result fits e =
      reading-After reply_get (get_keys s.id store req) result e
  serve-After (call_list req) result fits e =
      reading-After reply_list (list_entries s.id store req) result e
  serve-After (call_read_at req) result fits e =
      reading-After reply_read_at (read_at s.id store req) result e

-- In every world that a space of a byte id can come to from one whose leases satisfy their
-- invariant, by calls of any verbs in any order that fit 64 bits, and by time passing: the space
-- has the same id, the invariant holds, mutual exclusion of the live leases included, and neither
-- the lease ids nor the admission sequence numbers have gone back.
pub run-IsSpace :
    (sha256 : Bytes → Bytes) (w v : World) (c : CountersRecord)
    → All IsByte w.space.id
    → IsSpace w.space.id w.store w.now c
    → Run sha256 w v
    → (v.space.id ≡ w.space.id) × Kept w.space.id v.store v.now c
run-IsSpace sha256 w v c bytes i start = (refl, Kept-refl w.space.id w.store w.now c i)
run-IsSpace sha256 w v c bytes i (later u now run le) =
    let (same, (d, j, h, k)) = run-IsSpace sha256 w u c bytes i run in
    (same, (d, IsSpace-later w.space.id u.store u.now now d le j, h, k))
run-IsSpace sha256 w v c bytes i (called u call space store reply run fits e) =
    let (same, (d, j, h, k)) = run-IsSpace sha256 w u c bytes i run in
    let (unmoved, (d', j', h', k')) =
      serve-After sha256 u.space u.store u.now d (subst (All IsByte) (sym same) bytes)
        (subst (λ (id : SpaceId). IsSpace id u.store u.now d) (sym same) j) call
        (space, store, reply) fits e in
    (
      unmoved ∙ same,
      (
        d',
        subst (λ (id : SpaceId). IsSpace id store u.now d') same j',
        omega (arith, h, h'),
        omega (arith, k, k'),
      ),
    )
