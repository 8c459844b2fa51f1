-- ===== src/Leases/Acquire/Safety.antt =====
-- `acquire`, as a client sees it, and the space's invariant.
use homebase.Prelude.{
  ◌+◌, ◌<◌, ◌≤◌, ◌≡◌, ◌^◌, refl, sym, subst, ◌∙◌, List, [], length, some, Result, ok, All, arith,
  inl, inr, ◌↔◌,
}
use homebase.Prelude.Bytes.{IsByte}
use homebase.Clock.{Timestamp}
use homebase.Lease.{Lease}
use homebase.Messages.{AcquireRequest, KernelError}
use homebase.Schema.{SpaceId}
use homebase.Schema.LeaseRecord.{CountersRecord, counters_default}
use homebase.Storage.{MemoryStore}
use homebase.Storage.Store.{IsStore-nil, get-nil, get-nil_none}
use homebase.Leases.{LeaseManager}
use homebase.Leases.Exclusion.{IsRequest, IsSpace, is_live-earlier}
use homebase.Leases.Verbs.{acquire}
use homebase.Leases.Acquire.Conflict.{Unblocked, Unrelated, Unrelated-Clash}
use homebase.Leases.Acquire.Outcome.{KeepsLive, acquire_lem}

-- The store of a new space.
pub IsSpace-new : (space : SpaceId) (now : Timestamp) → IsSpace space [] now counters_default
IsSpace-new space now = record {
  table = record {
    is_store = IsStore-nil;
    by_id = λ k v e. absurd (get-nil k v e);
    by_prefix = λ k v e. absurd (get-nil k v e);
  };
  exclusive = λ a b ha. absurd (get-nil _ _ ha.stored);
  below = λ r h. absurd (get-nil _ _ h.stored);
  stored = inr (get-nil_none _, refl, refl);
  id_fits = omega arith;
  high_water_fits = omega arith;
}

-- The invariant of a space, mutual exclusion of the live leases included, still holds at every
-- later time.
pub IsSpace-later :
    (space : SpaceId) (store : MemoryStore) (now later : Timestamp) (c : CountersRecord)
    → now ≤ later
    → IsSpace space store now c
    → IsSpace space store later c
IsSpace-later space store now later c h i = record {
  table = i.table;
  exclusive = λ a b ha hb la lb.
      i.exclusive a b ha hb (is_live-earlier a now later h la) (is_live-earlier b now later h lb);
  below = i.below;
  stored = i.stored;
  id_fits = i.id_fits;
  high_water_fits = i.high_water_fits;
}

-- The invariant after the call, no id taken back, and every live lease kept.
abbrev pub After : SpaceId → MemoryStore → Timestamp → CountersRecord → MemoryStore → Type 0
After space store now c store' =
    (c' : CountersRecord) × IsSpace space store' now c'
    × (c.next_lease_id ≤ c'.next_lease_id)
    × KeepsLive space now store store'

module _ (mgr : LeaseManager) (store : MemoryStore) (now : Timestamp) (req : AcquireRequest)
    (c : CountersRecord) (bytes : All IsByte mgr.space) (i : IsSpace mgr.space store now c)
    (vr : IsRequest req) (now_fits : now < 256 ^ 8)
    (room : c.next_lease_id + length req.specs < 256 ^ 8) where
  same_store :
      (m m' : LeaseManager) (s s' : MemoryStore) (a a' : Result KernelError (List Lease))
      → acquire mgr store now req ≡ some (m, s, a)
      → acquire mgr store now req ≡ some (m', s', a')
      → s ≡ s'
  same_store m m' s s' a a' e f = cc (sym e ∙ f)

  -- For a well-formed request at a 64-bit time, on a space of a byte id whose invariant holds,
  -- with room for the new ids below 2^64, `acquire` grants exactly when no live lease conflicts
  -- with one of the specs and no two of the specs conflict, where two reservations conflict when
  -- some key lies under both prefixes and one of them is for writing.
  pub acquire-ok_iff :
      ((mgr' : LeaseManager) × (store' : MemoryStore) × (leases : List Lease) × (acquire mgr store
            now req
          ≡ some (mgr', store', ok leases)))
      ↔ (All (Unblocked mgr.space store now) req.specs × Unrelated req.specs)
  acquire-ok_iff = elim (acquire_lem mgr store now req c bytes i vr now_fits room) [
    | inl (store', e, fs, n, j, held, keep) ↦ (λ h. (fs, n.0), λ h. (mgr, store', _, e))
    | inr (mgr', store', er, e, why, j, keep) ↦ (
      λ (m, s, l, f). cc (sym e ∙ f),
      λ (fs, n). elim why [
        | inl (spec, r, b, q, unfree) ↦ absurd (unfree fs)
        | inr (p, q, f) ↦ absurd (Unrelated-Clash p req.specs n f)
      ],
    )
  ]

  -- Whatever `acquire` answers to a well-formed request at a 64-bit time, on a space of a byte id
  -- whose invariant holds, with room for the new ids below 2^64: the invariant holds afterwards,
  -- mutual exclusion of the live leases included, the id counter has not gone back, and every
  -- lease that was live is still in the table.
  pub acquire-IsSpace :
      (mgr' : LeaseManager) (store' : MemoryStore) (answer : Result KernelError (List Lease))
      → acquire mgr store now req ≡ some (mgr', store', answer)
      → After mgr.space store now c store'
  acquire-IsSpace mgr' store' answer f =
      elim (acquire_lem mgr store now req c bytes i vr now_fits room) [
        | inl (s', e, fs, n, j, held, keep) ↦
            subst (λ (s : MemoryStore). After mgr.space store now c s)
              (same_store _ _ s' store' _ _ e f) (_, j, omega arith, keep)
        | inr (m', s', er, e, why, j, keep) ↦
            subst (λ (s : MemoryStore). After mgr.space store now c s)
              (same_store _ _ s' store' _ _ e f) (c, j, omega arith, keep)
      ]
