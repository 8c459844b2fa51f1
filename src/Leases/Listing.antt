-- ===== src/Leases/Listing.antt =====
-- server/src/space/lease.rs: `list_leases`.
use homebase.Prelude.{
  ◌≡◌, ◌==◌, refl, true, not, ◌&&◌, List, [], some, ok, All, arith, ◌↔◌, ◌≢◌, Bool-cases, inl, inr,
  nat_ord, list_ord,
}
use homebase.Prelude.Bytes.{IsByte}
use homebase.Clock.{Timestamp}
use homebase.Messages.{ListLeasesRequest}
use homebase.Schema.{SpaceId}
use homebase.Schema.LeaseRecord.{LeaseRecord, CountersRecord, is_live}
use homebase.Storage.{MemoryStore, apply}
use homebase.Leases.{LeaseManager, select, purge_records}
use homebase.Leases.Table.{Held}
use homebase.Leases.Scan.Covering.{decode_all-id_scan}
use homebase.Leases.Scan.Selection.{Exactly, Exactly-select}
use homebase.Leases.Purge.{purge_records-Purged}
use homebase.Leases.Exclusion.{IsSpace, Purged-IsSpace}
use homebase.Leases.Verbs.{list_leases, public_leases}

-- The live leases of the requesting device.
abbrev pub Listed : SpaceId → MemoryStore → Timestamp → ListLeasesRequest → LeaseRecord → Type 0
Listed space store now req r =
    Held space store r × ((is_live r now && r.device == req.device) ≡ true)

-- The listing goes through: its leases are exactly those that are meant, and the table keeps
-- exactly what is live.
abbrev pub Lists :
    LeaseManager → MemoryStore → Timestamp → ListLeasesRequest → CountersRecord → Type 1
Lists mgr store now req c =
    (held : List LeaseRecord) × (store' : MemoryStore) × (list_leases mgr store now req
      ≡ some (mgr, store', ok (public_leases held)))
    × Exactly (Listed mgr.space store now req) held
    × IsSpace mgr.space store' now c
    × ((r : LeaseRecord)
        → Held mgr.space store' r ↔ (Held mgr.space store r × (is_live r now ≡ true)))

-- On a space of a byte id whose invariant holds, `list_leases` never panics and answers exactly
-- the live leases of the caller; afterwards the invariant holds and the table holds exactly the
-- leases that were live.
pub list_leases_lem :
    (mgr : LeaseManager) (store : MemoryStore) (now : Timestamp) (req : ListLeasesRequest)
    (c : CountersRecord)
    → All IsByte mgr.space
    → IsSpace mgr.space store now c
    → Lists mgr store now req c
unfolding list_leases
list_leases_lem mgr store now req c bytes i =
    let (recs, e, x) = decode_all-id_scan mgr.space bytes store i.table now in
    let dead = select (λ r. not (is_live r now)) recs in
    let y = Exactly-select (Held mgr.space store) (λ r. not (is_live r now)) recs x in
    let expired : All (λ r. Held mgr.space store r × (¬ (is_live r now ≡ true))) dead =
      (y (λ r. Held mgr.space store r × (¬ (is_live r now ≡ true)))).1
        (λ r (h, d). (h, λ l. ground (arith, d, l))) in
    let (p, gone) =
      purge_records-Purged mgr.space bytes (λ r. is_live r now ≡ true) store dead expired i.table in
    (
      select (λ r. is_live r now && r.device == req.device) recs,
      apply store (purge_records mgr.space [] dead),
      rw e refl,
      Exactly-select (Held mgr.space store) (λ r. is_live r now && r.device == req.device) recs x,
      Purged-IsSpace mgr.space (λ r. is_live r now ≡ true) now c store i
          (apply store (purge_records mgr.space [] dead)) p,
      λ r. (
        λ h. (
          p.sub r h,
          elim (Bool-cases (is_live r now)) [
            | inl l ↦ l
            | inr d ↦ absurd (
                (y (λ q.
                    (x : LeaseRecord)
                    → Held mgr.space (apply store (purge_records mgr.space [] dead)) x
                    → x.id ≢ q.id)).0
                  gone r (p.sub r h, ground (arith, d)) r h refl)
          ],
        ),
        λ (h, l). p.keep r h l,
      ),
    )
