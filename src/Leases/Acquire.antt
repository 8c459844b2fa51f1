-- ===== src/Leases/Acquire.antt =====
-- What the checks of `acquire` establish: the conflicts that they look for, and the expired
-- records that they set aside.
pub mod Conflict
pub mod Grant
pub mod Outcome
pub mod Safety
use homebase.Prelude.{
  ℕ, ◌+◌, ◌<◌, ◌≤◌, ◌≡◌, refl, sym, ap, ◌∙◌, subst, Bool, true, false, not, ◌&&◌, ◌||◌, List, [],
  ◌∷◌, ◌++◌, length, Option, none, some, All, All-append, arith, Bool-cases, inl, inr, ◌⊎◌, ◌≢◌,
  starts_with, nat_ord, list_ord, ◌↔◌,
}
use homebase.Prelude.Bytes.{Bytes, IsByte}
use homebase.Clock.{Timestamp}
use homebase.Key.{Key, IsKey}
use homebase.Lease.{LeaseMode, LeaseId, compatible_with}
use homebase.Messages.{LeaseSpec, AcquireRequest}
use homebase.Reader.{◌>>=◌}
use homebase.Schema.{SpaceId}
use homebase.Schema.LeaseRecord.{LeaseRecord, is_live}
use homebase.Storage.{MemoryStore, WriteBatch}
use homebase.Leases.{select, purge_records, overlapping}
use homebase.Leases.Table.{IsTable, Held}
use homebase.Leases.Scan.{Overlapping, overlapping_lem}
use homebase.Leases.Scan.Selection.{Exactly, Exactly-select}
use homebase.Leases.Purge.{purge_records-append}
use homebase.Leases.Exclusion.{Free, IsSpec}
use homebase.Leases.Verbs.{
  Checked, clear, blocked, check_specs, conflicting, conflict_behind, batch_conflict,
}

-- A record of the table that has expired.
abbrev pub Expired : SpaceId → MemoryStore → Timestamp → LeaseRecord → Type 0
Expired space store now r = Held space store r × (is_live r now ≡ false)

-- A live lease of the table that conflicts with the spec.
abbrev pub Blocks : SpaceId → MemoryStore → Timestamp → LeaseSpec → LeaseRecord → Type 0
Blocks space store now spec r =
    Held space store r
    × (is_live r now ≡ true)
    × (conflicting spec.prefix spec.mode r.prefix r.mode ≡ true)

-- How the loop over the specs ends: the records to purge have expired, and either no live lease
-- conflicts with a spec, or those returned do.
unfoldable pub Describes :
    SpaceId → MemoryStore → Timestamp → List LeaseSpec → Option Checked → Type 0
Describes space store now specs result =
    (ys : List LeaseRecord) × All (Expired space store now) ys
    × (((result ≡ some (clear (purge_records space [] ys)))
          × All (λ spec. Free space store now spec.prefix spec.mode) specs)
        ⊎ ((spec : LeaseSpec) × (b : LeaseRecord) × (bs : List LeaseRecord) × (result
              ≡ some (blocked (purge_records space [] ys) spec (b ∷ bs)))
            × All (Blocks space store now spec) (b ∷ bs)
            × (¬ All (λ spec. Free space store now spec.prefix spec.mode) specs)))

module _ (space : SpaceId) (bytes : All IsByte space) (store : MemoryStore)
    (t : IsTable space store) (now : Timestamp) where
  dead_records :
      (p : Key) (dead : List LeaseRecord)
      → Exactly (Overlapping space store (λ r. not (is_live r now)) p) dead
      → All (Expired space store now) dead
  unfolding Overlapping
  dead_records p dead x = (x (Expired space store now)).1 (λ r (h, d, o). (h, ground (arith, d)))

  blockers_lem :
      (spec : LeaseSpec) (live : List LeaseRecord)
      → Exactly (Overlapping space store (λ r. is_live r now) spec.prefix) live
      → ((select (λ rec. not (compatible_with spec.mode rec.mode)) live ≡ [])
          × Free space store now spec.prefix spec.mode)
        ⊎ ((b : LeaseRecord) × (bs : List LeaseRecord) × (select
                (λ rec. not (compatible_with spec.mode rec.mode))
                live
              ≡ b ∷ bs)
            × All (Blocks space store now spec) (b ∷ bs))
  unfolding Overlapping
  blockers_lem spec live x =
      shape (select (λ rec. not (compatible_with spec.mode rec.mode)) live) refl
    where
      z :
          Exactly
            (λ r.
              Overlapping space store (λ r. is_live r now) spec.prefix r
              × (not (compatible_with spec.mode r.mode) ≡ true))
            (select (λ rec. not (compatible_with spec.mode rec.mode)) live)
      z =
          Exactly-select (Overlapping space store (λ r. is_live r now) spec.prefix)
            (λ rec. not (compatible_with spec.mode rec.mode)) live x

      shape :
          (l : List LeaseRecord)
          → select (λ rec. not (compatible_with spec.mode rec.mode)) live ≡ l
          → ((l ≡ []) × Free space store now spec.prefix spec.mode)
            ⊎ ((b : LeaseRecord) × (bs : List LeaseRecord) × (l ≡ b ∷ bs)
                × All (Blocks space store now spec) (b ∷ bs))
      shape [] e = inl (
        refl,
        λ r held live_now. elim (Bool-cases (conflicting spec.prefix spec.mode r.prefix r.mode)) [
          | inl c ↦ cc (
              (z (λ s. true ≡ false)).0 (subst (All (λ s. true ≡ false)) (sym e) tt) r
                ((held, live_now, ground (arith, c)), ground (arith, c)))
          | inr c ↦ c
        ],
      )
      shape (b ∷ bs) e = inr (
        b,
        bs,
        refl,
        subst (All (Blocks space store now spec)) e (
            (z (Blocks space store now spec)).1
              (λ r ((held, l, o), n). (held, l, ground (arith, o, n)))),
      )

  -- What follows once the blockers of a spec are known.
  on_blockers : LeaseSpec → List LeaseSpec → WriteBatch → List LeaseRecord → Option Checked
  on_blockers spec specs batch [] = check_specs space store now specs batch
  on_blockers spec specs batch (b ∷ bs) = some (blocked batch spec (b ∷ bs))

  module _ (spec : LeaseSpec) (specs : List LeaseSpec) (batch : WriteBatch)
      (live dead : List LeaseRecord) where
    check_specs-clear :
        overlapping space store now spec.prefix ≡ some (live, dead)
        → select (λ rec. not (compatible_with spec.mode rec.mode)) live ≡ []
        → check_specs space store now (spec ∷ specs) batch
          ≡ check_specs space store now specs (purge_records space batch dead)
    unfolding check_specs on_blockers
    check_specs-clear e n = rw e (ap (on_blockers spec specs (purge_records space batch dead)) n)

    check_specs-blocked :
        (b : LeaseRecord) (bs : List LeaseRecord)
        → overlapping space store now spec.prefix ≡ some (live, dead)
        → select (λ rec. not (compatible_with spec.mode rec.mode)) live ≡ b ∷ bs
        → check_specs space store now (spec ∷ specs) batch
          ≡ some (blocked (purge_records space batch dead) spec (b ∷ bs))
    unfolding check_specs on_blockers
    check_specs-blocked b bs e n =
        rw e (ap (on_blockers spec specs (purge_records space batch dead)) n)

  check_specs_lem :
      (specs : List LeaseSpec) (xs : List LeaseRecord)
      → All IsSpec specs
      → All (Expired space store now) xs
      → Describes space store now specs
          (check_specs space store now specs (purge_records space [] xs))
  unfolding check_specs Describes Overlapping
  check_specs_lem [] xs v h = (xs, h, inl (refl, tt))
  check_specs_lem (spec ∷ specs) xs (v, vs) h =
      let (live, dead, e, x, y) =
        overlapping_lem space bytes store t now spec.prefix v.prefix_bytes in
      elim (blockers_lem spec live x) [
        | inl (none', free) ↦
            let (ys, all, result) =
              check_specs_lem specs (xs ++ dead) vs (
                All-append (Expired space store now) xs dead h (dead_records spec.prefix dead y)) in
            let same : check_specs space store now (spec ∷ specs) (purge_records space [] xs)
                ≡ check_specs space store now specs (purge_records space [] (xs ++ dead)) =
              check_specs-clear spec specs (purge_records space [] xs) live dead e none'
              ∙ rw (purge_records-append space [] xs dead) refl in
            (
              ys,
              all,
              elim result [
                | inl (f, frees) ↦ inl (same ∙ f, (free, frees))
                | inr (sp, b, bs, f, bl, n) ↦ inr (sp, b, bs, same ∙ f, bl, λ fs. n fs.1)
              ],
            )
        | inr (b, bs, some', all) ↦ (
          xs ++ dead,
          All-append (Expired space store now) xs dead h (dead_records spec.prefix dead y),
          inr (
            spec,
            b,
            bs,
            check_specs-blocked spec specs (purge_records space [] xs) live dead b bs e some'
                ∙ rw (purge_records-append space [] xs dead) refl,
            all,
            λ fs. let (hb, lb, cb) = all.0 in cc (sym cb ∙ fs.0 b hb lb),
          ),
        )
      ]

  pub check_specs-start :
      (specs : List LeaseSpec)
      → All IsSpec specs
      → Describes space store now specs (check_specs space store now specs [])
  unfolding purge_records
  check_specs-start specs v = check_specs_lem specs [] v tt
