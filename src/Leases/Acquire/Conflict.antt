-- ===== src/Leases/Acquire/Conflict.antt =====
-- When two leases conflict, said of the keys that they cover, and the check of a batch of specs
-- against that (server/src/space/lease.rs, `acquire`).
use homebase.Prelude.{
  ℕ, ◌+◌, ◌<◌, ◌≡◌, ◌^◌, refl, sym, ◌∙◌, true, false, List, [], ◌∷◌, Option, none, some, All, min,
  length, arith, Bool-cases, inl, inr, ◌⊎◌, ◌↔◌, starts_with, starts_with_self, starts_with_total,
  nat_ord, list_ord,
}
use homebase.Clock.{Timestamp, u64_max}
use homebase.Key.{Key}
use homebase.Lease.{Lease, LeaseMode, LeaseId, read, write, compatible_with}
use homebase.Messages.{LeaseSpec, AcquireRequest}
use homebase.Schema.{SpaceId}
use homebase.Schema.LeaseRecord.{LeaseRecord, is_live}
use homebase.Storage.{MemoryStore}
use homebase.Leases.Table.{Held}
use homebase.Leases.Exclusion.{Free, IsSpec}
use homebase.Leases.Verbs.{
  conflicting, conflict_behind, batch_conflict, grant_record, grant_records, next_id, public_lease,
  public_leases,
}
use homebase.Leases.Acquire.Grant.{PairwiseFree, batch_conflict-none}

-- Two reservations conflict: some key lies under both prefixes, and one of them is for writing.
abbrev pub Conflict : Key → LeaseMode → Key → LeaseMode → Type 0
Conflict p m q n =
    ((key : Key) × (starts_with key p ≡ true) × (starts_with key q ≡ true))
    × ((m ≡ write) ⊎ (n ≡ write))

incompatible : (m n : LeaseMode) → (compatible_with m n ≡ false) ↔ ((m ≡ write) ⊎ (n ≡ write))
incompatible read read = ((λ e. cc), (λ w. elim w [ inl e ↦ cc | inr e ↦ cc ]))
incompatible read write = ((λ e. inr refl), (λ w. refl))
incompatible write read = ((λ e. inl refl), (λ w. refl))
incompatible write write = ((λ e. inl refl), (λ w. refl))

pub conflicting_iff :
    (p : Key) (m : LeaseMode) (q : Key) (n : LeaseMode)
    → (conflicting p m q n ≡ true) ↔ Conflict p m q n
conflicting_iff p m q n = (
  λ h. (shared (ground (arith, h)), (incompatible m n).0 (ground (arith, h))),
  λ ((key, hp, hq), w).
      let mode = (incompatible m n).1 w in
      elim (starts_with_total key p q hp hq) [
        | inl e ↦ rw (e, mode) refl
        | inr e ↦ rw mode (ground (arith, e))
      ],
)
  where
    shared :
        (starts_with p q ≡ true) ⊎ (starts_with q p ≡ true)
        → (key : Key) × (starts_with key p ≡ true) × (starts_with key q ≡ true)
    shared (inl e) = (p, starts_with_self p, e)
    shared (inr e) = (q, e, starts_with_self q)

pub conflicting-false :
    (p : Key) (m : LeaseMode) (q : Key) (n : LeaseMode)
    → (conflicting p m q n ≡ false) ↔ (¬ Conflict p m q n)
conflicting-false p m q n = (
  λ e x. let e' = (conflicting_iff p m q n).1 x in cc (sym e ∙ e'),
  λ f. elim (Bool-cases (conflicting p m q n)) [
    | inl e ↦ absurd (f ((conflicting_iff p m q n).0 e))
    | inr e ↦ e
  ],
)

-- No live lease of the table conflicts with the spec.
abbrev pub Unblocked : SpaceId → MemoryStore → Timestamp → LeaseSpec → Type 0
Unblocked space store now spec =
    (r : LeaseRecord)
    → Held space store r
    → is_live r now ≡ true
    → ¬ Conflict spec.prefix spec.mode r.prefix r.mode

module _ (space : SpaceId) (store : MemoryStore) (now : Timestamp) where
  pub Frees-Unblocked :
      (specs : List LeaseSpec)
      → All (λ s. Free space store now s.prefix s.mode) specs
        ↔ All (Unblocked space store now) specs
  Frees-Unblocked [] = ((λ u. tt), (λ u. tt))
  Frees-Unblocked (s ∷ specs) =
      let ih = Frees-Unblocked specs in
      (
        λ (f, fs).
            ((λ r h l. (conflicting-false s.prefix s.mode r.prefix r.mode).0 (f r h l)), ih.0 fs),
        λ (f, fs).
            ((λ r h l. (conflicting-false s.prefix s.mode r.prefix r.mode).1 (f r h l)), ih.1 fs),
      )

-- No two specs of the batch conflict.
pub Unrelated : List LeaseSpec → Type 0
Unrelated [] = Unit
Unrelated (a ∷ rest) = All (λ b. ¬ Conflict a.prefix a.mode b.prefix b.mode) rest × Unrelated rest

-- A spec conflicts with one behind it in the batch, whose prefix is `p`.
pub ClashBehind : Key → LeaseSpec → List LeaseSpec → Type 0
ClashBehind p a [] = ⊥
ClashBehind p a (b ∷ bs) =
    ((b.prefix ≡ p) × Conflict a.prefix a.mode b.prefix b.mode) ⊎ ClashBehind p a bs

pub Clash : Key → List LeaseSpec → Type 0
Clash p [] = ⊥
Clash p (a ∷ rest) = ClashBehind p a rest ⊎ Clash p rest

conflict_behind-some :
    (p : Key) (a : LeaseSpec) (bs : List LeaseSpec)
    → conflict_behind a bs ≡ some p
    → ClashBehind p a bs
unfolding conflict_behind ClashBehind
conflict_behind-some p a [] e = cc
conflict_behind-some p a (b ∷ bs) e =
    elim (Bool-cases (conflicting a.prefix a.mode b.prefix b.mode)) [
      | inl q ↦
          let e' = rw q at e in inl (cc, (conflicting_iff a.prefix a.mode b.prefix b.mode).0 q)
      | inr q ↦ inr (conflict_behind-some p a bs (rw q at e))
    ]

pub batch_conflict-some :
    (p : Key) (specs : List LeaseSpec) → batch_conflict specs ≡ some p → Clash p specs
unfolding batch_conflict Clash
batch_conflict-some p [] e = cc
batch_conflict-some p (a ∷ rest) e =
    behind (batch_conflict-some p rest) (conflict_behind a rest) refl e
  where
    behind :
        (batch_conflict rest ≡ some p → Clash p rest)
        → (o : Option Key) → conflict_behind a rest ≡ o
        → elim o [ some q ↦ some q | none ↦ batch_conflict rest ] ≡ some p
        → ClashBehind p a rest ⊎ Clash p rest
    behind next none f e = inr (next e)
    behind next (some q) f e = inl (conflict_behind-some p a rest (f ∙ e))

pairwise :
    (a : LeaseSpec) (rest : List LeaseSpec)
    → All (λ b. conflicting a.prefix a.mode b.prefix b.mode ≡ false) rest
    → All (λ b. ¬ Conflict a.prefix a.mode b.prefix b.mode) rest
pairwise a [] h = tt
pairwise a (b ∷ bs) (h, hs) =
    ((conflicting-false a.prefix a.mode b.prefix b.mode).0 h, pairwise a bs hs)

PairwiseFree-Unrelated : (specs : List LeaseSpec) → PairwiseFree specs → Unrelated specs
unfolding PairwiseFree Unrelated
PairwiseFree-Unrelated [] h = tt
PairwiseFree-Unrelated (a ∷ rest) (h, hs) = (pairwise a rest h, PairwiseFree-Unrelated rest hs)

pub batch_conflict-Unrelated :
    (specs : List LeaseSpec) → batch_conflict specs ≡ none → Unrelated specs
batch_conflict-Unrelated specs e = PairwiseFree-Unrelated specs (batch_conflict-none specs e)

clash_behind :
    (p : Key) (a : LeaseSpec) (bs : List LeaseSpec)
    → All (λ b. ¬ Conflict a.prefix a.mode b.prefix b.mode) bs
    → ¬ ClashBehind p a bs
unfolding ClashBehind
clash_behind p a [] h x = absurd x
clash_behind p a (b ∷ bs) (h, hs) (inl (e, x)) = h x
clash_behind p a (b ∷ bs) (h, hs) (inr x) = clash_behind p a bs hs x

-- Specs of which no two conflict do not clash.
pub Unrelated-Clash : (p : Key) (specs : List LeaseSpec) → Unrelated specs → ¬ Clash p specs
unfolding Unrelated Clash
Unrelated-Clash p [] h x = absurd x
Unrelated-Clash p (a ∷ rest) (h, hs) (inl x) = clash_behind p a rest h x
Unrelated-Clash p (a ∷ rest) (h, hs) (inr x) = Unrelated-Clash p rest hs x

module _ (req : AcquireRequest) (now : Timestamp) (barrier : ℕ) where
  -- The record of a granted spec, field by field.
  pub record IsGrant (id : LeaseId) (spec : LeaseSpec) (r : LeaseRecord) : Type 0 where
    pub id_is : r.id ≡ id
    pub prefix : r.prefix ≡ spec.prefix
    pub mode : r.mode ≡ spec.mode
    pub device : r.device ≡ req.device
    pub requested_at : r.requested_at ≡ req.requested_at
    pub granted_at : r.granted_at ≡ now
    pub barrier_is : r.barrier ≡ barrier
    pub deadline : r.deadline ≡ min (now + spec.ttl) u64_max
    pub ttl : r.ttl ≡ spec.ttl

  -- The lease as the caller is told of it.
  pub record IsAnswer (r : LeaseRecord) (l : Lease) : Type 0 where
    pub told_id : l.id ≡ r.id
    pub told_prefix : l.prefix ≡ r.prefix
    pub told_mode : l.mode ≡ r.mode
    pub told_request : l.requested_at ≡ r.requested_at
    pub told_grant : l.granted_at ≡ r.granted_at
    pub told_ttl : l.ttl ≡ r.ttl
    pub told_barrier : l.barrier ≡ r.barrier

  -- The records and the answer are those of the specs, one each, under consecutive ids.
  pub Numbered : LeaseId → List LeaseSpec → List LeaseRecord → List Lease → Type 0
  Numbered id [] [] [] = Unit
  Numbered id (s ∷ specs) (r ∷ rs) (l ∷ ls) =
      IsGrant id s r × IsAnswer r l × Numbered (id + 1) specs rs ls
  Numbered id specs rs ls = ⊥

  pub grant_records-Numbered :
      (id : LeaseId) (specs : List LeaseSpec)
      → All IsSpec specs
      → id + length specs < 256 ^ 8
      → Numbered id specs
          (grant_records req now barrier id specs)
          (public_leases (grant_records req now barrier id specs))
  unfolding grant_records Numbered grant_record public_lease
  grant_records-Numbered id [] v room = tt
  grant_records-Numbered id (s ∷ specs) (v, vs) room =
      let fits = v.ttl_fits in
      let next : next_id id ≡ id + 1 = omega (arith, room) in
      (
        record {
          id_is = refl;
          prefix = refl;
          mode = refl;
          device = refl;
          requested_at = refl;
          granted_at = refl;
          barrier_is = refl;
          deadline = omega (arith, fits);
          ttl = refl;
        },
        record {
          told_id = refl;
          told_prefix = refl;
          told_mode = refl;
          told_request = refl;
          told_grant = refl;
          told_ttl = refl;
          told_barrier = refl;
        },
        rw next (grant_records-Numbered (id + 1) specs vs (omega (arith, room))),
      )
