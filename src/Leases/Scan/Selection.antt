-- ===== src/Leases/Scan/Selection.antt =====
-- A list of records that holds exactly those of which `Q` holds.
use homebase.Prelude.{
  ◌≡◌, refl, sym, ◌∙◌, subst, Bool, true, List, [], ◌∷◌, ◌++◌, some, All, All-append, Bool-cases,
  inl, inr, ◌⊎◌, ◌↔◌,
}
use homebase.Prelude.Bytes.{Bytes}
use homebase.Schema.LeaseRecord.{LeaseRecord, lease_encode}
use homebase.Schema.LeaseRecord.Codec.{lease_decode-encode}
use homebase.Leases.{select, decode_all}
use homebase.Leases.Table.{IsRecord, lease_encode-injective}

-- What holds of all records of the list is what holds of every record with `Q`.
abbrev pub Exactly : (LeaseRecord → Type 0) → List LeaseRecord → Type 1
Exactly Q recs = (P : LeaseRecord → Type 0) → All P recs ↔ ((r : LeaseRecord) → Q r → P r)

pub Exactly-iff :
    (Q R : LeaseRecord → Type 0) (recs : List LeaseRecord)
    → ((r : LeaseRecord) → Q r ↔ R r)
    → Exactly Q recs
    → Exactly R recs
Exactly-iff Q R recs e x P =
    (λ h r q. (x P).0 h r ((e r).1 q), λ h. (x P).1 (λ r q. h r ((e r).0 q)))

All-append_inv :
    (P : LeaseRecord → Type 0) (xs ys : List LeaseRecord) → All P (xs ++ ys) → All P xs × All P ys
All-append_inv P [] ys h = (tt, h)
All-append_inv P (x ∷ xs) ys (h, hs) = let (a, b) = All-append_inv P xs ys hs in ((h, a), b)

pub Exactly-grow :
    (Q R : LeaseRecord → Type 0) (xs ys : List LeaseRecord)
    → Exactly Q xs
    → Exactly R ys
    → Exactly (λ r. Q r ⊎ R r) (xs ++ ys)
Exactly-grow Q R xs ys x y P = (
  λ h r q. elim q [
    | inl a ↦ (x P).0 (All-append_inv P xs ys h).0 r a
    | inr b ↦ (y P).0 (All-append_inv P xs ys h).1 r b
  ],
  λ h. All-append P xs ys ((x P).1 (λ r a. h r (inl a))) ((y P).1 (λ r b. h r (inr b))),
)

select-All :
    (p : LeaseRecord → Bool) (P : LeaseRecord → Type 0) (recs : List LeaseRecord)
    → All P (select p recs) ↔ All (λ r. p r ≡ true → P r) recs
unfolding select
select-All p P [] = (λ h. tt, λ h. tt)
select-All p P (r ∷ rs) = elim (Bool-cases (p r)) [
  | inl e ↦
      rw e (λ h. (λ q. h.0, (select-All p P rs).0 h.1), λ h. (h.0 refl, (select-All p P rs).1 h.1))
  | inr e ↦ rw e (λ h. (λ q. cc, (select-All p P rs).0 h), λ h. (select-All p P rs).1 h.1)
]

pub Exactly-select :
    (Q : LeaseRecord → Type 0) (p : LeaseRecord → Bool) (recs : List LeaseRecord)
    → Exactly Q recs
    → Exactly (λ r. Q r × (p r ≡ true)) (select p recs)
Exactly-select Q p recs x P = (
  λ h r q. (x (λ r. p r ≡ true → P r)).0 ((select-All p P recs).0 h) r q.0 q.1,
  λ h. (select-All p P recs).1 ((x (λ r. p r ≡ true → P r)).1 (λ r a b. h r (a, b))),
)

-- The entry's value is the encoding of a well-formed record.
abbrev pub Encodes : Bytes × Bytes → Type 0
Encodes e = (r : LeaseRecord) × IsRecord r × (e.1 ≡ lease_encode r)

pub decode_all_lem :
    (entries : List (Bytes × Bytes))
    → All Encodes entries
    → (recs : List LeaseRecord) × (decode_all entries ≡ some recs)
      × ((P : LeaseRecord → Type 0)
          → All P recs
            ↔ All (λ e. (r : LeaseRecord) → IsRecord r → e.1 ≡ lease_encode r → P r) entries)
unfolding decode_all
decode_all_lem [] h = ([], refl, λ P. (λ h. tt, λ h. tt))
decode_all_lem ((k, v) ∷ entries) ((r, vr, e), hs) =
    let (recs, d, iff) = decode_all_lem entries hs in
    (
      r ∷ recs,
      rw (e, lease_decode-encode r vr.fields, d) refl,
      λ P. (
        λ h. (
          λ r' vr' e'. subst P (lease_encode-injective r r' vr vr' (sym e ∙ e')) h.0,
          (iff P).0 h.1,
        ),
        λ h. (h.0 r vr e, (iff P).1 h.1),
      ),
    )
