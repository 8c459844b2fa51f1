-- ===== src/Schema/RangeDelete/Covering.antt =====
-- The ranges over a target, as the covering keys list them (server/src/schema.rs).
use homebase.Prelude.{
  ℕ, zero, suc, ◌+◌, ◌≤◌, ◌<◌, ◌≡◌, refl, sym, ap, subst, ◌∙◌, true, [], ◌∷◌, take, drop,
  take-append, take-append-drop, length-take, length-append, All, All-take, starts_with,
  starts_with-split, starts_with-append, length, map, ltb, nat_ord, list_ord, arith, ◌↔◌,
  Bool-cases, inl, inr,
}
use homebase.Key.{Key, KeyComponent, IsKey, IsComponent, escape, encode_components}
use homebase.Range.{Range, IsRange, full, prefix, covers_range}
use homebase.Schema.RangeDelete.{beginnings, covering_ranges}

-- The property holds of every valid range that covers the target.
abbrev pub Covered : (Range → Type 0) → Range → Type 0
Covered Q target = (r : Range) → IsRange r → covers_range r target ≡ true → Q r

length-encode-take :
    (n : ℕ) (key : Key) → length (encode_components (take n key)) ≤ length (encode_components key)
unfolding encode_components
length-encode-take zero key = omega arith
length-encode-take (suc n) [] = omega arith
length-encode-take (suc n) (c ∷ key) = omega (
  arith,
  length-encode-take n key,
  length-append (escape c) (0 ∷ 0 ∷ encode_components (take n key)),
  length-append (escape c) (0 ∷ 0 ∷ encode_components key),
)

-- A beginning of a valid key is valid.
pub take-IsKey : (n : ℕ) (key : Key) → 0 < n → IsKey key → IsKey (take n key)
take-IsKey n key h v = record {
  components = All-take IsComponent n key v.components;
  nonempty = omega (arith, length-take n key, v.nonempty);
  depth = omega (arith, length-take n key, v.depth);
  size = omega (arith, length-encode-take n key, v.size);
}

module _ (Q : Range → Type 0) (p : Key) where
  beginnings-All :
      (n depth : ℕ)
      → ((d : ℕ) → depth ≤ d → d < depth + n → Q (prefix (take d p)))
      → All Q (map prefix (beginnings p n depth))
  unfolding beginnings
  beginnings-All zero depth h = tt
  beginnings-All (suc n) depth h = (
    h depth (omega arith) (omega arith),
    beginnings-All n (depth + 1) (λ d a b. h d (omega arith) (omega arith)),
  )

  beginnings-elim :
      (n depth d : ℕ)
      → All Q (map prefix (beginnings p n depth))
      → depth ≤ d
      → d < depth + n
      → Q (prefix (take d p))
  unfolding beginnings
  beginnings-elim zero depth d h a b = absurd (omega arith)
  beginnings-elim (suc n) depth d (h, hs) a b = elim (Bool-cases (ltb depth d)) [
    | inl q ↦ beginnings-elim n (depth + 1) d hs (ground (arith, q)) (omega arith)
    | inr q ↦
        let e : depth ≡ d = ground (arith, q, a) in subst (λ (k : ℕ). Q (prefix (take k p))) e h
  ]

starts_with-take_self : (n : ℕ) (p : Key) → starts_with p (take n p) ≡ true
starts_with-take_self n p =
    ap (λ (k : Key). starts_with k (take n p)) (sym (take-append-drop n p))
    ∙ starts_with-append (take n p) (drop n p)

prefix-take : (p q : Key) → starts_with p q ≡ true → (take (length q) p ≡ q) × (length q ≤ length p)
prefix-take p q h =
    let (zs, e) = starts_with-split p q h in
    (
      ap (take (length q)) e ∙ take-append (length q) q zs refl,
      omega (arith, ap (length {A = KeyComponent}) e, length-append q zs),
    )

-- The ranges of the covering keys are all valid, and they are exactly the valid ranges that cover
-- the target.
pub covering_ranges-IsRange : (p : Key) → IsKey p → All IsRange (covering_ranges (prefix p))
unfolding covering_ranges
covering_ranges-IsRange p v =
    (tt, beginnings-All IsRange p (length p) 1 (λ d a b. take-IsKey d p (omega arith) v))

pub covering_ranges-Covered :
    (Q : Range → Type 0) (p : Key)
    → IsKey p
    → All Q (covering_ranges (prefix p)) ↔ Covered Q (prefix p)
unfolding covering_ranges covers_range
covering_ranges-Covered Q p v = (to, from)
  where
    to : Q full × All Q (map prefix (beginnings p (length p) 1)) → Covered Q (prefix p)
    to (h, hs) full w c = h
    to (h, hs) (prefix q) w c =
        let (e, le) = prefix-take p q c in
        subst (λ (k : Key). Q (prefix k)) e
          (beginnings-elim Q p (length p) 1 (length q) hs (omega (arith, w.nonempty)) (omega arith))

    from : Covered Q (prefix p) → Q full × All Q (map prefix (beginnings p (length p) 1))
    from h = (
      h full tt refl,
      beginnings-All Q p (length p) 1 (λ d a b.
          h (prefix (take d p)) (take-IsKey d p (omega arith) v) (starts_with-take_self d p)),
    )
