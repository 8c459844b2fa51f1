-- ===== src/Range/Coverage.antt =====
-- `covers_range`, `overlaps` and `intersection` against the sets of keys that ranges cover.
use homebase.Prelude.{
  ℕ, ◌<◌, ◌≡◌, refl, Bool, true, false, List, [], ◌∷◌, ◌||◌, ◌&&◌, length, ◌==◌, nat_ord, list_ord,
  starts_with, Option, none, some, ◌↔◌, inl, inr, arith, Bool-cases, eq_of_==, starts_with_self,
  starts_with_trans, starts_with_total, ap,
}
use homebase.Key.{Key}
use homebase.Range.{Range, full, prefix, covers_key, covers_range, overlaps, intersection, IsRange}

-- The keys of a range, among the tuples of at least one component.
abbrev pub Holds : Range → Key → Type 0
Holds r k = (0 < length k) × (covers_key r k ≡ true)

covers_key_trans :
    (a b : Range) (k : Key)
    → covers_range a b ≡ true
    → covers_key b k ≡ true
    → covers_key a k ≡ true
unfolding covers_key covers_range
covers_key_trans full b k h c = refl
covers_key_trans (prefix p) full k h c = cc
covers_key_trans (prefix p) (prefix q) k h c = starts_with_trans k q p c h

longer_ne : (c : List ℕ) → ((0 ∷ c) == c) ≡ true → ⊥
longer_ne c h = absurd (omega (arith, ap length (eq_of_== (0 ∷ c) c h)))

-- One range over a valid key, or the full one, covers another exactly if it covers each nonempty
-- key that the other covers.
pub covers_range_iff :
    (a b : Range)
    → IsRange a
    → IsRange b
    → (covers_range a b ≡ true) ↔ ((k : Key) → Holds b k → Holds a k)
unfolding covers_key covers_range
covers_range_iff a b va vb = (λ h k (n, c). (n, covers_key_trans a b k h c), backward a b va vb)
  where
    backward :
        (a b : Range)
        → IsRange a
        → IsRange b
        → ((k : Key) → Holds b k → Holds a k)
        → covers_range a b ≡ true
    backward full b va vb h = refl
    backward (prefix []) b va vb h = absurd (omega (arith, va.nonempty))
    backward (prefix (c ∷ p)) full va vb h =
        absurd (longer_ne c (ground (arith, h ((0 ∷ c) ∷ []) (omega arith, refl))))
    backward (prefix (c ∷ p)) (prefix q) va vb h = (h q (vb.nonempty, starts_with_self q)).1

-- Two ranges, each full or over a valid key, overlap exactly if some nonempty key lies in both.
pub overlaps_iff :
    (a b : Range)
    → IsRange a
    → IsRange b
    → (overlaps a b ≡ true)
      ↔ ((k : Key) × (0 < length k) × (covers_key a k ≡ true) × (covers_key b k ≡ true))
unfolding overlaps covers_key covers_range
overlaps_iff full full va vb = (λ h. ((0 ∷ []) ∷ [], omega arith, refl, refl), λ h. refl)
overlaps_iff full (prefix q) va vb = (λ h. (q, vb.nonempty, refl, starts_with_self q), λ h. refl)
overlaps_iff (prefix p) full va vb = (λ h. (p, va.nonempty, starts_with_self p, refl), λ h. refl)
overlaps_iff (prefix p) (prefix q) va vb = (forward, backward)
  where
    forward :
        (starts_with q p || starts_with p q) ≡ true
        → (k : Key) × (0 < length k) × (starts_with k p ≡ true) × (starts_with k q ≡ true)
    forward h = elim (Bool-cases (starts_with q p)) [
      | inl e ↦ (q, vb.nonempty, e, starts_with_self q)
      | inr e ↦ (p, va.nonempty, starts_with_self p, ground (arith, e, h))
    ]

    backward :
        (k : Key) × (0 < length k) × (starts_with k p ≡ true) × (starts_with k q ≡ true)
        → (starts_with q p || starts_with p q) ≡ true
    backward (k, n, a, b) = ground (arith, starts_with_total k p q a b)

abbrev pub covers_key? : Option Range → Key → Bool
covers_key? none k = false
covers_key? (some r) k = covers_key r k

-- The intersection of two ranges covers exactly the keys that both cover, and is `none` where
-- they share no key.
pub covers_key-intersection :
    (a b : Range) (k : Key) → covers_key? (intersection a b) k ≡ (covers_key a k && covers_key b k)
unfolding intersection covers_key covers_range
covers_key-intersection full b k = refl
covers_key-intersection (prefix p) full k = ground arith
covers_key-intersection (prefix p) (prefix q) k =
    ground (arith, starts_with_trans k q p, starts_with_trans k p q, starts_with_total k p q)
