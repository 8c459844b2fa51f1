-- ===== src/Prelude/Map.antt =====
-- Rust's `BTreeMap`, as the list of its entries in key order.
use mathlib.Core.Path.{◌≡◌, refl}
use mathlib.Core.Bool.{Bool, true}
use mathlib.Core.Option.{Option, none, some}
use mathlib.Core.List.{List, [], ◌∷◌}
use Prim.Native.Nat.Ordering.{lt, eq, gt}
use native.Mathlib.Omega.{arith}
use mathlib.Core.Logic.{inl, inr}
use homebase.Prelude.Tests.{Bool-cases, if◌then◌else◌}
use homebase.Prelude.Lists.{All}
use homebase.Prelude.Order.{Ord, Ordering-cases, ◌==◌, eq_of_==}

abbrev pub Map {ℓ κ} : Type ℓ → Type κ → Type (ℓ ⊔ κ)
Map K V = List (K × V)

module _ {ℓ κ} {K : Type ℓ} {V : Type κ} ⦃o : Ord K⦄ where
  unfoldable pub map_get : K → Map K V → Option V
  map_get k [] = none
  map_get k ((j, v) ∷ m) = if k == j then some v else map_get k m

  unfoldable pub map_insert : K → V → Map K V → Map K V
  map_insert k v [] = (k, v) ∷ []
  map_insert k v ((j, w) ∷ m) = elim (o.cmp k j) [
    | lt ↦ (k, v) ∷ (j, w) ∷ m
    | eq ↦ (k, v) ∷ m
    | gt ↦ (j, w) ∷ map_insert k v m
  ]

  unfoldable pub map_remove : K → Map K V → Map K V
  map_remove k [] = []
  map_remove k ((j, w) ∷ m) = if k == j then map_remove k m else (j, w) ∷ map_remove k m

  -- The entries that a range of keys selects, in order.
  unfoldable pub map_range : (K → Bool) → Map K V → Map K V
  map_range p [] = []
  map_range p ((j, w) ∷ m) = if p j then (j, w) ∷ map_range p m else map_range p m

  abbrev pub Above : K → Map K V → Type 0
  Above k m = All (λ e. o.cmp k e.0 ≡ lt) m

  abbrev pub IsSorted : Map K V → Type 0
  IsSorted [] = Unit
  IsSorted ((k, v) ∷ m) = Above k m × IsSorted m

  pub map_get-nil : (k : K) → map_get k [] ≡ none
  unfolding map_get
  map_get-nil k = refl

  pub map_get-insert :
      (j k : K) (v : V) (m : Map K V)
      → map_get j (map_insert k v m) ≡ (if j == k then some v else map_get j m)
  unfolding map_get map_insert
  map_get-insert j k v [] = refl
  map_get-insert j k v ((i, w) ∷ m) = ground (
    arith,
    o.eq_of_cmp k i,
    o.eq_of_cmp j k,
    o.eq_of_cmp j i,
    o.cmp_refl k,
    o.cmp_refl j,
    o.cmp_refl i,
    map_get-insert j k v m,
  )

  pub map_get-remove :
      (j k : K) (m : Map K V) → map_get j (map_remove k m) ≡ (if j == k then none else map_get j m)
  unfolding map_get map_remove
  map_get-remove j k [] = ground arith
  map_get-remove j k ((i, w) ∷ m) = ground (
    arith,
    o.eq_of_cmp k i,
    o.eq_of_cmp j k,
    o.eq_of_cmp j i,
    o.cmp_refl k,
    o.cmp_refl j,
    o.cmp_refl i,
    map_get-remove j k m,
  )

  Above-trans : (j k : K) (m : Map K V) → o.cmp j k ≡ lt → Above k m → Above j m
  Above-trans j k [] h a = tt
  Above-trans j k ((i, w) ∷ m) h (a, as') = (o.lt_trans j k i h a, Above-trans j k m h as')

  Above-insert :
      (j k : K) (v : V) (m : Map K V) → o.cmp j k ≡ lt → Above j m → Above j (map_insert k v m)
  unfolding map_insert
  Above-insert j k v [] h a = (h, tt)
  Above-insert j k v ((i, w) ∷ m) h (a, as') = ground (arith, Above-insert j k v m h as')

  pub map_insert-IsSorted : (k : K) (v : V) (m : Map K V) → IsSorted m → IsSorted (map_insert k v m)
  unfolding map_insert
  map_insert-IsSorted k v [] s = (tt, tt)
  map_insert-IsSorted k v ((j, w) ∷ m) (a, s) = ground (
    arith,
    o.eq_of_cmp k j,
    o.lt_of_gt k j,
    Above-trans k j m,
    Above-insert j k v m,
    map_insert-IsSorted k v m s,
  )

  Above-remove : (j k : K) (m : Map K V) → Above j m → Above j (map_remove k m)
  unfolding map_remove
  Above-remove j k [] a = tt
  Above-remove j k ((i, w) ∷ m) (a, as') = ground (arith, Above-remove j k m as')

  pub map_remove-IsSorted : (k : K) (m : Map K V) → IsSorted m → IsSorted (map_remove k m)
  unfolding map_remove
  map_remove-IsSorted k [] s = tt
  map_remove-IsSorted k ((j, w) ∷ m) (a, s) =
      ground (arith, Above-remove j k m a, map_remove-IsSorted k m s)

  get-Above : (j k : K) (v : V) (m : Map K V) → Above j m → map_get k m ≡ some v → o.cmp j k ≡ lt
  unfolding map_get
  get-Above j k v [] a h = cc
  get-Above j k v ((i, w) ∷ m) (a, as') h = ground (arith, o.eq_of_cmp k i, get-Above j k v m as')

module _ {ℓ κ μ} {K : Type ℓ} {V : Type κ} ⦃o : Ord K⦄ (P : K × V → Type μ) (p : K → Bool) where
  -- What holds of the entries that `map_get` finds in a range holds of the whole range.
  pub map_range-All :
      (m : Map K V)
      → IsSorted m
      → ((k : K) (v : V) → map_get k m ≡ some v → p k ≡ true → P (k, v))
      → All P (map_range p m)
  unfolding map_get map_range
  map_range-All [] s h = tt
  map_range-All ((j, w) ∷ m) (a, s) h =
      let tail =
        map_range-All m s
          (λ k v e q. h k v (ground (arith, e, get-Above j k v m a e, o.gt_of_lt j k)) q) in
      elim (Bool-cases (p j)) [
        | inl e ↦ rw e (h j w (ground (arith, o.cmp_refl j)) e, tail)
        | inr e ↦ rw e tail
      ]

  pub map_range-elim :
      (m : Map K V)
      → All P (map_range p m)
      → (k : K) (v : V) → map_get k m ≡ some v
      → p k ≡ true
      → P (k, v)
  unfolding map_get map_range
  map_range-elim [] h k v e q = cc
  map_range-elim ((j, w) ∷ m) h k v e q = elim (Bool-cases (k == j)) [
    | inl s ↦
        let ek : k ≡ j = eq_of_== k j s in
        let ev : w ≡ v = ground (arith, rw s at e) in rw (ek, ← ev) (rw (rw ek at q) at h).0
    | inr s ↦ elim (Bool-cases (p j)) [
      | inl t ↦ map_range-elim m (rw t at h).1 k v (rw s at e) q
      | inr t ↦ map_range-elim m (rw t at h) k v (rw s at e) q
    ]
  ]

-- What holds of the entries of a map and of a new entry holds after the insertion.
pub map_insert-All {ℓ κ μ} :
    {K : Type ℓ} {V : Type κ} ⦃o : Ord K⦄ (P : K × V → Type μ) (k : K) (v : V) (m : Map K V)
    → All P m
    → P (k, v)
    → All P (map_insert k v m)
unfolding map_insert
map_insert-All P k v [] h p = (p, tt)
map_insert-All ⦃o⦄ P k v ((j, w) ∷ m) (h, hs) p = elim (Ordering-cases (o.cmp k j)) [
  | inl e ↦ rw (e, All) (p, (h, hs))
  | inr r ↦ elim r [
    | inl e ↦ rw (e, All) (p, hs)
    | inr e ↦ rw (e, All) (h, map_insert-All P k v m hs p)
  ]
]
