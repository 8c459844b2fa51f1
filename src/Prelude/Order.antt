-- ===== src/Prelude/Order.antt =====
-- Rust's `Ord`: numbers, lists compared lexicographically, and the test `==` that goes with it.
use Prim.Native.Nat.{ℕ, compare, Ordering}
use Prim.Native.Nat.Ordering.{lt, eq, gt}
use mathlib.Core.Path.{◌≡◌, refl}
use mathlib.Core.Logic.{◌↔◌, ◌⊎◌, inl, inr}
use mathlib.Core.Bool.{Bool, true, false, ◌&&◌}
use mathlib.Core.List.{List, [], ◌∷◌}
use native.Mathlib.Omega.{arith}

-- Lexicographic comparison: the second counts where the first finds no difference.
abbrev pub then : Ordering → Ordering → Ordering
then lt next = lt
then gt next = gt
then eq next = next

-- What `Ord` documents of `cmp`: it is antisymmetric, transitive, and agrees with equality.
pub record IsLawful {ℓ} {K : Type ℓ} (cmp : K → K → Ordering) : Type ℓ where
  pub eq_of_cmp : (x y : K) → cmp x y ≡ eq → x ≡ y
  pub lt_trans : (x y z : K) → cmp x y ≡ lt → cmp y z ≡ lt → cmp x z ≡ lt
  pub gt_of_lt : (x y : K) → cmp x y ≡ lt → cmp y x ≡ gt
  pub cmp_refl : (x : K) → cmp x x ≡ eq
  pub lt_of_gt : (x y : K) → cmp x y ≡ gt → cmp y x ≡ lt

pub record Ord {ℓ} (Key : Type ℓ) : Type ℓ where
  pub cmp : Key → Key → Ordering
  pub laws : IsLawful cmp
  pub open laws use *

instance abbrev pub nat_ord : Ord ℕ
nat_ord = record { laws = numbers; cmp = compare }
  where
    numbers : IsLawful compare
    numbers = ground arith

pub Ordering-cases : (o : Ordering) → (o ≡ lt) ⊎ (o ≡ eq) ⊎ (o ≡ gt)
Ordering-cases lt = inl refl
Ordering-cases eq = inr (inl refl)
Ordering-cases gt = inr (inr refl)

infix 50 ◌==◌
abbrev pub ◌==◌ {ℓ} : {K : Type ℓ} ⦃o : Ord K⦄ → K → K → Bool
◌==◌ ⦃o⦄ a b = elim (o.cmp a b) [ Ordering.eq ↦ true | _ ↦ false ]

module _ {ℓ} {K : Type ℓ} ⦃o : Ord K⦄ where
  pub ==_iff : (a b : K) → ((a == b) ≡ true) ↔ (a ≡ b)
  ==_iff a b = (λ h. ground (arith, o.eq_of_cmp a b), λ h. ground (arith, o.cmp_refl a))

  pub eq_of_== : (a b : K) → (a == b) ≡ true → a ≡ b
  eq_of_== a b = (==_iff a b).0

  pub ==_self : (a : K) → (a == a) ≡ true
  ==_self a = (==_iff a a).1 refl

  -- `slice.starts_with(prefix)`
  abbrev pub starts_with : List K → List K → Bool
  starts_with xs [] = true
  starts_with [] (p ∷ ps) = false
  starts_with (x ∷ xs) (p ∷ ps) = (x == p) && starts_with xs ps

  abbrev pub list_cmp : List K → List K → Ordering
  list_cmp [] [] = eq
  list_cmp [] (b ∷ bs) = lt
  list_cmp (a ∷ as') [] = gt
  list_cmp (a ∷ as') (b ∷ bs) = then (o.cmp a b) (list_cmp as' bs)

  list_cmp_refl : (xs : List K) → list_cmp xs xs ≡ eq
  list_cmp_refl [] = refl
  list_cmp_refl (x ∷ xs) = rw (o.cmp_refl x) (list_cmp_refl xs)

  list_eq_of_cmp : (xs ys : List K) → list_cmp xs ys ≡ eq → xs ≡ ys
  list_eq_of_cmp [] [] h = refl
  list_eq_of_cmp [] (y ∷ ys) h = cc
  list_eq_of_cmp (x ∷ xs) [] h = cc
  list_eq_of_cmp (x ∷ xs) (y ∷ ys) h = ground (arith, o.eq_of_cmp x y, list_eq_of_cmp xs ys)

  list_lt_of_gt : (xs ys : List K) → list_cmp xs ys ≡ gt → list_cmp ys xs ≡ lt
  list_lt_of_gt [] [] h = cc
  list_lt_of_gt [] (y ∷ ys) h = cc
  list_lt_of_gt (x ∷ xs) [] h = refl
  list_lt_of_gt (x ∷ xs) (y ∷ ys) h =
      ground (arith, o.eq_of_cmp x y, o.cmp_refl x, o.lt_of_gt x y, list_lt_of_gt xs ys)

  list_gt_of_lt : (xs ys : List K) → list_cmp xs ys ≡ lt → list_cmp ys xs ≡ gt
  list_gt_of_lt [] [] h = cc
  list_gt_of_lt [] (y ∷ ys) h = refl
  list_gt_of_lt (x ∷ xs) [] h = cc
  list_gt_of_lt (x ∷ xs) (y ∷ ys) h =
      ground (arith, o.eq_of_cmp x y, o.cmp_refl x, o.gt_of_lt x y, list_gt_of_lt xs ys)

  list_lt_trans :
      (xs ys zs : List K) → list_cmp xs ys ≡ lt → list_cmp ys zs ≡ lt → list_cmp xs zs ≡ lt
  list_lt_trans xs [] [] h k = cc
  list_lt_trans [] [] (z ∷ zs) h k = refl
  list_lt_trans (x ∷ xs) [] (z ∷ zs) h k = cc
  list_lt_trans [] (y ∷ ys) [] h k = cc
  list_lt_trans [] (y ∷ ys) (z ∷ zs) h k = refl
  list_lt_trans (x ∷ xs) (y ∷ ys) [] h k = cc
  list_lt_trans (x ∷ xs) (y ∷ ys) (z ∷ zs) h k =
      ground (arith, o.eq_of_cmp x y, o.eq_of_cmp y z, o.lt_trans x y z, list_lt_trans xs ys zs)

  pub list_cmp-IsLawful : IsLawful list_cmp
  list_cmp-IsLawful = record {
    cmp_refl = list_cmp_refl;
    eq_of_cmp = list_eq_of_cmp;
    lt_of_gt = list_lt_of_gt;
    gt_of_lt = list_gt_of_lt;
    lt_trans = list_lt_trans;
  }

  instance abbrev pub list_ord : Ord (List K)
  list_ord = record { laws = list_cmp-IsLawful; cmp = list_cmp }
