-- ===== src/Prelude/Prefix.antt =====
-- Laws of `starts_with`.
use mathlib.Core.Path.{◌≡◌, refl}
use mathlib.Core.Logic.{◌⊎◌, inl, inr}
use mathlib.Core.Bool.{true, ◌||◌}
use mathlib.Core.List.{List, [], ◌∷◌, ◌++◌}
use native.Mathlib.Omega.{arith}
use Prim.Native.Nat.{◌≤◌}
use homebase.Prelude.Lists.{length, take}
use homebase.Prelude.Order.{Ord, ◌==◌, eq_of_==, ==_self, starts_with}

module _ {ℓ} {K : Type ℓ} ⦃o : Ord K⦄ where
  pub starts_with_self : (xs : List K) → starts_with xs xs ≡ true
  starts_with_self [] = refl
  starts_with_self (x ∷ xs) = ground (arith, ==_self x, starts_with_self xs)

  pub starts_with_trans :
      (xs ys zs : List K)
      → starts_with xs ys ≡ true
      → starts_with ys zs ≡ true
      → starts_with xs zs ≡ true
  starts_with_trans xs ys [] h k = refl
  starts_with_trans xs [] (z ∷ zs) h k = cc
  starts_with_trans [] (y ∷ ys) (z ∷ zs) h k = cc
  starts_with_trans (x ∷ xs) (y ∷ ys) (z ∷ zs) h k =
      ground (arith, eq_of_== x y, starts_with_trans xs ys zs)

  -- Two prefixes of one list are prefixes of one another.
  pub starts_with_total :
      (xs ys zs : List K)
      → starts_with xs ys ≡ true
      → starts_with xs zs ≡ true
      → (starts_with ys zs ≡ true) ⊎ (starts_with zs ys ≡ true)
  starts_with_total xs [] zs h k = inr refl
  starts_with_total xs (y ∷ ys) [] h k = inl refl
  starts_with_total [] (y ∷ ys) (z ∷ zs) h k = cc
  starts_with_total (x ∷ xs) (y ∷ ys) (z ∷ zs) h k =
      ground (arith, eq_of_== x y, eq_of_== x z, ==_self x, starts_with_total xs ys zs)

  pub starts_with-append : (xs ys : List K) → starts_with (xs ++ ys) xs ≡ true
  starts_with-append [] ys = refl
  starts_with-append (x ∷ xs) ys = ground (arith, ==_self x, starts_with-append xs ys)

  -- The rest of a list behind a prefix.
  pub starts_with-split :
      (xs ys : List K) → starts_with xs ys ≡ true → (zs : List K) × (xs ≡ ys ++ zs)
  starts_with-split xs [] h = (xs, refl)
  starts_with-split [] (y ∷ ys) h = cc
  starts_with-split (x ∷ xs) (y ∷ ys) h =
      let (zs, e) = starts_with-split xs ys (ground (arith, h)) in
      (zs, ground (arith, e, eq_of_== x y))

  ==_comm : (x y : K) → (x == y) ≡ (y == x)
  ==_comm x y = ground (arith, o.eq_of_cmp x y, o.eq_of_cmp y x, o.cmp_refl x, o.cmp_refl y)

  -- A list starts with as much of another as it is long exactly if one is a prefix of the other.
  pub starts_with-take :
      (xs ys : List K)
      → starts_with xs (take (length xs) ys) ≡ (starts_with xs ys || starts_with ys xs)
  starts_with-take [] [] = refl
  starts_with-take [] (y ∷ ys) = refl
  starts_with-take (x ∷ xs) [] = refl
  starts_with-take (x ∷ xs) (y ∷ ys) = ground (arith, ==_comm x y, starts_with-take xs ys)

  pub starts_with-snoc :
      (xs ys : List K) (x : K)
      → length ys ≤ length xs
      → starts_with (xs ++ x ∷ []) ys ≡ starts_with xs ys
  starts_with-snoc xs [] x h = refl
  starts_with-snoc [] (y ∷ ys) x h = absurd (omega arith)
  starts_with-snoc (z ∷ xs) (y ∷ ys) x h = ground (arith, starts_with-snoc xs ys x (omega arith))
