-- ===== src/Key/Prefix.antt =====
-- The encoding of core/src/key.rs and component-wise prefixes.
use homebase.Prelude.{
  zero, suc, ◌≡◌, refl, List, [], ◌∷◌, ◌++◌, ◌==◌, ◌&&◌, starts_with, nat_ord, list_ord, arith,
}
use homebase.Prelude.Bytes.{Bytes}
use homebase.Key.{KeyComponent, escape, encode_components}

starts_with-escape :
    (x y s t : Bytes)
    → starts_with (escape x ++ 0 ∷ 0 ∷ s) (escape y ++ 0 ∷ 0 ∷ t) ≡ ((x == y) && starts_with s t)
unfolding escape
starts_with-escape [] [] s t = refl
starts_with-escape [] (zero ∷ y) s t = refl
starts_with-escape [] (suc b ∷ y) s t = ground arith
starts_with-escape (zero ∷ x) [] s t = refl
starts_with-escape (suc a ∷ x) [] s t = ground arith
starts_with-escape (zero ∷ x) (zero ∷ y) s t = starts_with-escape x y s t
starts_with-escape (zero ∷ x) (suc b ∷ y) s t = ground arith
starts_with-escape (suc a ∷ x) (zero ∷ y) s t = ground arith
starts_with-escape (suc a ∷ x) (suc b ∷ y) s t = ground (arith, starts_with-escape x y s t)

-- The encoding of one component sequence is a byte prefix of the encoding of another exactly
-- when the sequence is a component-wise prefix of the other.
pub starts_with-encode_components :
    (a b : List KeyComponent)
    → starts_with (encode_components a) (encode_components b) ≡ starts_with a b
unfolding encode_components
starts_with-encode_components a [] = refl
starts_with-encode_components [] ([] ∷ bs) = refl
starts_with-encode_components [] ((zero ∷ y) ∷ bs) = refl
starts_with-encode_components [] ((suc b ∷ y) ∷ bs) = refl
starts_with-encode_components (x ∷ a) (y ∷ b) = ground (
  arith,
  starts_with-escape x y (encode_components a) (encode_components b),
  starts_with-encode_components a b,
)
