-- ===== src/Key/Order.antt =====
-- The encoding of core/src/key.rs and the order of keys.
use homebase.Prelude.{
  zero, suc, ◌≡◌, refl, sym, ap, ◌∙◌, List, [], ◌∷◌, ◌++◌, list_cmp, then, nat_ord, list_ord, arith,
}
use homebase.Prelude.Bytes.{Bytes}
use homebase.Key.{KeyComponent, escape, encode_components}

list_cmp-escape :
    (x y s t : Bytes)
    → list_cmp (escape x ++ 0 ∷ 0 ∷ s) (escape y ++ 0 ∷ 0 ∷ t) ≡ then (list_cmp x y) (list_cmp s t)
unfolding escape
list_cmp-escape [] [] s t = refl
list_cmp-escape [] (zero ∷ y) s t = refl
list_cmp-escape [] (suc b ∷ y) s t = ground arith
list_cmp-escape (zero ∷ x) [] s t = refl
list_cmp-escape (suc a ∷ x) [] s t = ground arith
list_cmp-escape (zero ∷ x) (zero ∷ y) s t = list_cmp-escape x y s t
list_cmp-escape (zero ∷ x) (suc b ∷ y) s t = ground arith
list_cmp-escape (suc a ∷ x) (zero ∷ y) s t = ground arith
list_cmp-escape (suc a ∷ x) (suc b ∷ y) s t = ground (arith, list_cmp-escape x y s t)

-- The encodings of two component sequences compare bytewise as the sequences compare
-- component-wise: below, equal and above alike.
pub list_cmp-encode_components :
    (a b : List KeyComponent) → list_cmp (encode_components a) (encode_components b) ≡ list_cmp a b
unfolding encode_components
list_cmp-encode_components [] [] = refl
list_cmp-encode_components [] ([] ∷ bs) = refl
list_cmp-encode_components [] ((zero ∷ y) ∷ bs) = refl
list_cmp-encode_components [] ((suc b ∷ y) ∷ bs) = refl
list_cmp-encode_components ([] ∷ a) [] = refl
list_cmp-encode_components ((zero ∷ x) ∷ a) [] = refl
list_cmp-encode_components ((suc b ∷ x) ∷ a) [] = refl
list_cmp-encode_components (x ∷ a) (y ∷ b) = ground (
  arith,
  list_cmp-escape x y (encode_components a) (encode_components b),
  list_cmp-encode_components a b,
)

-- Distinct component sequences have distinct encodings.
pub encode_components-injective :
    (a b : List KeyComponent) → encode_components a ≡ encode_components b → a ≡ b
encode_components-injective a b h = list_ord.eq_of_cmp a b (
    sym (list_cmp-encode_components a b)
    ∙ ap (list_cmp (encode_components a)) (sym h)
    ∙ list_ord.cmp_refl (encode_components a))
