-- ===== src/Key/Examples.antt =====
-- Keys on concrete bytes.
use homebase.Prelude.{◌≡◌, refl, [], ◌∷◌, length, ok, arith, ◌↔◌, list_cmp, nat_ord, min}
use homebase.Key.{
  Key, IsKey, encode_components, decode_components, key_encode, key_decode, escape,
  encoded_components_len, usize_max,
}
use homebase.Key.Decode.{decode_components-encode}
use homebase.Key.Limits.{key_decode_iff, encoded_components_len_lem}
use homebase.Key.Order.{list_cmp-encode_components}
use homebase.Key.Prefix.{starts_with-encode_components}
use homebase.Prelude.{starts_with, list_ord}

-- The components `db` and a byte zero, and `d`.
abbrev nested : Key
nested = (100 ∷ 98 ∷ []) ∷ (0 ∷ []) ∷ []

abbrev flat : Key
flat = (100 ∷ []) ∷ []

decode_components-encode_example : decode_components (encode_components nested) ≡ ok nested
decode_components-encode_example =
    decode_components-encode nested ((omega arith, omega arith), ((omega arith, omega arith), tt))

encode_components_test : encode_components nested ≡ 100 ∷ 98 ∷ 0 ∷ 0 ∷ 0 ∷ 1 ∷ 0 ∷ 0 ∷ []
unfolding encode_components escape
encode_components_test = refl

key_decode_iff_example :
    (key_decode (100 ∷ 98 ∷ 0 ∷ 0 ∷ 0 ∷ 1 ∷ 0 ∷ 0 ∷ []) ≡ ok nested)
    ↔ (IsKey nested × (key_encode nested ≡ 100 ∷ 98 ∷ 0 ∷ 0 ∷ 0 ∷ 1 ∷ 0 ∷ 0 ∷ []))
key_decode_iff_example = key_decode_iff (100 ∷ 98 ∷ 0 ∷ 0 ∷ 0 ∷ 1 ∷ 0 ∷ 0 ∷ []) nested

list_cmp-encode_components_example :
    list_cmp (encode_components nested) (encode_components flat) ≡ list_cmp nested flat
list_cmp-encode_components_example = list_cmp-encode_components nested flat

starts_with-encode_components_example :
    starts_with (encode_components nested) (encode_components flat) ≡ starts_with nested flat
starts_with-encode_components_example = starts_with-encode_components nested flat

encoded_components_len_lem_example :
    encoded_components_len nested ≡ min (length (encode_components nested)) usize_max
encoded_components_len_lem_example = encoded_components_len_lem nested
