-- ===== src/Key.antt =====
-- core/src/key.rs: tuple keys and their order-preserving flat encoding. A component is a byte
-- string and a key a list of components; what the private fields of the Rust types guarantee is
-- the predicates `IsComponent` and `IsKey`.
pub mod Decode
pub mod Limits
pub mod Prefix
pub mod Order
pub mod ByteKeys
pub mod Examples
use homebase.Prelude.{
  ℕ, zero, suc, ◌+◌, ◌≤◌, ◌<◌, ◌≡◌, min, Bool, true, false, List, [], ◌∷◌, ◌++◌, length, ltb, ◌==◌,
  if◌then◌else◌, Result, ok, err, ◌>>=◌, map_err, All, nat_ord,
}
use homebase.Prelude.Bytes.{Bytes}

abbrev pub max_components : ℕ
max_components = 256

abbrev pub max_component_len : ℕ
max_component_len = 65535

abbrev pub max_encoded_key_len : ℕ
max_encoded_key_len = 1048576

abbrev pub usize_max : ℕ
usize_max = 18446744073709551615

abbrev pub KeyComponent : Type 0
KeyComponent = Bytes

abbrev pub Key : Type 0
Key = List KeyComponent

pub data KeyError : Type 0 where
  empty empty_component : KeyError
  too_many_components component_too_long encoded_too_long : ℕ → KeyError

pub data DecodeError : Type 0 where
  truncated : DecodeError
  invalid_escape : ℕ → ℕ → DecodeError
  invalid_key : KeyError → DecodeError

-- `usize::saturating_add`
abbrev pub saturating_add : ℕ → ℕ → ℕ
saturating_add a b = min (a + b) usize_max

unfoldable pub component_new : Bytes → Result KeyError KeyComponent
component_new bytes =
    if length bytes == 0
    then err empty_component
    else if ltb max_component_len (length bytes)
    then err (component_too_long (length bytes))
    else ok bytes

-- The inner fold of `encoded_components_len`, from its start at 2.
unfoldable pub escaped_len : ℕ → Bytes → ℕ
escaped_len len [] = len
escaped_len len (b ∷ bs) = escaped_len (saturating_add len ((if b == 0 then 1 else 0) + 1)) bs

unfoldable pub components_len : ℕ → List KeyComponent → ℕ
unfolding escaped_len
components_len total [] = total
components_len total (c ∷ cs) = components_len (saturating_add total (escaped_len 2 c)) cs

unfoldable pub encoded_components_len : List KeyComponent → ℕ
unfolding components_len
encoded_components_len cs = components_len 0 cs

-- `Key::new`
unfoldable pub key_new : List KeyComponent → Result KeyError Key
key_new components =
    if length components == 0
    then err empty
    else if ltb max_components (length components)
    then err (too_many_components (length components))
    else if ltb max_encoded_key_len (encoded_components_len components)
    then err (encoded_too_long (encoded_components_len components))
    else ok components

-- The loop of `Key::from_bytes` over its components.
unfoldable pub components_new : List Bytes → Result KeyError (List KeyComponent)
unfolding component_new
components_new [] = ok []
components_new (b ∷ bs) = do c ← component_new b; cs ← components_new bs; ok (c ∷ cs)

unfoldable pub from_bytes : List Bytes → Result KeyError Key
unfolding components_new key_new
from_bytes components = do cs ← components_new components; key_new cs

-- The bytes of one component: `0x00` becomes `0x00 0x01`.
unfoldable pub escape : Bytes → Bytes
escape [] = []
escape (zero ∷ bs) = 0 ∷ 1 ∷ escape bs
escape (suc b ∷ bs) = suc b ∷ escape bs

unfoldable pub encode_components : List KeyComponent → Bytes
unfolding escape
encode_components [] = []
encode_components (c ∷ cs) = escape c ++ 0 ∷ 0 ∷ encode_components cs

unfoldable pub push_component_byte : Bytes → ℕ → Result DecodeError Bytes
push_component_byte current byte =
    if length current == max_component_len
    then err (invalid_key (component_too_long (length current + 1)))
    else ok (current ++ byte ∷ [])

-- The `while` loop of `decode_components` on the bytes that are left, from offset `i`.
unfoldable pub decode_loop :
    ℕ → Bool → List KeyComponent → Bytes → Bytes → Result DecodeError (List KeyComponent)
unfolding component_new push_component_byte
decode_loop i at_boundary components current [] =
    if at_boundary then ok components else err truncated
decode_loop i at_boundary components current (zero ∷ []) = err truncated
decode_loop i at_boundary components current (zero ∷ zero ∷ rest) = do
  component ← map_err invalid_key (component_new current)
  decode_loop (i + 2) true (components ++ component ∷ []) [] rest
decode_loop i at_boundary components current (zero ∷ suc zero ∷ rest) = do
  current' ← push_component_byte current 0
  decode_loop (i + 2) false components current' rest
decode_loop i at_boundary components current (zero ∷ suc (suc byte) ∷ rest) =
    err (invalid_escape i (suc (suc byte)))
decode_loop i at_boundary components current (suc b ∷ rest) = do
  current' ← push_component_byte current (suc b)
  decode_loop (i + 1) false components current' rest

unfoldable pub decode_components : Bytes → Result DecodeError (List KeyComponent)
unfolding decode_loop
decode_components bytes = decode_loop 0 true [] [] bytes

-- `Key::encode` and `Key::decode`
unfoldable pub key_encode : Key → Bytes
unfolding encode_components
key_encode key = encode_components key

unfoldable pub key_decode : Bytes → Result DecodeError Key
unfolding decode_components key_new
key_decode bytes =
    if ltb max_encoded_key_len (length bytes)
    then err (invalid_key (encoded_too_long (length bytes)))
    else do components ← decode_components bytes; map_err invalid_key (key_new components)

-- What the private field of `KeyComponent` guarantees.
abbrev pub IsComponent : KeyComponent → Type 0
IsComponent c = (0 < length c) × (length c ≤ max_component_len)

-- What the private field of `Key` guarantees.
pub record IsKey (key : Key) : Type 0 where
  pub components : All IsComponent key
  pub nonempty : 0 < length key
  pub depth : length key ≤ max_components
  pub size : length (encode_components key) ≤ max_encoded_key_len
