-- ===== src/Seal.antt =====
-- core/src/seal.rs: client-computed AEAD seal metadata.
pub mod Codec
pub mod Examples
use homebase.Prelude.{
  ℕ, ◌+◌, ◌%◌, ◌^◌, ◌≡◌, [], ◌∷◌, ◌++◌, length, ltb, ◌==◌, nat_ord, if◌then◌else◌, Result, ok, err,
  take, drop, replicate, get_or, ◌>>=◌, map_err,
}
use homebase.Prelude.Bytes.{Bytes, to_be_bytes, from_be_bytes}

abbrev pub seal_nonce_len : ℕ
seal_nonce_len = 24

abbrev pub seal_aead_tag_len : ℕ
seal_aead_tag_len = 16

abbrev pub seal_fixed_header_len : ℕ
seal_fixed_header_len = 1 + seal_nonce_len + seal_aead_tag_len

pub data SealScheme : Type 0 where
  aead_v1 : SealScheme

abbrev pub to_u8 : SealScheme → ℕ
to_u8 aead_v1 = 0

pub data SealPayloadError : Type 0 where
  unexpected_payload : SealScheme → ℕ → SealPayloadError

pub data SealDecodeError : Type 0 where
  malformed : SealDecodeError
  unknown_scheme : ℕ → SealDecodeError
  payload : SealPayloadError → SealDecodeError

-- `SealScheme::from_u8`; the error carries the unknown byte.
unfoldable pub from_u8 : ℕ → Result ℕ SealScheme
from_u8 value = if value == 0 then ok aead_v1 else err value

pub record Seal : Type 0 where
  pub scheme : SealScheme
  pub nonce : Bytes
  pub aead : Bytes
  pub extension : Bytes

abbrev pub empty_aead_v1 : Seal
empty_aead_v1 = record {
  scheme = aead_v1;
  nonce = replicate seal_nonce_len 0;
  aead = replicate seal_aead_tag_len 0;
  extension = [];
}

unfoldable pub validate_extension : SealScheme → Bytes → Result SealPayloadError (Unit {0})
validate_extension aead_v1 extension =
    if length extension == 0 then ok tt else err (unexpected_payload aead_v1 (length extension))

-- `Seal::validate_payload`; the field `payload` is called `extension` here.
unfoldable pub validate_payload : Seal → Result SealPayloadError (Unit {0})
unfolding validate_extension
validate_payload s = validate_extension s.scheme s.extension

unfoldable pub seal_encode : Seal → Bytes
seal_encode s =
    to_u8 s.scheme
    ∷ (s.nonce ++ (s.aead ++ (to_be_bytes 4 (length s.extension % 2 ^ 32) ++ s.extension)))

-- `bytes.get(len_start + 4..)`, filtered by its length.
abbrev decode_payload : Bytes → ℕ → Result SealDecodeError Bytes
decode_payload rest payload_len = if length rest == payload_len then ok rest else err malformed

unfoldable pub seal_decode : Bytes → Result SealDecodeError Seal
unfolding from_u8 validate_payload
seal_decode bytes = if ltb (length bytes) (seal_fixed_header_len + 4) then err malformed else do
  scheme ← map_err unknown_scheme (from_u8 (get_or bytes 0 0))
  let nonce = take seal_nonce_len (drop 1 bytes)
  let tag_start = 1 + seal_nonce_len
  let aead = take seal_aead_tag_len (drop tag_start bytes)
  let len_start = tag_start + seal_aead_tag_len
  let payload_len = from_be_bytes (take 4 (drop len_start bytes))
  extension ← decode_payload (drop (len_start + 4) bytes) payload_len
  let seal : Seal = record { scheme = scheme; nonce = nonce; aead = aead; extension = extension }
  done ← map_err payload (validate_payload seal)
  ok seal

-- What the array types of the fields guarantee, and that the scheme allows the payload.
pub record IsSeal (s : Seal) : Type 0 where
  pub nonce_len : length s.nonce ≡ seal_nonce_len
  pub aead_len : length s.aead ≡ seal_aead_tag_len
  pub valid : validate_payload s ≡ ok tt
