-- ===== src/Seal/Examples.antt =====
-- A seal on concrete bytes.
use homebase.Prelude.{◌≡◌, refl, [], ok, replicate}
use homebase.Seal.{Seal, IsSeal, aead_v1, seal_encode, seal_decode, validate_payload}
use homebase.Seal.Codec.{seal_decode-encode}

abbrev seal : Seal
seal = record { scheme = aead_v1; nonce = replicate 24 3; aead = replicate 16 200; extension = [] }

seal-IsSeal : IsSeal seal
unfolding validate_payload
seal-IsSeal = record { nonce_len = refl; aead_len = refl; valid = refl }

seal_decode-encode_example : seal_decode (seal_encode seal) ≡ ok seal
seal_decode-encode_example = seal_decode-encode seal seal-IsSeal
