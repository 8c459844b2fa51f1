-- ===== src/Seal/Codec.antt =====
-- The codec of seals (core/src/seal.rs).
use homebase.Prelude.{
  ◌≡◌, refl, sym, ap, ◌∙◌, [], ◌∷◌, ◌++◌, length, length-append, take, drop, take-append,
  drop-append, drop-drop, ok, arith, nat_ord, ltb, ◌==◌, false,
}
use homebase.Prelude.Bytes.{Bytes, to_be_bytes, from_be_bytes, length-to_be_bytes}
use homebase.Seal.{
  Seal, IsSeal, SealScheme, aead_v1, seal_encode, seal_decode, validate_payload, validate_extension,
}

no_extension :
    (scheme : SealScheme) (extension : Bytes)
    → validate_extension scheme extension ≡ ok tt
    → extension ≡ []
unfolding validate_extension
no_extension aead_v1 [] e = refl
no_extension aead_v1 (b ∷ bs) e =
    let long : (length (b ∷ bs) == 0) ≡ false = ground arith in let bad = rw long at e in cc

-- An `AeadV1` seal, and there is no other, has no payload.
pub seal_extension : (s : Seal) → IsSeal s → s.extension ≡ []
unfolding validate_payload
seal_extension s v = no_extension s.scheme s.extension v.valid

only_scheme : (scheme : SealScheme) → scheme ≡ aead_v1
only_scheme aead_v1 = refl

pub length-seal_encode : (s : Seal) → IsSeal s → length (seal_encode s) ≡ 45
unfolding seal_encode
length-seal_encode s v =
    rw (seal_extension s v)
      (simp (length-append, length-to_be_bytes) (omega (arith, v.nonce_len, v.aead_len)))

module _ (nonce aead x : Bytes) (hn : length nonce ≡ 24) (ha : length aead ≡ 16) where
  nonce_part : take 24 (nonce ++ (aead ++ x)) ≡ nonce
  nonce_part = take-append 24 nonce (aead ++ x) hn

  behind_nonce : drop 24 (nonce ++ (aead ++ x)) ≡ aead ++ x
  behind_nonce = drop-append 24 nonce (aead ++ x) hn

  behind_aead : drop 40 (nonce ++ (aead ++ x)) ≡ x
  behind_aead =
      sym (drop-drop 24 16 (nonce ++ (aead ++ x)))
      ∙ ap (drop 16) behind_nonce
      ∙ drop-append 16 aead x ha

  plain_seal : Seal
  plain_seal = record { scheme = aead_v1; nonce = nonce; aead = aead; extension = [] }

decode_parts :
    (nonce aead : Bytes) (hn : length nonce ≡ 24) (ha : length aead ≡ 16)
    → seal_decode (0 ∷ (nonce ++ (aead ++ (0 ∷ 0 ∷ 0 ∷ 0 ∷ []))))
      ≡ ok (plain_seal nonce aead [] hn ha)
unfolding seal_decode plain_seal from_be_bytes
decode_parts nonce aead hn ha =
    let x = 0 ∷ 0 ∷ 0 ∷ 0 ∷ [] in
    let long : ltb (length (0 ∷ (nonce ++ (aead ++ x)))) 45 ≡ false =
      ground (arith, length-append nonce (aead ++ x), length-append aead x, hn, ha) in
    let rest : drop 44 (nonce ++ (aead ++ x)) ≡ [] =
      sym (drop-drop 40 4 (nonce ++ (aead ++ x))) ∙ ap (drop 4) (behind_aead nonce aead x hn ha) in
    rw
      (
        long,
        nonce_part nonce aead x hn ha,
        behind_nonce nonce aead x hn ha,
        take-append 16 aead x ha,
        behind_aead nonce aead x hn ha,
        rest,
      )
      refl

-- Every valid seal is decoded from its encoding.
pub seal_decode-encode : (s : Seal) → IsSeal s → seal_decode (seal_encode s) ≡ ok s
unfolding seal_encode to_be_bytes plain_seal
seal_decode-encode s v =
    let e = seal_extension s v in
    ap seal_decode (rw (only_scheme s.scheme, e) refl)
    ∙ decode_parts s.nonce s.aead v.nonce_len v.aead_len
    ∙ ap ok (λ i. record {
      scheme = sym (only_scheme s.scheme) i;
      nonce = s.nonce;
      aead = s.aead;
      extension = sym e i;
    })
