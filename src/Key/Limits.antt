-- ===== src/Key/Limits.antt =====
-- `Key::new` and `Key::decode`: the limits on a key, and the round trip through its flat form.
use homebase.Prelude.{
  ℕ, zero, suc, ◌+◌, ◌≤◌, ◌≡◌, refl, sym, ap, ◌∙◌, subst, min, List, [], ◌∷◌, length, length-append,
  ltb, Result, ok, err, ◌>>=◌, map_err, All, nat_ord, arith, Bool-cases, ◌↔◌, inl, inr,
}
use homebase.Prelude.Bytes.{Bytes}
use homebase.Key.{
  Key, KeyComponent, IsComponent, IsKey, DecodeError, invalid_key, max_encoded_key_len, usize_max,
  escape, escaped_len, components_len, encoded_components_len, encode_components, decode_components,
  key_new, key_encode, key_decode,
}
use homebase.Key.Decode.{decode_components-encode, decode_components_sound}

escaped_len_lem :
    (len : ℕ) (c : Bytes)
    → len ≤ usize_max
    → escaped_len len c ≡ min (len + length (escape c)) usize_max
unfolding escaped_len escape
escaped_len_lem len [] h = omega arith
escaped_len_lem len (zero ∷ bs) h =
    omega (arith, escaped_len_lem (min (len + 2) usize_max) bs (omega arith))
escaped_len_lem len (suc b ∷ bs) h =
    ground (arith, escaped_len_lem (min (len + 1) usize_max) bs (omega arith))

components_len_lem :
    (total : ℕ) (cs : List KeyComponent)
    → total ≤ usize_max
    → components_len total cs ≡ min (total + length (encode_components cs)) usize_max
unfolding components_len encode_components
components_len_lem total [] h = omega arith
components_len_lem total (c ∷ cs) h = omega (
  arith,
  components_len_lem (min (total + escaped_len 2 c) usize_max) cs (omega arith),
  escaped_len_lem 2 c (omega arith),
  length-append (escape c) (0 ∷ 0 ∷ encode_components cs),
)

-- `encoded_components_len` is the length of the encoding, up to its saturation.
pub encoded_components_len_lem :
    (cs : List KeyComponent)
    → encoded_components_len cs ≡ min (length (encode_components cs)) usize_max
unfolding encoded_components_len
encoded_components_len_lem cs = omega (arith, components_len_lem 0 cs (omega arith))

pub key_new-ok : (k : Key) → IsKey k → key_new k ≡ ok k
unfolding key_new
key_new-ok k v = ground (arith, v.nonempty, v.depth, v.size, encoded_components_len_lem k)

pub key_new_sound :
    (cs : List KeyComponent) (k : Key) → All IsComponent cs → key_new cs ≡ ok k → (cs ≡ k) × IsKey k
unfolding key_new
key_new_sound cs k v h =
    let e : cs ≡ k = ground (arith, h) in
    (
      e,
      subst IsKey e (record {
        components = v;
        nonempty = ground (arith, h);
        depth = ground (arith, h);
        size = ground (arith, h, encoded_components_len_lem cs);
      }),
    )

map_err-eq-ok {ℓ κ μ} :
    {E : Type ℓ} {F : Type κ} {A : Type μ} (f : E → F) (r : Result E A) (a : A)
    → map_err f r ≡ ok a
    → r ≡ ok a
map_err-eq-ok f (ok x) a h = ground (arith, h)
map_err-eq-ok f (err e) a h = cc

-- `Key::decode` returns `key` exactly for the encoding of `key`, and only for keys within every
-- limit: the flat form is canonical.
pub key_decode_iff :
    (bytes : Bytes) (key : Key)
    → (key_decode bytes ≡ ok key) ↔ (IsKey key × (key_encode key ≡ bytes))
unfolding key_decode key_encode
key_decode_iff bytes key = (forward, backward)
  where
    checked :
        (r : Result DecodeError (List KeyComponent))
        → decode_components bytes ≡ r
        → (r >>= λ cs. map_err invalid_key (key_new cs)) ≡ ok key
        → IsKey key × (encode_components key ≡ bytes)
    checked (ok cs) e h =
        let (p, q) = decode_components_sound bytes cs e in
        let (s, v) = key_new_sound cs key q (map_err-eq-ok invalid_key (key_new cs) key h) in
        (v, ap encode_components (sym s) ∙ p)
    checked (err x) e h = cc

    forward : key_decode bytes ≡ ok key → IsKey key × (encode_components key ≡ bytes)
    forward h = elim (Bool-cases (ltb max_encoded_key_len (length bytes))) [
      | inl e ↦ cc (rw e at h)
      | inr e ↦ checked (decode_components bytes) refl (rw e at h)
    ]

    backward : IsKey key × (encode_components key ≡ bytes) → key_decode bytes ≡ ok key
    backward (v, e) = ground (
      arith,
      v.size,
      ap length e,
      ap decode_components e,
      decode_components-encode key v.components,
      key_new-ok key v,
    )
