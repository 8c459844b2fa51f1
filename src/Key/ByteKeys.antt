-- ===== src/Key/ByteKeys.antt =====
-- The flat form of byte components is a byte string.
use homebase.Prelude.{zero, suc, List, [], ◌∷◌, All, All-append, arith}
use homebase.Prelude.Bytes.{Bytes, IsByte}
use homebase.Key.{KeyComponent, escape, encode_components}

escape-IsByte : (c : Bytes) → All IsByte c → All IsByte (escape c)
unfolding escape
escape-IsByte [] h = tt
escape-IsByte (zero ∷ c) (h, hs) = (omega arith, (omega arith, escape-IsByte c hs))
escape-IsByte (suc b ∷ c) (h, hs) = (h, escape-IsByte c hs)

pub encode_components-IsByte :
    (cs : List KeyComponent) → All (All IsByte) cs → All IsByte (encode_components cs)
unfolding encode_components
encode_components-IsByte [] h = tt
encode_components-IsByte (c ∷ cs) (h, hs) =
    All-append IsByte (escape c) (0 ∷ 0 ∷ encode_components cs) (escape-IsByte c h)
      (omega arith, (omega arith, encode_components-IsByte cs hs))
