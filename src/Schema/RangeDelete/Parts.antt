-- ===== src/Schema/RangeDelete/Parts.antt =====
-- The key of a tombstone tells its space and its range again.
use homebase.Prelude.{
  ℕ, ◌+◌, ◌<◌, ◌≤◌, ◌≡◌, refl, true, [], ◌∷◌, length, ◌==◌, ==_iff, nat_ord, list_ord, some, arith,
}
use homebase.Prelude.Bytes.{Bytes, to_be_bytes, from_be-to_be, length-to_be_bytes}
use homebase.Key.{IsComponent}
use homebase.Key.Decode.{decode_components-encode}
use homebase.Key.Limits.{key_new-ok}
use homebase.Range.{Range, IsRange, full, prefix}
use homebase.Schema.{SpaceId, range_delete_key}
use homebase.Schema.RangeDelete.{range_delete_parts, as_array}

pub as_array-ok : (n : ℕ) (bytes : Bytes) → length bytes ≡ n → as_array n bytes ≡ some bytes
as_array-ok n bytes h = rw ((==_iff (length bytes) n).1 h) refl

pub to_be_bytes-IsComponent : (w v : ℕ) → 0 < w → w ≤ 4096 → IsComponent (to_be_bytes w v)
to_be_bytes-IsComponent w v h k =
    let e = length-to_be_bytes w v in (omega (arith, e), omega (arith, e))

-- The key of a tombstone is decoded to the space and the range that it was made of, for a space id
-- of sixteen bytes and a valid range.
pub range_delete_parts-key :
    (space : SpaceId) (range : Range)
    → length space ≡ 16
    → IsRange range
    → range_delete_parts (range_delete_key space range) ≡ some (space, range)
unfolding range_delete_parts range_delete_key
range_delete_parts-key space full h v =
    let decoded = decode_components-encode (space ∷ (1 ∷ []) ∷ to_be_bytes 2 0 ∷ []) (
      (omega (arith, h), omega (arith, h)),
      ((omega arith, omega arith), (to_be_bytes-IsComponent 2 0 (omega arith) (omega arith), tt)),
    ) in
    rw
      (
        decoded,
        as_array-ok 16 space h,
        as_array-ok 2 (to_be_bytes 2 0) (length-to_be_bytes 2 0),
        from_be-to_be 2 0 (omega arith),
      )
      refl
range_delete_parts-key space (prefix []) h v = absurd (omega (arith, v.nonempty))
range_delete_parts-key space (prefix (c ∷ cs)) h v =
    let p = c ∷ cs in
    let depth = length p in
    let decoded = decode_components-encode (space ∷ (1 ∷ []) ∷ to_be_bytes 2 depth ∷ p) (
      (omega (arith, h), omega (arith, h)),
      (
        (omega arith, omega arith),
        (to_be_bytes-IsComponent 2 depth (omega arith) (omega arith), v.components),
      ),
    ) in
    let counted : (length (space ∷ (1 ∷ []) ∷ to_be_bytes 2 depth ∷ p) == 3 + depth) ≡ true =
      (==_iff (length (space ∷ (1 ∷ []) ∷ to_be_bytes 2 depth ∷ p)) (3 + depth)).1 (omega arith) in
    rw
      (
        decoded,
        as_array-ok 16 space h,
        as_array-ok 2 (to_be_bytes 2 depth) (length-to_be_bytes 2 depth),
        from_be-to_be 2 depth (omega (arith, v.depth)),
        counted,
        key_new-ok p v,
      )
      refl
