-- ===== src/Schema/AdmissionLog/Parts.antt =====
-- The key of an admitted operation tells its place in the log and its target again.
use homebase.Prelude.{
  ℕ, ◌<◌, ◌^◌, ◌≡◌, refl, length, nat_ord, list_ord, Option, some, All, arith, get_elem?, drop,
}
use homebase.Prelude.Bytes.{Bytes, to_be_bytes, from_be-to_be, length-to_be_bytes}
use homebase.Key.{IsComponent, IsKey, encode_components}
use homebase.Key.Decode.{decode_components-encode}
use homebase.Key.Limits.{key_new-ok}
use homebase.Range.{IsRange, full, prefix}
use homebase.Reader.{◌>>=◌}
use homebase.Schema.{SpaceId}
use homebase.Schema.RangeDelete.Parts.{as_array-ok, to_be_bytes-IsComponent}
use homebase.Schema.AdmissionLog.{
  AdmissionTarget, point, range, target_components, target_of, admission_op_key,
  admission_range_op_key, admission_op_parts, op_components,
}
use homebase.Tag.{AdmissionSeq}

abbrev pub IsTarget : AdmissionTarget → Type 0
IsTarget (point key) = IsKey key
IsTarget (range r) = IsRange r

-- The key of an operation on either kind of target.
unfoldable pub op_key : SpaceId → AdmissionSeq → ℕ → AdmissionTarget → Bytes
unfolding admission_op_key admission_range_op_key
op_key space seq op_index (point key) = admission_op_key space seq op_index key
op_key space seq op_index (range r) = admission_range_op_key space seq op_index r

op_key-encode :
    (space : SpaceId) (seq : AdmissionSeq) (op_index : ℕ) (target : AdmissionTarget)
    → op_key space seq op_index target ≡ encode_components (op_components space seq op_index target)
unfolding op_key admission_op_key admission_range_op_key
op_key-encode space seq op_index (point key) = refl
op_key-encode space seq op_index (range r) = refl

target-components :
    (target : AdmissionTarget) → IsTarget target → All IsComponent (target_components target)
target-components (point key) v = ((omega arith, omega arith), v.components)
target-components (range full) v = ((omega arith, omega arith), tt)
target-components (range (prefix p)) v = ((omega arith, omega arith), v.components)

target_read :
    (target : AdmissionTarget)
    → IsTarget target
    → (seq op_index : ℕ)
    → ◌≡◌ {A = Option (AdmissionSeq × ℕ × AdmissionTarget)}
        (get_elem? (target_components target) 0 >>= λ c5.
          target_of c5 (drop 1 (target_components target)) >>= λ t. some (seq, op_index, t))
        (some (seq, op_index, target))
target_read (point key) v seq op_index = rw (key_new-ok key v) refl
target_read (range full) v seq op_index = refl
target_read (range (prefix p)) v seq op_index = rw (key_new-ok p v) refl

-- For a space id of sixteen bytes, a sequence number and an index that fit their widths, and a
-- valid target: the key of an admitted operation, on a point or on a range, is taken apart into
-- exactly these.
pub admission_op_parts-key :
    (space : SpaceId) (seq : AdmissionSeq) (op_index : ℕ) (target : AdmissionTarget)
    → length space ≡ 16
    → seq < 256 ^ 8
    → op_index < 256 ^ 4
    → IsTarget target
    → admission_op_parts (op_key space seq op_index target) ≡ some (seq, op_index, target)
unfolding admission_op_parts
admission_op_parts-key space seq op_index target h hs ho v =
    let cs = op_components space seq op_index target in
    let decoded = decode_components-encode cs (
      (omega (arith, h), omega (arith, h)),
      (
        (omega arith, omega arith),
        (
          to_be_bytes-IsComponent 8 seq (omega arith) (omega arith),
          (
            (omega arith, omega arith),
            (
              to_be_bytes-IsComponent 4 op_index (omega arith) (omega arith),
              target-components target v,
            ),
          ),
        ),
      ),
    ) in
    rw
      (
        op_key-encode space seq op_index target,
        decoded,
        as_array-ok 8 (to_be_bytes 8 seq) (length-to_be_bytes 8 seq),
        as_array-ok 4 (to_be_bytes 4 op_index) (length-to_be_bytes 4 op_index),
        from_be-to_be 8 seq hs,
        from_be-to_be 4 op_index ho,
      )
      (target_read target v seq op_index)
