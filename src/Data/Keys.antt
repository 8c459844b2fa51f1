-- ===== src/Data/Keys.antt =====
-- The keys that the data plane writes stand apart from the lease table.
use homebase.Prelude.{
  ℕ, suc, ◌+◌, ◌≡◌, ap, ◌∙◌, zero, false, List, [], ◌∷◌, ◌==◌, nat_ord, list_ord, starts_with, All,
  All-take, take, arith, map, sym, Bool-cases, inl, inr, eq_of_==, ==_self, ◌<◌, length,
}
use homebase.Prelude.Bytes.{Bytes, IsByte, to_be_bytes-IsByte}
use homebase.Key.{Key, KeyComponent, encode_components}
use homebase.Key.Prefix.{starts_with-encode_components}
use homebase.Key.ByteKeys.{encode_components-IsByte}
use homebase.Range.{Range, full, prefix}
use homebase.Schema.{
  SpaceId, data_key, range_delete_key, prefix_meta_key, root_meta_key, device_key, counters_key,
  lease_by_id_scan, u64_component, u32_component, depth_component, root_name, counters_name,
  range_components,
}
use homebase.Schema.Keys.{lease_by_prefix_scan_all}
use homebase.Schema.RangeDelete.{beginnings, covering_ranges}
use homebase.Schema.AdmissionLog.{admission_header_key, admission_op_key, admission_range_op_key}
use homebase.Leases.Frame.{IsApart}
use homebase.Tag.{AdmissionSeq, DeviceId}
use homebase.Data.{aggregate_key}
use homebase.Data.Counts.{aggregate_path}

-- The key is made of byte strings.
abbrev pub ByteKey : Key → Type 0
ByteKey key = All (All IsByte) key

abbrev pub ByteRange : Range → Type 0
ByteRange full = Unit
ByteRange (prefix p) = ByteKey p

module _ (space : SpaceId) (bytes : All IsByte space) where
  same_space :
      (a b : List KeyComponent)
      → starts_with (encode_components (space ∷ a)) (encode_components (space ∷ b))
        ≡ starts_with a b
  same_space a b =
      starts_with-encode_components (space ∷ a) (space ∷ b) ∙ ground (arith, ==_self space)

  -- Keys of another kind than the two lease indexes.
  kind-IsApart :
      (kind : ℕ) (cs : List KeyComponent)
      → (kind == 2) ≡ false
      → (kind == 3) ≡ false
      → kind < 256
      → ByteKey cs
      → IsApart space (encode_components (space ∷ (kind ∷ []) ∷ cs))
  unfolding lease_by_id_scan lease_by_prefix_scan_all
  kind-IsApart kind cs h2 h3 small b = record {
    off_id = same_space ((kind ∷ []) ∷ cs) ((3 ∷ []) ∷ []) ∙ ground (arith, h3);
    off_prefix = same_space ((kind ∷ []) ∷ cs) ((2 ∷ []) ∷ []) ∙ ground (arith, h2);
    bytes = encode_components-IsByte (space ∷ (kind ∷ []) ∷ cs) (bytes, ((small, tt), b));
  }

  pub data_key-IsApart : (key : Key) → ByteKey key → IsApart space (data_key space key)
  unfolding data_key
  data_key-IsApart key b = kind-IsApart 0 key (ground arith) (ground arith) (omega arith) b

  range_components-bytes : (range : Range) → ByteRange range → ByteKey (range_components range)
  range_components-bytes full b = (to_be_bytes-IsByte 2 0, tt)
  range_components-bytes (prefix p) b = (to_be_bytes-IsByte 2 (length p), b)

  pub range_delete_key-IsApart :
      (range : Range) → ByteRange range → IsApart space (range_delete_key space range)
  unfolding range_delete_key
  range_delete_key-IsApart range b =
      kind-IsApart 1 (range_components range) (ground arith) (ground arith) (omega arith)
        (range_components-bytes range b)

  pub aggregate_key-IsApart :
      (range : Range) → ByteRange range → IsApart space (aggregate_key space range)
  unfolding root_meta_key prefix_meta_key
  aggregate_key-IsApart full b =
      kind-IsApart 4 (root_name ∷ []) (ground arith) (ground arith) (omega arith) (omega arith, tt)
  aggregate_key-IsApart (prefix p) b =
      kind-IsApart 6 (depth_component (length p) ∷ p) (ground arith) (ground arith) (omega arith)
        (to_be_bytes-IsByte 2 (length p), b)

  pub device_key-IsApart :
      (device : DeviceId) → All IsByte device → IsApart space (device_key space device)
  unfolding device_key
  device_key-IsApart device b =
      kind-IsApart 5 (device ∷ []) (ground arith) (ground arith) (omega arith) (b, tt)

  pub counters_key-IsApart : IsApart space (counters_key space)
  unfolding counters_key
  counters_key-IsApart =
      kind-IsApart 4 (counters_name ∷ []) (ground arith) (ground arith) (omega arith)
        (omega arith, tt)

  -- The device's record and the counters stand under different keys.
  pub device_key-counters_key :
      (device : DeviceId) → (device_key space device == counters_key space) ≡ false
  unfolding device_key counters_key
  device_key-counters_key device =
      let scan = encode_components (space ∷ (5 ∷ []) ∷ []) in
      elim (Bool-cases (device_key space device == counters_key space)) [
        | inr q ↦ q
        | inl q ↦
            let e = eq_of_== (device_key space device) (counters_key space) q in
            let on = same_space ((5 ∷ []) ∷ device ∷ []) ((5 ∷ []) ∷ []) in
            let off = same_space ((4 ∷ []) ∷ counters_name ∷ []) ((5 ∷ []) ∷ []) in
            cc (sym on ∙ ap (λ (k : Bytes). starts_with k scan) e ∙ off)
      ]

  pub header_key-IsApart : (seq : AdmissionSeq) → IsApart space (admission_header_key space seq)
  unfolding admission_header_key
  header_key-IsApart seq =
      kind-IsApart 7 (u64_component seq ∷ (0 ∷ []) ∷ []) (ground arith) (ground arith) (omega arith)
        (to_be_bytes-IsByte 8 seq, ((omega arith, tt), tt))

  log_key-IsApart :
      (seq : AdmissionSeq) (op_index : ℕ) (target : List KeyComponent)
      → ByteKey target
      → IsApart space (
          encode_components
            (space ∷ (7 ∷ []) ∷ u64_component seq ∷ (1 ∷ []) ∷ u32_component op_index ∷ target))
  log_key-IsApart seq op_index target b =
      kind-IsApart 7 (u64_component seq ∷ (1 ∷ []) ∷ u32_component op_index ∷ target) (ground arith)
        (ground arith) (omega arith)
        (to_be_bytes-IsByte 8 seq, ((omega arith, tt), (to_be_bytes-IsByte 4 op_index, b)))

  pub op_key-IsApart :
      (seq : AdmissionSeq) (op_index : ℕ) (key : Key)
      → ByteKey key
      → IsApart space (admission_op_key space seq op_index key)
  unfolding admission_op_key
  op_key-IsApart seq op_index key b =
      log_key-IsApart seq op_index ((0 ∷ []) ∷ key) ((omega arith, tt), b)

  pub range_op_key-IsApart :
      (seq : AdmissionSeq) (op_index : ℕ) (range : Range)
      → ByteRange range
      → IsApart space (admission_range_op_key space seq op_index range)
  unfolding admission_range_op_key
  range_op_key-IsApart seq op_index full b =
      log_key-IsApart seq op_index ((1 ∷ []) ∷ []) ((omega arith, tt), tt)
  range_op_key-IsApart seq op_index (prefix p) b =
      log_key-IsApart seq op_index ((2 ∷ []) ∷ p) ((omega arith, tt), b)

  path_of : List Range → List (Range × Bytes)
  path_of ranges = map (λ node. (node, aggregate_key space node)) ranges

  beginnings-IsApart :
      (p : Key) (n depth : ℕ)
      → ByteKey p
      → All (λ node. IsApart space node.1) (path_of (map prefix (beginnings p n depth)))
  unfolding beginnings path_of
  beginnings-IsApart p zero depth b = tt
  beginnings-IsApart p (suc n) depth b = (
    aggregate_key-IsApart (prefix (take depth p)) (All-take (All IsByte) depth p b),
    beginnings-IsApart p n (depth + 1) b,
  )

  pub aggregate_path-IsApart :
      (range : Range)
      → ByteRange range
      → All (λ node. IsApart space node.1) (aggregate_path space range)
  unfolding aggregate_path covering_ranges path_of
  aggregate_path-IsApart full b = (aggregate_key-IsApart full tt, tt)
  aggregate_path-IsApart (prefix p) b =
      (aggregate_key-IsApart full tt, beginnings-IsApart p (length p) 1 b)
