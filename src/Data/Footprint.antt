-- ===== src/Data/Footprint.antt =====
-- What an admission stages, and what it writes, stands apart from the lease table: the aggregates,
-- and in the children the operations and the whole batch.
pub mod Operations
pub mod Batch
use homebase.Prelude.{
  ℕ, ◌≡◌, refl, sym, subst, ap, Bool, true, false, List, [], ◌∷◌, ◌++◌, Option, none, some, All,
  nat_ord, list_ord, if◌then◌else◌, Bool-cases, Option-cases, inl, inr,
}
use homebase.Prelude.Bytes.{Bytes, IsByte}
use homebase.Prelude.Map.{Map, map_get, map_insert, map_insert-All}
use homebase.Prelude.Attempt.{IfSome}
use homebase.Key.{Key}
use homebase.Range.{Range, prefix}
use homebase.Reader.{◌>>=◌}
use homebase.Reader.Chain.{IfSome->>=, IfSome-any}
use homebase.Schema.{SpaceId}
use homebase.Schema.Records.{PrefixMetaRecord}
use homebase.Storage.{MemoryStore}
use homebase.Tag.{AdmissionOrder, AdmissionSeq, AdmittedEntry, DeviceId, Ver, order_lt}
use homebase.Leases.Frame.{IsApart}
use homebase.Data.{aggregate_at, newest_covering_reset}
use homebase.Data.Counts.{
  ℤ, Aggregates, aggregate_path, count_point, count_ancestor, count_target, range_loop,
  load_aggregate, reset_count, materialize_aggregate, materialize_path, point_loop,
  apply_point_count, apply_range_count, last_key,
}
use homebase.Data.Keys.{ByteKey, ByteRange, aggregate_path-IsApart}

module _ (space : SpaceId) where
  -- Every staged aggregate stands under a key apart.
  abbrev pub ApartKeys : Aggregates → Type 0
  ApartKeys m = All (λ (e : Bytes × PrefixMetaRecord). IsApart space e.0) m

  abbrev ApartPath : List (Range × Bytes) → Type 0
  ApartPath path = All (λ (node : Range × Bytes). IsApart space node.1) path

  insert-ApartKeys :
      (key : Bytes) (rec : PrefixMetaRecord) (m : Aggregates)
      → IsApart space key
      → ApartKeys m
      → ApartKeys (map_insert key rec m)
  insert-ApartKeys key rec m a h =
      map_insert-All (λ (e : Bytes × PrefixMetaRecord). IsApart space e.0) key rec m h a

  if-ApartKeys :
      (test : Bool) (m n : Aggregates)
      → ApartKeys m
      → ApartKeys n
      → ApartKeys (if test then m else n)
  if-ApartKeys true m n h k = h
  if-ApartKeys false m n h k = k

  range_loop-ApartKeys :
      (device : DeviceId) (seq : AdmissionSeq) (ver : Ver) (order : AdmissionOrder) (removed : ℕ)
      (path : List (Range × Bytes)) (staged : Aggregates)
      → ApartPath path
      → ApartKeys staged
      → IfSome ApartKeys (range_loop device seq ver order removed path staged)
  unfolding range_loop
  range_loop-ApartKeys device seq ver order removed [] staged p h = h
  range_loop-ApartKeys device seq ver order removed ((target, key) ∷ []) staged (p, ps) h =
      IfSome-any ApartKeys (map_get key staged) _
        (λ rec. insert-ApartKeys key (count_target device seq ver order rec) staged p h)
  range_loop-ApartKeys device seq ver order removed ((target, key) ∷ node ∷ path) staged (p, ps) h =
      IfSome-any ApartKeys (map_get key staged) _ (λ rec.
        IfSome-any ApartKeys (count_ancestor device seq ver order rec removed) _ (λ counted.
          range_loop-ApartKeys device seq ver order removed (node ∷ path)
            (map_insert key counted staged) ps (insert-ApartKeys key counted staged p h)))

  module _ (store : MemoryStore) where
    load-ApartKeys :
        (staged : Aggregates) (key : Bytes)
        → IsApart space key
        → ApartKeys staged
        → IfSome ApartKeys (load_aggregate space store staged key)
    unfolding load_aggregate
    load-ApartKeys staged key a h = go (map_get key staged)
      where
        go :
            (found : Option PrefixMetaRecord)
            → IfSome ApartKeys (elim found [
              | some rec ↦ some staged
              | none ↦ aggregate_at space store key >>= λ rec. some (map_insert key rec staged)
            ])
        go (some rec) = h
        go none =
            IfSome-any ApartKeys (aggregate_at space store key) _
              (λ rec. insert-ApartKeys key rec staged a h)

    reset-ApartKeys :
        (reset : Option AdmissionOrder) (key : Bytes) (staged : Aggregates)
        → IsApart space key
        → ApartKeys staged
        → IfSome ApartKeys (reset_count reset key staged)
    reset-ApartKeys none key staged a h = h
    reset-ApartKeys (some reset) key staged a h =
        IfSome-any ApartKeys (map_get key staged) _ (λ rec.
          if-ApartKeys (order_lt rec.count_epoch reset)
            (map_insert key (record rec { live_count = 0; count_epoch = reset }) staged) staged
            (insert-ApartKeys key (record rec { live_count = 0; count_epoch = reset }) staged a h)
            h)

    module _ (events : List AdmittedEntry) where
      materialize-ApartKeys :
          (staged : Aggregates) (target : Range) (key : Bytes)
          → IsApart space key
          → ApartKeys staged
          → IfSome ApartKeys (materialize_aggregate space store staged events target key)
      unfolding materialize_aggregate
      materialize-ApartKeys staged target key a h =
          IfSome->>= ApartKeys ApartKeys (load_aggregate space store staged key) _
            (load-ApartKeys staged key a h)
            (λ loaded l.
              IfSome-any ApartKeys (newest_covering_reset space store target events) _
                (λ reset. reset-ApartKeys reset key loaded a l))

      materialize_path-ApartKeys :
          (path : List (Range × Bytes)) (staged : Aggregates)
          → ApartPath path
          → ApartKeys staged
          → IfSome ApartKeys (materialize_path space store events path staged)
      unfolding materialize_path
      materialize_path-ApartKeys [] staged p h = h
      materialize_path-ApartKeys ((target, key) ∷ path) staged (p, ps) h =
          IfSome->>= ApartKeys ApartKeys
            (materialize_aggregate space store staged events target key) _
            (materialize-ApartKeys staged target key p h)
            (λ materialized m. materialize_path-ApartKeys path materialized ps m)

      module _ (device : DeviceId) (seq : AdmissionSeq) (ver : Ver) (order : AdmissionOrder) where
        point_loop-ApartKeys :
            (delta : ℤ) (path : List (Range × Bytes)) (staged : Aggregates)
            → ApartPath path
            → ApartKeys staged
            → IfSome ApartKeys
                (point_loop space store events device seq ver order delta path staged)
        unfolding point_loop
        point_loop-ApartKeys delta [] staged p h = h
        point_loop-ApartKeys delta ((target, key) ∷ path) staged (p, ps) h =
            IfSome->>= ApartKeys ApartKeys
              (materialize_aggregate space store staged events target key) _
              (materialize-ApartKeys staged target key p h)
              (λ materialized m. IfSome-any ApartKeys (map_get key materialized) _ (λ rec.
                IfSome-any ApartKeys (count_point device seq ver order rec delta) _ (λ counted.
                  point_loop-ApartKeys delta path (map_insert key counted materialized) ps
                    (insert-ApartKeys key counted materialized p m))))

        module _ (bytes : All IsByte space) (staged : Aggregates) (h : ApartKeys staged) where
          pub point_count-ApartKeys :
              (key : Key) (delta : ℤ)
              → ByteKey key
              → IfSome ApartKeys
                  (apply_point_count space store events device seq ver order staged key delta)
          unfolding apply_point_count
          point_count-ApartKeys key delta b =
              point_loop-ApartKeys delta (aggregate_path space (prefix key)) staged
                (aggregate_path-IsApart space bytes (prefix key) b) h

          pub range_count-ApartKeys :
              (range : Range)
              → ByteRange range
              → IfSome ApartKeys
                  (apply_range_count space store events device seq ver order staged range)
          unfolding apply_range_count
          range_count-ApartKeys range b =
              let path = aggregate_path space range in
              let p = aggregate_path-IsApart space bytes range b in
              IfSome->>= ApartKeys ApartKeys (materialize_path space store events path staged) _
                (materialize_path-ApartKeys path staged p h)
                (λ materialized m. IfSome-any ApartKeys (last_key path) _ (λ target_key.
                  IfSome-any ApartKeys (map_get target_key materialized) _ (λ target.
                    range_loop-ApartKeys device seq ver order target.live_count path materialized p
                      m)))
