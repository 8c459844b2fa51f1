-- ===== src/Data/Written/Puts.antt =====
-- The puts at the end of an admission: nothing staged is lost, and every point record is there.
use homebase.Prelude.{
  ◌≡◌, refl, sym, subst, ap, ◌∙◌, [], ◌∷◌, ◌++◌, some, ◌==◌, nat_ord, list_ord, eq_of_==,
  Bool-cases, inl, inr,
}
use homebase.Prelude.Bytes.{Bytes}
use homebase.Prelude.Map.{Map, map_get}
use homebase.Prelude.Attempt.{Ends, Ends-map, Ends-any}
use homebase.Key.{Key}
use homebase.Range.{Range}
use homebase.Schema.{SpaceId, data_key, range_delete_key}
use homebase.Schema.DataRecord.{DataRecord, data_encode}
use homebase.Schema.LeaseRecord.{CountersRecord}
use homebase.Schema.Records.{DeviceRecord, meta_encode}
use homebase.Schema.RangeDelete.{RangeDeleteRecord, range_delete_encode}
use homebase.Storage.{MemoryStore, WriteBatch, put}
use homebase.Tag.{DeviceId}
use homebase.Data.Counts.{Aggregates}
use homebase.Data.Staging.{Exit}
use homebase.Data.Admit.{put_points, put_ranges, put_aggregates, put_device}
use homebase.Data.Written.{Puts, Puts-left, Puts-right, Extends}

module _ (space : SpaceId) (store : MemoryStore) (device : DeviceId) where
  -- The batch has the point record of every key that is staged.
  abbrev pub PointsIn : Map Key DataRecord → WriteBatch → Type 0
  PointsIn points ops =
      (key : Key) (rec : DataRecord)
      → map_get key points ≡ some rec
      → (bytes : Bytes) × (data_encode rec ≡ some bytes) × Puts (data_key space key) bytes ops

  module _ (S : Exit → Type 0) where
    pub put_points-PointsIn :
        (points : Map Key DataRecord) (ops : WriteBatch)
        → Ends S
            (λ more. Extends ops more × PointsIn points more)
            (put_points space store device points ops)
    unfolding put_points map_get
    put_points-PointsIn [] ops = ((λ k v p. p), (λ key rec e. cc))
    put_points-PointsIn ((k, r) ∷ points) ops =
        let Q : WriteBatch → Type 0 = λ more. Extends ops more × PointsIn ((k, r) ∷ points) more in
        Ends-any S Q (data_encode r) _ (λ value f.
          let here = ops ++ put (data_key space k) value ∷ [] in
          Ends-map S (λ more. Extends here more × PointsIn points more) Q
            (put_points space store device points here) (put_points-PointsIn points here)
            (λ more (x, ps). (
              λ j v p. x j v (Puts-left j v ops (put (data_key space k) value ∷ []) p),
              λ key rec e. elim (Bool-cases (key == k)) [
                | inl q ↦
                    let same : r ≡ rec = let e' = rw q at e in cc in
                    let at = eq_of_== key k q in
                    (
                      value,
                      ap data_encode (sym same) ∙ f,
                      subst (λ (j : Key). Puts (data_key space j) value more) (sym at)
                          (x _ value (
                            Puts-right _ value ops (put (data_key space k) value ∷ []) (inl refl))),
                    )
                | inr q ↦ ps key rec (rw q at e)
              ],
            )))

    pub put_ranges-Extends :
        (ranges : Map Range RangeDeleteRecord) (ops : WriteBatch)
        → Ends S (Extends ops) (put_ranges space store device ranges ops)
    unfolding put_ranges
    put_ranges-Extends [] ops = λ k v p. p
    put_ranges-Extends ((range, rec) ∷ ranges) ops =
        Ends-any S (Extends ops) (range_delete_encode rec) _ (λ value f.
          let last = put (range_delete_key space range) value ∷ [] in
          Ends-map S (Extends (ops ++ last)) (Extends ops)
            (put_ranges space store device ranges (ops ++ last))
            (put_ranges-Extends ranges (ops ++ last))
            (λ more x k v p. x k v (Puts-left k v ops last p)))

  pub put_aggregates-Extends :
      (aggregates : Aggregates) (ops : WriteBatch)
      → Extends ops (put_aggregates space store device aggregates ops)
  unfolding put_aggregates
  put_aggregates-Extends [] ops k v p = p
  put_aggregates-Extends ((key, rec) ∷ aggregates) ops k v p =
      put_aggregates-Extends aggregates (ops ++ put key (meta_encode rec) ∷ []) k v
        (Puts-left k v ops (put key (meta_encode rec) ∷ []) p)

  pub put_device-Extends :
      (rec : DeviceRecord) (c : CountersRecord) (ops : WriteBatch)
      → Extends ops (put_device space store device rec c ops)
  unfolding put_device
  put_device-Extends rec c ops k v p = Puts-left k v ops _ p
