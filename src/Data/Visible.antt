-- ===== src/Data/Visible.antt =====
-- What a reader sees of a point: it is visible exactly when it was set after every tombstone that
-- covers it.
use homebase.Prelude.{
  ◌≡◌, refl, sym, ap, subst, ◌∙◌, Bool, true, false, List, [], ◌∷◌, length, map, if◌then◌else◌,
  nat_ord, list_ord, Option, Option-cases, none, some, All, arith, ◌↔◌, inl, inr,
}
use homebase.Prelude.Bytes.{Bytes}
use homebase.Key.{Key, IsKey}
use homebase.Tag.{
  AdmissionOrder, Mutation, OpaqueValue, point_key, set, delete, delete_range, order, order_lt,
}
use homebase.Range.{Range, IsRange, prefix}
use homebase.Schema.{SpaceId, range_delete_key}
use homebase.Schema.RangeDelete.{
  RangeDeleteRecord, range_delete_decode, covering_ranges, covering_range_delete_keys,
}
use homebase.Schema.RangeDelete.Parts.{range_delete_parts-key}
use homebase.Schema.RangeDelete.Covering.{Covered, covering_ranges-IsRange, covering_ranges-Covered}
use homebase.Schema.DataRecord.{DataRecord}
use homebase.Storage.{MemoryStore, get}
use homebase.Data.{
  after, newer, newest_of, record_order, range_delete_at, tombstones, covering_records,
  covering_range_delete, point_record_visible,
}
use mathlib.Core.Option

module _ (o : AdmissionOrder) where
  -- Every one of the records is older than `o`.
  abbrev pub Older : RangeDeleteRecord → Type 0
  Older rec = order_lt (record_order rec) o ≡ true

  abbrev OlderOption : Option RangeDeleteRecord → Type 0
  OlderOption none = Unit
  OlderOption (some rec) = Older rec

  order_lt-older :
      (a b : AdmissionOrder) → order_lt a b ≡ false → order_lt a o ≡ true → order_lt b o ≡ true
  order_lt-older a b h k = ground (arith, h, k)

  order_lt-newer :
      (a b : AdmissionOrder) → order_lt a b ≡ true → order_lt b o ≡ true → order_lt a o ≡ true
  order_lt-newer a b h k = ground (arith, h, k)

  newer-Older :
      (newest : Option RangeDeleteRecord) (rec : RangeDeleteRecord)
      → Older (newer newest rec) ↔ (OlderOption newest × Older rec)
  newer-Older none rec = (λ h. (tt, h), λ h. h.1)
  newer-Older (some current) rec = on_test (order_lt (record_order current) (record_order rec)) refl
    where
      on_test :
          (test : Bool)
          → order_lt (record_order current) (record_order rec) ≡ test
          → Older (if test then rec else current) ↔ (Older current × Older rec)
      on_test true q =
          (λ h. (order_lt-newer (record_order current) (record_order rec) q h, h), λ h. h.1)
      on_test false q =
          (λ h. (h, order_lt-older (record_order current) (record_order rec) q h), λ h. h.0)

  newest_of-Older :
      (newest : Option RangeDeleteRecord) (recs : List RangeDeleteRecord)
      → OlderOption (newest_of newest recs) ↔ (OlderOption newest × All Older recs)
  unfolding newest_of
  newest_of-Older newest [] = (λ h. (h, tt), λ h. h.0)
  newest_of-Older newest (rec ∷ recs) =
      let ih = newest_of-Older (some (newer newest rec)) recs in
      let step = newer-Older newest rec in
      (
        λ h. let (m, hs) = ih.0 h in let (n, r) = step.0 m in (n, (r, hs)),
        λ (n, (r, hs)). ih.1 (step.1 (n, r), hs),
      )

  after-Older :
      (newest : Option RangeDeleteRecord)
      → (after (Option.map record_order newest) o ≡ true) ↔ OlderOption newest
  after-Older none = (λ h. tt, λ h. refl)
  after-Older (some rec) = (λ h. h, λ h. h)

module _ (space : SpaceId) (store : MemoryStore) where
  -- The tombstone of the range is absent or decodes.
  abbrev pub Readable : Range → Type 0
  Readable r = (found : Option RangeDeleteRecord) × (range_delete_at space store r ≡ some found)

  -- What holds of the tombstone of the range, if it has one.
  abbrev pub Tombstone : (RangeDeleteRecord → Type 0) → Range → Type 0
  Tombstone P r = (t : RangeDeleteRecord) → range_delete_at space store r ≡ some (some t) → P t

  module _ (r : Range) where
    stored-none :
        get store (range_delete_key space r) ≡ none → range_delete_at space store r ≡ some none
    unfolding range_delete_at
    stored-none q = rw q refl

    stored-bytes :
        (bytes : Bytes)
        → get store (range_delete_key space r) ≡ some bytes
        → range_delete_at space store r ≡ Option.map some (range_delete_decode r bytes)
    unfolding range_delete_at
    stored-bytes bytes q = rw q refl

  module _ (width : length space ≡ 16) (r : Range) (v : IsRange r) (keys : List Bytes) where
    tombstones-none :
        range_delete_at space store r ≡ some none
        → tombstones space store (range_delete_key space r ∷ keys) ≡ tombstones space store keys
    unfolding tombstones
    tombstones-none e = elim (Option-cases (get store (range_delete_key space r))) [
      | inl q ↦ rw (tombstones, q) refl
      | inr (bytes, q) ↦
          let at = stored-bytes r bytes q in
          elim (Option-cases (range_delete_decode r bytes)) [
            | inl n ↦ let bad = at ∙ ap (Option.map some) n in cc
            | inr (t, n) ↦ let good = at ∙ ap (Option.map some) n in cc
          ]
    ]

    tombstones-some :
        (t : RangeDeleteRecord) (recs : List RangeDeleteRecord)
        → range_delete_at space store r ≡ some (some t)
        → tombstones space store keys ≡ some recs
        → tombstones space store (range_delete_key space r ∷ keys) ≡ some (t ∷ recs)
    unfolding tombstones
    tombstones-some t recs e f = elim (Option-cases (get store (range_delete_key space r))) [
      | inl q ↦ let absent = stored-none r q in cc
      | inr (bytes, q) ↦
          let at = stored-bytes r bytes q in
          elim (Option-cases (range_delete_decode r bytes)) [
            | inl n ↦ let bad = at ∙ ap (Option.map some) n in cc
            | inr (t', n) ↦
                let parts = range_delete_parts-key space r width v in
                let good = at ∙ ap (Option.map some) n in
                let same : t' ≡ t = cc in rw (tombstones, q, parts, n, f, same) refl
          ]
    ]

  module _ (P : RangeDeleteRecord → Type 0) (width : length space ≡ 16) where
    tombstones-All :
        (ranges : List Range)
        → All IsRange ranges
        → All Readable ranges
        → (recs : List RangeDeleteRecord) × (tombstones space store
              (map (range_delete_key space) ranges)
            ≡ some recs)
          × (All P recs ↔ All (Tombstone P) ranges)
    unfolding tombstones range_delete_at
    tombstones-All [] v h = ([], refl, ((λ u. tt), (λ u. tt)))
    tombstones-All (r ∷ ranges) (v, vs) ((found, e), hs) =
        let (recs, f, iff) = tombstones-All ranges vs hs in
        elim (Option-cases found) [
          | inl q ↦ (
            recs,
            tombstones-none width r v (map (range_delete_key space) ranges) (e ∙ ap some q) ∙ f,
            (λ h. ((λ t k. let unfound = sym (e ∙ ap some q) ∙ k in cc), iff.0 h), λ h. iff.1 h.1),
          )
          | inr (t, q) ↦ (
            t ∷ recs,
            tombstones-some width r v (map (range_delete_key space) ranges) t recs (e ∙ ap some q)
                f,
            (
              λ (h, hs). (
                (λ t' k.
                    let found_twice = sym (e ∙ ap some q) ∙ k in
                    let same : t ≡ t' = cc in subst P same h),
                iff.0 hs,
              ),
              λ (h, hs). (h t (e ∙ ap some q), iff.1 hs),
            ),
          )
        ]

module _ (space : SpaceId) (store : MemoryStore) (rec : DataRecord) (key : Key)
    (width : length space ≡ 16) (v : IsKey key)
    (readable : Covered (Readable space store) (prefix key)) where
  -- The point is set, and set after every tombstone of a range that covers its key.
  abbrev pub Standing : Type 0
  Standing =
      ((value : Bytes) × (rec.entry.device_entry.mutation ≡ set key value))
      × Covered (Tombstone space store (Older (order rec.entry.admission))) (prefix key)

  abbrev Checks : Type 0
  Checks =
      (visible : Bool) × (point_record_visible space store rec ≡ some visible)
      × ((visible ≡ true) ↔ Standing)

  set-Checks : (value : Bytes) → rec.entry.device_entry.mutation ≡ set key value → Checks
  unfolding point_record_visible covering_range_delete covering_records covering_range_delete_keys
  set-Checks value m =
      let o = order rec.entry.admission in
      let P = Older o in
      let (recs, e, iff) =
        tombstones-All space store P width (covering_ranges (prefix key))
          (covering_ranges-IsRange key v)
          ((covering_ranges-Covered (Readable space store) key v).1 readable) in
      let all = covering_ranges-Covered (Tombstone space store P) key v in
      let newest = newest_of none recs in
      (
        after (Option.map record_order newest) o,
        rw (m, e) refl,
        (
          λ h. (
            (value, m),
            all.0 (iff.0 ((newest_of-Older o none recs).0 ((after-Older o newest).0 h)).1),
          ),
          λ (w, h).
              (after-Older o newest).1 ((newest_of-Older o none recs).1 (tt, iff.1 (all.1 h))),
        ),
      )

  delete-Checks : rec.entry.device_entry.mutation ≡ delete key → Checks
  unfolding point_record_visible
  delete-Checks m =
      (false, rw m refl, ((λ h. cc), (λ ((value, e), h). let set_too = sym m ∙ e in cc)))

  -- For a space id of sixteen bytes and a point record under a valid key, set or deleted, where the
  -- tombstones that cover the key are all absent or readable: the check of visibility never panics,
  -- and the record is visible exactly when it sets the key, and does so after every tombstone of a
  -- range that covers the key.
  pub point_record_visible_iff :
      point_key rec.entry.device_entry.mutation ≡ some key
      → (visible : Bool) × (point_record_visible space store rec ≡ some visible)
        × ((visible ≡ true) ↔ Standing)
  unfolding point_key
  point_record_visible_iff = on_mutation rec.entry.device_entry.mutation refl
    where
      on_mutation :
          (m : Mutation OpaqueValue)
          → rec.entry.device_entry.mutation ≡ m
          → point_key m ≡ some key
          → Checks
      on_mutation (set k value) e h = let same : k ≡ key = cc in set-Checks value (rw same at e)
      on_mutation (delete k) e h = let same : k ≡ key = cc in delete-Checks (rw same at e)
      on_mutation (delete_range r) e h = cc
