-- ===== src/Range/Examples.antt =====
-- Ranges over concrete keys.
use homebase.Prelude.{◌<◌, ◌≡◌, true, ◌&&◌, [], ◌∷◌, length, arith, ◌↔◌}
use homebase.Key.{Key, IsKey, encode_components, escape}
use homebase.Range.{prefix, covers_key, covers_range, overlaps, intersection}
use homebase.Range.Coverage.{
  Holds, covers_range_iff, overlaps_iff, covers_key?, covers_key-intersection,
}

abbrev parent : Key
parent = (100 ∷ 98 ∷ []) ∷ []

abbrev child : Key
child = (100 ∷ 98 ∷ []) ∷ (7 ∷ []) ∷ []

parent-IsKey : IsKey parent
unfolding encode_components escape
parent-IsKey = record {
  components = ((omega arith, omega arith), tt);
  nonempty = omega arith;
  depth = omega arith;
  size = omega arith;
}

child-IsKey : IsKey child
unfolding encode_components escape
child-IsKey = record {
  components = ((omega arith, omega arith), ((omega arith, omega arith), tt));
  nonempty = omega arith;
  depth = omega arith;
  size = omega arith;
}

covers_range_iff_example :
    (covers_range (prefix parent) (prefix child) ≡ true)
    ↔ ((k : Key) → Holds (prefix child) k → Holds (prefix parent) k)
covers_range_iff_example = covers_range_iff (prefix parent) (prefix child) parent-IsKey child-IsKey

overlaps_iff_example : (overlaps (prefix child) (prefix parent) ≡ true) ↔ (
    (k : Key) × (0 < length k)
    × (covers_key (prefix child) k ≡ true)
    × (covers_key (prefix parent) k ≡ true))
overlaps_iff_example = overlaps_iff (prefix child) (prefix parent) child-IsKey parent-IsKey

covers_key-intersection_example :
    covers_key? (intersection (prefix parent) (prefix child)) child
    ≡ (covers_key (prefix parent) child && covers_key (prefix child) child)
covers_key-intersection_example = covers_key-intersection (prefix parent) (prefix child) child
