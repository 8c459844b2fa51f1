-- ===== src/Range/Order.antt =====
-- The derived `Ord` of `Range` (core/src/range.rs): `Full` comes first, prefixes are compared as
-- lists of components.
use homebase.Prelude.{
  ◌≡◌, refl, ap, IsLawful, Ord, list_ord, nat_ord, list_cmp, list_cmp-IsLawful, Ordering, lt, eq,
  gt,
}
use homebase.Key.{KeyComponent}
use homebase.Range.{Range, full, prefix}

abbrev pub range_cmp : Range → Range → Ordering
range_cmp full full = eq
range_cmp full (prefix q) = lt
range_cmp (prefix p) full = gt
range_cmp (prefix p) (prefix q) = list_cmp p q

key_cmp-IsLawful : IsLawful (list_cmp {K = KeyComponent})
key_cmp-IsLawful = list_cmp-IsLawful

range_eq_of_cmp : (x y : Range) → range_cmp x y ≡ eq → x ≡ y
range_eq_of_cmp full full h = refl
range_eq_of_cmp full (prefix q) h = cc
range_eq_of_cmp (prefix p) full h = cc
range_eq_of_cmp (prefix p) (prefix q) h = ap prefix (key_cmp-IsLawful.eq_of_cmp p q h)

range_lt_trans : (x y z : Range) → range_cmp x y ≡ lt → range_cmp y z ≡ lt → range_cmp x z ≡ lt
range_lt_trans full full z h k = cc
range_lt_trans full (prefix q) full h k = cc
range_lt_trans full (prefix q) (prefix r) h k = refl
range_lt_trans (prefix p) full z h k = cc
range_lt_trans (prefix p) (prefix q) full h k = cc
range_lt_trans (prefix p) (prefix q) (prefix r) h k = key_cmp-IsLawful.lt_trans p q r h k

range_gt_of_lt : (x y : Range) → range_cmp x y ≡ lt → range_cmp y x ≡ gt
range_gt_of_lt full full h = cc
range_gt_of_lt full (prefix q) h = refl
range_gt_of_lt (prefix p) full h = cc
range_gt_of_lt (prefix p) (prefix q) h = key_cmp-IsLawful.gt_of_lt p q h

range_lt_of_gt : (x y : Range) → range_cmp x y ≡ gt → range_cmp y x ≡ lt
range_lt_of_gt full full h = cc
range_lt_of_gt full (prefix q) h = cc
range_lt_of_gt (prefix p) full h = refl
range_lt_of_gt (prefix p) (prefix q) h = key_cmp-IsLawful.lt_of_gt p q h

range_cmp_refl : (x : Range) → range_cmp x x ≡ eq
range_cmp_refl full = refl
range_cmp_refl (prefix p) = key_cmp-IsLawful.cmp_refl p

pub range_cmp-IsLawful : IsLawful range_cmp
range_cmp-IsLawful = record {
  eq_of_cmp = range_eq_of_cmp;
  lt_trans = range_lt_trans;
  gt_of_lt = range_gt_of_lt;
  cmp_refl = range_cmp_refl;
  lt_of_gt = range_lt_of_gt;
}

instance abbrev pub range_ord : Ord Range
range_ord = record { cmp = range_cmp; laws = range_cmp-IsLawful }
