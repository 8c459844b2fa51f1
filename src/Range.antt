-- ===== src/Range.antt =====
-- core/src/range.rs: component-wise key ranges.
pub mod Coverage
pub mod Order
pub mod Examples
use homebase.Prelude.{
  ℕ, zero, suc, ◌%◌, ◌^◌, ◌≡◌, Bool, true, false, List, [], ◌∷◌, ◌++◌, ◌||◌, length, leb, ◌==◌,
  nat_ord, list_ord, if◌then◌else◌, starts_with, Option, none, some, to_option, take, drop,
}
use homebase.Prelude.Bytes.{Bytes, to_be_bytes, from_be_bytes}
use homebase.Key.{Key, IsKey, key_encode, key_decode}
use mathlib.Core.Option

pub data Range : Type 0 where
  full : Range
  prefix : Key → Range

unfoldable pub covers_key : Range → Key → Bool
covers_key full key = true
covers_key (prefix p) key = starts_with key p

unfoldable pub covers_range : Range → Range → Bool
covers_range full other = true
covers_range (prefix a) full = false
covers_range (prefix a) (prefix b) = starts_with b a

unfoldable pub overlaps : Range → Range → Bool
overlaps r other = covers_range r other || covers_range other r

unfoldable pub intersection : Range → Range → Option Range
intersection r other =
    if covers_range r other then some other else if covers_range other r then some r else none

-- `Range::encode`; the `as u32` cast truncates.
unfoldable pub range_encode : Range → Bytes
range_encode full = 0 ∷ []
range_encode (prefix p) = let key = key_encode p in 1 ∷ (to_be_bytes 4 (length key % 2 ^ 32) ++ key)

unfoldable pub range_decode : Bytes → Option Range
range_decode [] = none
range_decode (zero ∷ []) = some full
range_decode (zero ∷ b ∷ bs) = none
range_decode (suc zero ∷ len) =
    if leb 4 (length len)
    then if length (drop 4 len) == from_be_bytes (take 4 len)
      then Option.map prefix (to_option (key_decode (drop 4 len)))
      else none
    else none
range_decode (suc (suc b) ∷ bs) = none

-- A range over a valid key.
abbrev pub IsRange : Range → Type 0
IsRange full = Unit
IsRange (prefix p) = IsKey p
