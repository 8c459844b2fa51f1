-- ===== src/Reader.antt =====
-- core/src/reader.rs: bounds-checked reads over encoded byte records. A method that fails leaves
-- its reader where it was, so `none` carries no reader.
pub mod Steps
pub mod Chain
use homebase.Prelude.{
  ℕ, ◌+◌, ◌≡◌, Bool, true, false, List, [], ◌∷◌, length, leb, ◌==◌, nat_ord, if◌then◌else◌, Option,
  none, some, get_elem?, take, drop, Result, ok, err,
}
use homebase.Prelude.Bytes.{Bytes, from_be_bytes}
use homebase.Key.{usize_max}
use mathlib.Core.Option

pub data TruncatedField : Type 0 where
  truncated_field : TruncatedField

pub record Reader : Type 0 where
  pub bytes : Bytes
  pub position : ℕ

-- What a read that may fail gives back.
abbrev pub Read : Type 0 → Type 0
Read A = Option (A × Reader)

infixl 5 ◌>>=◌
abbrev pub ◌>>=◌ {κ} : {A : Type 0} {B : Type κ} → Option A → (A → Option B) → Option B
none >>= f = none
some a >>= f = f a

abbrev pub reader_new : Bytes → Reader
reader_new bytes = record { bytes = bytes; position = 0 }

unfoldable pub read_u8 : Reader → Read ℕ
read_u8 r = do
  value ← get_elem? r.bytes r.position
  some (value, record r { position = r.position + 1 })

-- `Reader::take`: `checked_add`, then the slice `position..end`.
unfoldable pub read_take : Reader → ℕ → Read Bytes
read_take r len =
    let end = r.position + len in
    if leb end usize_max
    then if leb end (length r.bytes)
      then some (take len (drop r.position r.bytes), record r { position = end })
      else none
    else none

unfoldable pub read_u32 : Reader → Read ℕ
read_u32 r = do (value, r') ← read_take r 4; some (from_be_bytes value, r')

unfoldable pub read_u64 : Reader → Read ℕ
read_u64 r = do (value, r') ← read_take r 8; some (from_be_bytes value, r')

unfoldable pub read_bytes16 : Reader → Read Bytes
read_bytes16 r = read_take r 16

unfoldable pub rest : Reader → Bytes
rest r = drop r.position r.bytes

-- `Reader::end` is `Some(())` on a reader that is used up.
unfoldable pub at_end : Reader → Bool
at_end r = r.position == length r.bytes

abbrev or_truncated {ℓ} : {A : Type ℓ} → Option A → Result TruncatedField A
or_truncated none = err truncated_field
or_truncated (some a) = ok a

-- `Reader::field`: a tag, a length and as many bytes, read from a probe.
unfoldable pub read_field : Reader → Result TruncatedField (Option (ℕ × Bytes) × Reader)
unfolding at_end read_u8 read_u32 read_take
read_field r =
    if at_end r
    then ok (none, r)
    else or_truncated (do
      (tag, p) ← read_u8 r
      (length, q) ← read_u32 p
      (value, r') ← read_take q length
      some (some (tag, value), r'))
