-- ===== src/Writer.antt =====
-- core/src/writer.rs: construction of encoded byte records. A writer is the bytes that it holds.
pub mod Fields
pub mod Examples
use homebase.Prelude.{
  ℕ, ◌+◌, ◌^◌, ◌≡◌, List, [], ◌∷◌, ◌++◌, length, ltb, if◌then◌else◌, Result, ok, err,
}
use homebase.Prelude.Bytes.{Bytes, to_be_bytes}

pub data FieldTooLarge : Type 0 where
  field_too_large : FieldTooLarge

abbrev pub Writer : Type 0
Writer = Bytes

abbrev pub writer_new : Writer
writer_new = []

unfoldable pub write_u8 : Writer → ℕ → Writer
write_u8 w value = w ++ value ∷ []

unfoldable pub write_u32 : Writer → ℕ → Writer
write_u32 w value = w ++ to_be_bytes 4 value

unfoldable pub write_u64 : Writer → ℕ → Writer
write_u64 w value = w ++ to_be_bytes 8 value

unfoldable pub write_bytes : Writer → Bytes → Writer
write_bytes w value = w ++ value

-- `Writer::field`: the length must fit a `u32`.
unfoldable pub write_field : Writer → ℕ → Bytes → Result FieldTooLarge Writer
unfolding write_u8 write_u32 write_bytes
write_field w tag value =
    if ltb (length value) (2 ^ 32)
    then ok (write_bytes (write_u32 (write_u8 w tag) (length value)) value)
    else err field_too_large
