-- ===== src/Writer/Examples.antt =====
-- Tagged fields on a concrete record.
use homebase.Prelude.{◌≡◌, refl, List, [], ◌∷◌, ok, arith}
use homebase.Prelude.Bytes.{to_be_bytes}
use homebase.Reader.{reader_new}
use homebase.Writer.{Writer, writer_new, write_field, write_u8, write_u32, write_bytes}
use homebase.Writer.Fields.{Field, write_fields, read_fields, read_fields-write_fields}

abbrev fields : List Field
fields = (4, 1 ∷ 2 ∷ []) ∷ (200, []) ∷ []

abbrev record_bytes : Writer
record_bytes = 4 ∷ 0 ∷ 0 ∷ 0 ∷ 2 ∷ 1 ∷ 2 ∷ 200 ∷ 0 ∷ 0 ∷ 0 ∷ 0 ∷ []

written : write_fields writer_new fields ≡ ok record_bytes
unfolding write_fields write_field write_u8 write_u32 write_bytes to_be_bytes
written = refl

read_fields-write_fields_example : read_fields 3 (reader_new record_bytes) ≡ ok fields
read_fields-write_fields_example =
    read_fields-write_fields fields record_bytes written (omega arith)
