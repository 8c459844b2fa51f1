-- ===== src/Writer/Fields.antt =====
-- Tagged fields, through `Writer::field` and back through `Reader::field`.
use homebase.Prelude.{
  ℕ, zero, suc, ◌+◌, ◌≤◌, ◌<◌, ◌^◌, ◌≡◌, refl, ap, ◌∙◌, false, List, [], ◌∷◌, ◌++◌, length,
  append_assoc, append-nil, ltb, ltb→lt, ◌==◌, nat_ord, none, some, Result, ok, err, ◌>>=◌, arith,
  Bool-cases, inl, inr, subst, All, >>=-eq-ok,
}
use homebase.Prelude.Bytes.{Bytes, to_be_bytes}
use homebase.Key.{usize_max}
use homebase.Reader.{Reader, TruncatedField, truncated_field, reader_new, read_field, at_end}
use homebase.Reader.Steps.{
  Before, Before-new, skip, left_length, read_u8_lem, read_u32_lem, read_take_lem,
}
use homebase.Writer.{
  Writer, FieldTooLarge, writer_new, write_field, write_u8, write_u32, write_bytes,
}

abbrev pub Field : Type 0
Field = ℕ × Bytes

-- All fields of a record, one `Writer::field` after the other.
unfoldable pub write_fields : Writer → List Field → Result FieldTooLarge Writer
write_fields w [] = ok w
write_fields w ((tag, value) ∷ fields) = write_field w tag value >>= λ w'. write_fields w' fields

-- `while let Some((tag, value)) = reader.field()?`, on fuel.
unfoldable pub read_fields : ℕ → Reader → Result TruncatedField (List Field)
read_fields zero r = err truncated_field
read_fields (suc fuel) r = read_field r >>= λ (found, r'). elim found [
  | none ↦ ok []
  | some field ↦ read_fields fuel r' >>= λ fields. ok (field ∷ fields)
]

-- The bytes of one field.
abbrev layout : Field → Bytes
layout (tag, value) = tag ∷ (to_be_bytes 4 (length value) ++ value)

abbrev layouts : List Field → Bytes
layouts [] = []
layouts (f ∷ fs) = layout f ++ layouts fs

write_field_lem :
    (w : Writer) (tag : ℕ) (value : Bytes) (w' : Writer)
    → write_field w tag value ≡ ok w'
    → (w' ≡ w ++ layout (tag, value)) × (length value < 2 ^ 32)
unfolding write_field write_u8 write_u32 write_bytes
write_field_lem w tag value w' h = elim (Bool-cases (ltb (length value) (2 ^ 32))) [
  | inl e ↦ (
    ground (
      arith,
      rw e at h,
      append_assoc w (tag ∷ []) (to_be_bytes 4 (length value)),
      append_assoc w (tag ∷ to_be_bytes 4 (length value)) value,
    ),
    ltb→lt _ _ e,
  )
  | inr e ↦ cc (rw e at h)
]

read_field_lem :
    (r : Reader) (tag : ℕ) (value s : Bytes)
    → length value < 2 ^ 32
    → Before r (layout (tag, value) ++ s)
    → let r' = skip (length value) (skip 4 (skip 1 r)) in
      (read_field r ≡ ok (some (tag, value), r')) × Before r' s
unfolding read_field at_end
read_field_lem r tag value s h b =
    let (e1, b1) = read_u8_lem r tag (to_be_bytes 4 (length value) ++ (value ++ s)) (
      subst (Before r)
        (ap (λ (t : Bytes). tag ∷ t) (append_assoc (to_be_bytes 4 (length value)) value s)) b) in
    let (e2, b2) = read_u32_lem (skip 1 r) (length value) (value ++ s) (omega arith) b1 in
    let (e3, b3) = read_take_lem (length value) (skip 4 (skip 1 r)) value s refl b2 in
    let more : (r.position == length r.bytes) ≡ false =
      ground (arith, left_length r (layout (tag, value) ++ s) b) in
    (rw (more, e1, e2, e3), b3)

read_field_end : (r : Reader) → Before r [] → read_field r ≡ ok (none, r)
unfolding read_field at_end
read_field_end r b = ground (arith, left_length r [] b)

write_fields_lem :
    (w : Writer) (fields : List Field) (out : Writer)
    → write_fields w fields ≡ ok out
    → out ≡ w ++ layouts fields
unfolding write_fields
write_fields_lem w [] out h = rw append-nil (ground (arith, h))
write_fields_lem w ((tag, value) ∷ fields) out h =
    let (w', e, h') = >>=-eq-ok (write_field w tag value) (λ v. write_fields v fields) h in
    write_fields_lem w' fields out h'
    ∙ ap (λ (v : Bytes). v ++ layouts fields) (write_field_lem w tag value w' e).0
    ∙ append_assoc w (layout (tag, value)) (layouts fields)

written_fit :
    (w : Writer) (fields : List Field) (out : Writer)
    → write_fields w fields ≡ ok out
    → All (λ f. length f.1 < 2 ^ 32) fields
unfolding write_fields
written_fit w [] out h = tt
written_fit w ((tag, value) ∷ fields) out h =
    let (w', e, h') = >>=-eq-ok (write_field w tag value) (λ v. write_fields v fields) h in
    ((write_field_lem w tag value w' e).1, written_fit w' fields out h')

read_fields-layouts :
    (fuel : ℕ) (fields : List Field) (r : Reader)
    → length fields < fuel
    → All (λ f. length f.1 < 2 ^ 32) fields
    → Before r (layouts fields)
    → read_fields fuel r ≡ ok fields
unfolding read_fields
read_fields-layouts zero fields r h fit b = elim h [ ]
read_fields-layouts (suc fuel) [] r h fit b = rw (read_field_end r b)
read_fields-layouts (suc fuel) ((tag, value) ∷ fields) r h (f, fs) b =
    let (e, c) = read_field_lem r tag value (layouts fields) f b in
    rw e (rw (read_fields-layouts fuel fields _ (omega arith) fs c) refl)

-- Whatever fields a writer accepts, in whatever number and with whatever tags and payloads, as
-- long as the record's length fits `usize`, the reader returns the same fields in the same order
-- and then the end, in one round more than there are fields.
pub read_fields-write_fields :
    (fields : List Field) (out : Writer)
    → write_fields writer_new fields ≡ ok out
    → length out ≤ usize_max
    → read_fields (length fields + 1) (reader_new out) ≡ ok fields
read_fields-write_fields fields out h fits =
    read_fields-layouts (length fields + 1) fields (reader_new out) (omega arith)
      (written_fit writer_new fields out h)
      (subst (Before (reader_new out)) (write_fields_lem writer_new fields out h)
        (Before-new out fits))
