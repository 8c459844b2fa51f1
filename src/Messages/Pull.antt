-- ===== src/Messages/Pull.antt =====
-- core/src/messages.rs: the validation of a pulled interval. The casts between `usize` and `u64`
-- cannot fail on 64 bits.
use homebase.Prelude.{
  ℕ, ◌+◌, ◌-◌, ◌≤◌, ◌<◌, ◌^◌, ◌≡◌, refl, sym, ◌∙◌, ◌||◌, not, List, [], ◌∷◌, length, ltb, leb, ◌==◌,
  eq_of_==, ==_iff, nat_ord, list_ord, if◌then◌else◌, Result, ok, err, ◌>>=◌, arith, ◌↔◌,
}
use homebase.Clock.{u64_max}
use homebase.Tag.{AdmissionSeq, AdmittedEntry}
use homebase.Messages.{AdmittedBatch, PullResponse}

pub data PullDensityError : Type 0 where
  cursor_regression : AdmissionSeq → AdmissionSeq → PullDensityError
  batch_count_mismatch : ℕ → ℕ → PullDensityError
  batch_sequence_mismatch : AdmissionSeq → AdmissionSeq → PullDensityError
  entry_admission_mismatch : AdmissionSeq → AdmissionSeq → PullDensityError
  operation_index_mismatch : AdmissionSeq → ℕ → ℕ → PullDensityError
  entry_device_mismatch : AdmissionSeq → PullDensityError
  admission_seq_overflow : PullDensityError
  operation_count_overflow : PullDensityError

-- The loop over the entries, from one index on.
unfoldable pub validate_entries :
    AdmittedBatch → ℕ → List AdmittedEntry → Result PullDensityError (Unit {0})
validate_entries batch index [] = ok tt
validate_entries batch index (entry ∷ entries) =
    let rest = validate_entries batch (index + 1) entries in
    if not (leb index (2 ^ 32 - 1))
    then err operation_count_overflow
    else if not (entry.admission.admission_seq == batch.admission_seq)
    then err (entry_admission_mismatch batch.admission_seq entry.admission.admission_seq)
    else if not (entry.admission.op_index == index)
    then err (operation_index_mismatch batch.admission_seq index entry.admission.op_index)
    else if not (entry.device_entry.tag.device == batch.device)
        || not (entry.device_entry.tag.device_seq == batch.device_seq)
    then err (entry_device_mismatch batch.admission_seq)
    else rest

-- `AdmittedBatch::validate`
unfoldable pub validate : AdmittedBatch → Result PullDensityError (Unit {0})
unfolding validate_entries
validate batch =
    if not (leb (length batch.entries) (2 ^ 32 - 1))
    then err operation_count_overflow
    else validate_entries batch 0 batch.entries

-- The loop over the batches, from one offset on.
unfoldable pub validate_batches :
    AdmissionSeq → ℕ → List AdmittedBatch → Result PullDensityError (Unit {0})
unfolding validate
validate_batches after offset [] = ok tt
validate_batches after offset (batch ∷ batches) =
    let rest = validate_batches after (offset + 1) batches in
    if not (leb (offset + 1) u64_max)
    then err admission_seq_overflow
    else if not (leb (after + (offset + 1)) u64_max)
    then err admission_seq_overflow
    else if not (batch.admission_seq == after + (offset + 1))
    then err (batch_sequence_mismatch (after + (offset + 1)) batch.admission_seq)
    else validate batch >>= λ u. rest

-- `PullResponse::validate_dense`
unfoldable pub validate_dense : PullResponse → Result PullDensityError (Unit {0})
unfolding validate_batches
validate_dense r =
    if ltb r.through r.after
    then err (cursor_regression r.after r.through)
    else if not (length r.batches == r.through - r.after)
    then err (batch_count_mismatch (r.through - r.after) (length r.batches))
    else validate_batches r.after 0 r.batches

-- The entries stand at the indices from `index` on, in their batch's admission and device.
abbrev pub EntriesOf : AdmittedBatch → ℕ → List AdmittedEntry → Type 0
EntriesOf batch index [] = Unit
EntriesOf batch index (entry ∷ entries) =
    (entry.admission.admission_seq ≡ batch.admission_seq)
    × (entry.admission.op_index ≡ index)
    × (entry.device_entry.tag.device ≡ batch.device)
    × (entry.device_entry.tag.device_seq ≡ batch.device_seq)
    × EntriesOf batch (index + 1) entries

-- The batches have the sequence numbers from `next` on, each with its own entries in order.
abbrev pub BatchesFrom : AdmissionSeq → List AdmittedBatch → Type 0
BatchesFrom next [] = Unit
BatchesFrom next (batch ∷ batches) =
    (batch.admission_seq ≡ next)
    × (length batch.entries < 2 ^ 32)
    × EntriesOf batch 0 batch.entries
    × BatchesFrom (next + 1) batches

-- The complete interval `(after, through]`.
abbrev pub Dense : PullResponse → Type 0
Dense r = (r.after + length r.batches ≡ r.through) × BatchesFrom (r.after + 1) r.batches

validate_entries_sound :
    (batch : AdmittedBatch) (index : ℕ) (entries : List AdmittedEntry)
    → validate_entries batch index entries ≡ ok tt
    → EntriesOf batch index entries
unfolding validate_entries
validate_entries_sound batch index [] h = tt
validate_entries_sound batch index (entry ∷ entries) h = (
  eq_of_== entry.admission.admission_seq batch.admission_seq (ground (arith, h)),
  eq_of_== entry.admission.op_index index (ground (arith, h)),
  eq_of_== entry.device_entry.tag.device batch.device (ground (arith, h)),
  eq_of_== entry.device_entry.tag.device_seq batch.device_seq (ground (arith, h)),
  validate_entries_sound batch (index + 1) entries (ground (arith, h)),
)

validate_batches_sound :
    (after offset : ℕ) (batches : List AdmittedBatch)
    → validate_batches after offset batches ≡ ok tt
    → BatchesFrom (after + offset + 1) batches
unfolding validate_batches validate
validate_batches_sound after offset [] h = tt
validate_batches_sound after offset (batch ∷ batches) h =
    let n : after + (offset + 1) ≡ after + offset + 1 = omega arith in
    let n' : after + (offset + 1) + 1 ≡ after + offset + 1 + 1 = omega arith in
    (
      eq_of_== batch.admission_seq (after + (offset + 1)) (ground (arith, h)) ∙ n,
      ground (arith, h),
      validate_entries_sound batch 0 batch.entries (ground (arith, h)),
      rw (← n') (validate_batches_sound after (offset + 1) batches (ground (arith, h))),
    )

validate_entries_complete :
    (batch : AdmittedBatch) (index : ℕ) (entries : List AdmittedEntry)
    → index + length entries < 2 ^ 32
    → EntriesOf batch index entries
    → validate_entries batch index entries ≡ ok tt
unfolding validate_entries
validate_entries_complete batch index [] f h = refl
validate_entries_complete batch index (entry ∷ entries) f (a, b, c, d, hs) = ground (
  arith,
  f,
  (==_iff entry.admission.admission_seq batch.admission_seq).1 a,
  (==_iff entry.admission.op_index index).1 b,
  (==_iff entry.device_entry.tag.device batch.device).1 c,
  (==_iff entry.device_entry.tag.device_seq batch.device_seq).1 d,
  validate_entries_complete batch (index + 1) entries (omega arith) hs,
)

validate_batches_complete :
    (after offset : ℕ) (batches : List AdmittedBatch)
    → after + offset + length batches ≤ u64_max
    → BatchesFrom (after + offset + 1) batches
    → validate_batches after offset batches ≡ ok tt
unfolding validate_batches validate
validate_batches_complete after offset [] f h = refl
validate_batches_complete after offset (batch ∷ batches) f (a, l, es, bs) =
    let n : after + (offset + 1) ≡ after + offset + 1 = omega arith in
    let n' : after + (offset + 1) + 1 ≡ after + offset + 1 + 1 = omega arith in
    ground (
      arith,
      f,
      l,
      (==_iff batch.admission_seq (after + (offset + 1))).1 (a ∙ sym n),
      validate_entries_complete batch 0 batch.entries (omega arith) es,
      validate_batches_complete after (offset + 1) batches (omega arith) (rw n' bs),
    )

-- For a response whose end fits 64 bits, `validate_dense` accepts exactly the complete intervals:
-- the batches carry every sequence number after `after` up to `through`, in order, and the entries
-- of each batch, fewer than 2^32, carry its sequence number, its device and their own index.
pub validate_dense_iff :
    (r : PullResponse) → r.through ≤ u64_max → (validate_dense r ≡ ok tt) ↔ Dense r
unfolding validate_dense
validate_dense_iff r fits =
    let n : r.after + 0 + 1 ≡ r.after + 1 = omega arith in
    (
      λ h. (
        ground (arith, h),
        rw (← n) (validate_batches_sound r.after 0 r.batches (ground (arith, h))),
      ),
      λ (e, bs).
          ground (arith, e, validate_batches_complete r.after 0 r.batches (omega arith) (rw n bs)),
    )
