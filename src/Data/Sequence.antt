-- ===== src/Data/Sequence.antt =====
-- The sequence numbers of a device's batches, as `admit` checks them (server/src/space/data.rs).
use homebase.Prelude.{
  ◌+◌, ◌%◌, ◌^◌, ◌<◌, ◌≡◌, refl, true, not, List, [], ◌∷◌, leb, ◌==◌, eq_of_==, nat_ord, arith,
  Bool, false,
}
use homebase.Prelude.Attempt.{Ends, Ends->>=, Ends-map}
use homebase.Messages.{KernelError, device_seq_regression, AdmissionBatch}
use homebase.Tag.{DeviceSeq}
use homebase.Data.Staging.{Exit, rejected, guard}
use homebase.Data.Admit.{check_seqs}

-- Every batch follows the one before it without a gap.
abbrev pub InSequence : DeviceSeq → List AdmissionBatch → Type 0
InSequence last [] = Unit
InSequence last (batch ∷ batches) =
    (batch.device_seq ≡ last + 1) × InSequence batch.device_seq batches

-- The batches come after `last`, and follow each other without a gap.
abbrev pub Follows : DeviceSeq → List AdmissionBatch → Type 0
Follows last [] = Unit
Follows last (batch ∷ batches) = (last < batch.device_seq) × InSequence batch.device_seq batches

-- The sequence number that the batches end with.
unfoldable pub final_seq : DeviceSeq → List AdmissionBatch → DeviceSeq
final_seq last [] = last
final_seq last (batch ∷ batches) = final_seq batch.device_seq batches

abbrev Sequenced : DeviceSeq → List AdmissionBatch → DeviceSeq → Type 0
Sequenced last batches final = InSequence last batches × (final ≡ final_seq last batches)

pub guard-true :
    (S : Exit → Type 0) (test : Bool) (error : KernelError)
    → S (rejected error)
    → Ends S (λ u. test ≡ true) (guard test error)
guard-true S true error s = refl
guard-true S false error s = s

module _ (S : Exit → Type 0) (reject : (error : KernelError) → S (rejected error)) where
  check_seqs-next :
      (last : DeviceSeq) (batches : List AdmissionBatch)
      → Ends S (Sequenced last batches) (check_seqs false last batches)
  unfolding check_seqs final_seq
  check_seqs-next last [] = (tt, refl)
  check_seqs-next last (batch ∷ batches) =
      let error = device_seq_regression last batch.device_seq in
      let increasing = not (leb batch.device_seq last) in
      let consecutive = batch.device_seq == (last + 1) % 2 ^ 64 in
      Ends->>= S (λ u. increasing ≡ true) (Sequenced last (batch ∷ batches))
        (guard increasing error) _ (guard-true S increasing error (reject error))
        (λ u a.
          Ends->>= S (λ u. consecutive ≡ true) (Sequenced last (batch ∷ batches))
            (guard consecutive error) _ (guard-true S consecutive error (reject error))
            (λ u b.
              Ends-map S (Sequenced batch.device_seq batches) (Sequenced last (batch ∷ batches))
                (check_seqs false batch.device_seq batches)
                (check_seqs-next batch.device_seq batches)
                (λ final (s, e).
                  let lt : last < batch.device_seq = ground (arith, a) in
                  let eq = eq_of_== batch.device_seq ((last + 1) % 2 ^ 64) b in
                  ((omega (arith, lt, eq), s), e))))

  -- What the check of the sequence numbers lets through.
  pub check_seqs-Follows :
      (last : DeviceSeq) (batches : List AdmissionBatch)
      → Ends S
          (λ final. Follows last batches × (final ≡ final_seq last batches))
          (check_seqs true last batches)
  unfolding check_seqs final_seq
  check_seqs-Follows last [] = (tt, refl)
  check_seqs-Follows last (batch ∷ batches) =
      let Q : DeviceSeq → Type 0 =
        λ final. Follows last (batch ∷ batches) × (final ≡ final_seq last (batch ∷ batches)) in
      let error = device_seq_regression last batch.device_seq in
      let increasing = not (leb batch.device_seq last) in
      Ends->>= S (λ u. increasing ≡ true) Q (guard increasing error) _
        (guard-true S increasing error (reject error))
        (λ u a.
          Ends-map S (Sequenced batch.device_seq batches) Q
            (check_seqs false batch.device_seq batches) (check_seqs-next batch.device_seq batches)
            (λ final (s, e). ((ground (arith, a), s), e)))
