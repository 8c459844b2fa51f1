-- ===== src/Messages/Examples.antt =====
-- A pulled interval of two batches, the second one empty.
use homebase.Prelude.{◌≡◌, [], ◌∷◌, ok, arith, ◌↔◌}
use homebase.Clock.{lineage_none}
use homebase.Seal.{empty_aead_v1}
use homebase.Tag.{AdmittedEntry, delete, checksum_empty}
use homebase.Messages.{AdmittedBatch, PullResponse}
use homebase.Messages.Pull.{validate_dense, Dense, validate_dense_iff}

abbrev entry : AdmittedEntry
entry = record {
  device_entry = record {
    tag = record { device = lineage_none; device_seq = 1; ver = 3; cipher_epoch = 0 };
    mutation = delete ((7 ∷ []) ∷ []);
    seal = empty_aead_v1;
  };
  admission = record { admission_seq = 5; op_index = 0 };
}

abbrev first_batch : AdmittedBatch
first_batch = record {
  admission_seq = 5;
  device = lineage_none;
  device_seq = 1;
  checksum = checksum_empty;
  entries = entry ∷ [];
}

abbrev second_batch : AdmittedBatch
second_batch = record {
  admission_seq = 6;
  device = lineage_none;
  device_seq = 2;
  checksum = checksum_empty;
  entries = [];
}

abbrev response : PullResponse
response = record { after = 4; through = 6; batches = first_batch ∷ second_batch ∷ [] }

validate_dense_iff_example : (validate_dense response ≡ ok tt) ↔ Dense response
validate_dense_iff_example = validate_dense_iff response (omega arith)
