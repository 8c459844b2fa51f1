-- ===== src/Schema/Heads.antt =====
-- server/src/schema.rs: `HistoricalHeads`, the greatest historical admissions of two devices.
pub mod TopTwo
use homebase.Prelude.{
  max, Bool, not, ◌&&◌, ◌||◌, ◌++◌, ltb, leb, ◌==◌, nat_ord, list_ord, if◌then◌else◌, some,
}
use homebase.Prelude.Bytes.{Bytes, to_be_bytes}
use homebase.Reader.{Reader, Read, read_u64, read_bytes16, ◌>>=◌}
use homebase.Schema.LeaseRecord.{check}
use homebase.Tag.{AdmissionSeq, DeviceId}
use homebase.Clock.{lineage_none}

pub record DeviceAdmission : Type 0 where
  pub device : DeviceId
  pub admission_seq : AdmissionSeq

-- `DeviceAdmission::EMPTY`: sixteen zero bytes, and zero.
abbrev pub admission_empty : DeviceAdmission
admission_empty = record { device = lineage_none; admission_seq = 0 }

pub record HistoricalHeads : Type 0 where
  pub first : DeviceAdmission
  pub second : DeviceAdmission

abbrev pub heads_empty : HistoricalHeads
heads_empty = record { first = admission_empty; second = admission_empty }

unfoldable pub max_admission_seq : HistoricalHeads → AdmissionSeq
max_admission_seq h = max h.first.admission_seq h.second.admission_seq

unfoldable pub max_excluding : HistoricalHeads → DeviceId → AdmissionSeq
max_excluding h device =
    if not (h.first.device == device) then h.first.admission_seq else h.second.admission_seq

-- The update of the two heads, before the swap.
unfoldable pub observed : HistoricalHeads → DeviceId → AdmissionSeq → HistoricalHeads
observed h device seq =
    let new : DeviceAdmission = record { device = device; admission_seq = seq } in
    if h.first.admission_seq == 0
    then record { first = new; second = h.second }
    else if h.first.device == device
    then record {
      first = record { device = h.first.device; admission_seq = max h.first.admission_seq seq };
      second = h.second;
    }
    else if h.second.admission_seq == 0
    then record { first = h.first; second = new }
    else if h.second.device == device
    then record {
      first = h.first;
      second = record { device = h.second.device; admission_seq = max h.second.admission_seq seq };
    }
    else if ltb h.second.admission_seq seq
    then record { first = h.first; second = new }
    else h

unfoldable pub swapped : HistoricalHeads → HistoricalHeads
swapped h =
    if ltb h.first.admission_seq h.second.admission_seq
    then record { first = h.second; second = h.first }
    else h

unfoldable pub heads_observe : HistoricalHeads → DeviceId → AdmissionSeq → HistoricalHeads
unfolding observed swapped
heads_observe h device seq = swapped (observed h device seq)

abbrev merge_head : HistoricalHeads → DeviceAdmission → HistoricalHeads
merge_head h head =
    if head.admission_seq == 0 then h else heads_observe h head.device head.admission_seq

unfoldable pub heads_merge : HistoricalHeads → HistoricalHeads → HistoricalHeads
unfolding heads_observe
heads_merge h other = merge_head (merge_head h other.first) other.second

unfoldable pub heads_encode : HistoricalHeads → Bytes
heads_encode h =
    h.first.device
    ++ (to_be_bytes 8 h.first.admission_seq
        ++ (h.second.device ++ to_be_bytes 8 h.second.admission_seq))

abbrev pub ordered_heads : HistoricalHeads → Bool
ordered_heads h =
    leb h.second.admission_seq h.first.admission_seq
    && (h.second.admission_seq == 0 || not (h.first.device == h.second.device))
    && (not (h.first.admission_seq == 0) || h.second.admission_seq == 0)

unfoldable pub heads_decode : Reader → Read HistoricalHeads
heads_decode r = do
  (device1, r1) ← read_bytes16 r
  (seq1, r2) ← read_u64 r1
  (device2, r3) ← read_bytes16 r2
  (seq2, r4) ← read_u64 r3
  let heads : HistoricalHeads = record {
    first = record { device = device1; admission_seq = seq1 };
    second = record { device = device2; admission_seq = seq2 };
  }
  done ← check (ordered_heads heads)
  some (heads, r4)
