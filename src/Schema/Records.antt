-- ===== src/Schema/Records.antt =====
-- server/src/schema.rs: prefix aggregates, admission headers and device records, with their codecs.
use homebase.Prelude.{ℕ, max, [], ◌∷◌, ◌++◌, ◌==◌, nat_ord, Option, none, some}
use homebase.Prelude.Bytes.{Bytes, to_be_bytes}
use homebase.Reader.{reader_new, read_u8, read_u32, read_u64, read_bytes16, read_take, rest, ◌>>=◌}
use homebase.Schema.Heads.{HistoricalHeads, heads_empty, heads_observe, heads_encode, heads_decode}
use homebase.Schema.LeaseRecord.{check}
use homebase.Tag.{AdmissionSeq, AdmissionOrder, DeviceChecksum, DeviceId, DeviceSeq, Ver, order_max}

pub record AdmissionHeaderRecord : Type 0 where
  pub device : DeviceId
  pub device_seq : DeviceSeq
  pub checksum : DeviceChecksum
  pub operation_count : ℕ

abbrev empty_rest : Bytes → Option (Unit {0})
empty_rest [] = some tt
empty_rest (b ∷ bytes) = none

unfoldable pub header_encode : AdmissionHeaderRecord → Bytes
header_encode h =
    1
    ∷ (h.device ++ (to_be_bytes 8 h.device_seq ++ (h.checksum ++ to_be_bytes 4 h.operation_count)))

unfoldable pub header_decode : Bytes → Option AdmissionHeaderRecord
header_decode bytes = do
  (version, r0) ← read_u8 (reader_new bytes)
  done ← check (version == 1)
  (device, r1) ← read_bytes16 r0
  (device_seq, r2) ← read_u64 r1
  (checksum, r3) ← read_take r2 32
  (operation_count, r4) ← read_u32 r3
  over ← empty_rest (rest r4)
  some (record {
    device = device;
    device_seq = device_seq;
    checksum = checksum;
    operation_count = operation_count;
  })

pub record PrefixMetaRecord : Type 0 where
  pub history : HistoricalHeads
  pub max_ver : Ver
  pub live_count : ℕ
  pub count_epoch : AdmissionOrder

abbrev pub meta_empty : PrefixMetaRecord
meta_empty = record {
  history = heads_empty;
  max_ver = 0;
  live_count = 0;
  count_epoch = record { admission_seq = 0; op_index = 0 };
}

unfoldable pub meta_observe_history :
    PrefixMetaRecord → DeviceId → AdmissionSeq → Ver → PrefixMetaRecord
unfolding heads_observe
meta_observe_history m device seq ver = record m {
  history = heads_observe m.history device seq;
  max_ver = max m.max_ver ver;
}

unfoldable pub materialize_count_at : PrefixMetaRecord → AdmissionOrder → PrefixMetaRecord
materialize_count_at m epoch = record m { count_epoch = order_max m.count_epoch epoch }

unfoldable pub meta_observe :
    PrefixMetaRecord → DeviceId → AdmissionSeq → Ver → AdmissionOrder → PrefixMetaRecord
unfolding meta_observe_history materialize_count_at
meta_observe m device seq ver epoch =
    materialize_count_at (meta_observe_history m device seq ver) epoch

unfoldable pub meta_encode : PrefixMetaRecord → Bytes
unfolding heads_encode
meta_encode m =
    1
    ∷ (heads_encode m.history
        ++ (to_be_bytes 8 m.max_ver
            ++ (to_be_bytes 8 m.live_count
                ++ (to_be_bytes 8 m.count_epoch.admission_seq
                    ++ to_be_bytes 4 m.count_epoch.op_index))))

unfoldable pub meta_decode : Bytes → Option PrefixMetaRecord
unfolding heads_decode
meta_decode bytes = do
  (version, r0) ← read_u8 (reader_new bytes)
  done ← check (version == 1)
  (history, r1) ← heads_decode r0
  (max_ver, r2) ← read_u64 r1
  (live_count, r3) ← read_u64 r2
  (admission_seq, r4) ← read_u64 r3
  (op_index, r5) ← read_u32 r4
  over ← empty_rest (rest r5)
  some (record {
    history = history;
    max_ver = max_ver;
    live_count = live_count;
    count_epoch = record { admission_seq = admission_seq; op_index = op_index };
  })

pub record DeviceRecord : Type 0 where
  pub last_seq : DeviceSeq
  pub checksum : DeviceChecksum

unfoldable pub device_encode : DeviceRecord → Bytes
device_encode d = 1 ∷ (to_be_bytes 8 d.last_seq ++ d.checksum)

unfoldable pub device_decode : Bytes → Option DeviceRecord
device_decode bytes = do
  (version, r0) ← read_u8 (reader_new bytes)
  done ← check (version == 1)
  (last_seq, r1) ← read_u64 r0
  (checksum, r2) ← read_take r1 32
  some (record { last_seq = last_seq; checksum = checksum })
