-- ===== src/Data/Written/Entries.antt =====
-- What one entry, and all entries of a batch, add to what is staged.
use homebase.Prelude.{
  ℕ, ◌+◌, ◌-◌, ◌^◌, ◌≡◌, refl, sym, subst, ◌&&◌, List, [], ◌∷◌, ◌++◌, append_assoc, append-nil,
  none, some, leb, ◌==◌, nat_ord, list_ord, if◌then◌else◌, All, All-append, inl, inr, Bool-cases,
}
use homebase.Prelude.Bytes.{Bytes, IsByte}
use homebase.Prelude.Map.{map_get, map_get-insert, map_insert}
use homebase.Prelude.Attempt.{Ends, Ends->>=, Ends-map, Ends-any}
use homebase.Key.{Key}
use homebase.Range.{Range}
use homebase.Range.Order.{range_ord}
use homebase.Messages.{KernelError, invalid_seal, ver_regression, range_ver_regression}
use homebase.Schema.{SpaceId}
use homebase.Schema.Heads.{max_admission_seq}
use homebase.Schema.DataRecord.{DataRecord, data_encode}
use homebase.Schema.RangeDelete.{range_delete_new, range_delete_encode}
use homebase.Schema.AdmissionLog.{admission_op_key, admission_range_op_key}
use homebase.Seal.{validate_payload}
use homebase.Storage.{MemoryStore, WriteBatch, put}
use homebase.Tag.{
  AdmissionSeq, AdmittedEntry, DeviceEntry, DeviceId, DeviceSeq, Mutation, set, delete,
  delete_range, OpaqueValue, Ver, entry_ver, order, is_set,
}
use mathlib.Core.Option
use homebase.Data.{
  point_record_visible_with_events, covering_range_max_ver, effective_history, max_ver,
}
use homebase.Data.Staged.{mutation_relevant, resets, events_max_ver, prior_record, staged_tombstone}
use homebase.Data.Counts.{apply_point_count, apply_range_count, count_delta}
use homebase.Data.Staging.{
  Exit, rejected, Staging, guard, check_ver, check_seal, admit_point, admit_range, admit_mutation,
  admit_entry, admit_entries,
}
use homebase.Data.Footprint.Operations.{guard-Ends, check_ver-Ends, check_seal-Ends}
use homebase.Data.Written.{
  Puts, Puts-left, Puts-right, Extends, targets, last_for, last_for-snoc, row_of, PointLogged,
  LoggedAs, Logged, Logged-later, IsStaged, IsStep,
}

-- The entries of one batch, as they are admitted under one number from an index on.
pub numbered : AdmissionSeq → ℕ → List DeviceEntry → List AdmittedEntry
numbered seq index [] = []
numbered seq index (e ∷ es) =
    record { device_entry = e; admission = record { admission_seq = seq; op_index = index } }
    ∷ numbered seq (index + 1) es

module _ (space : SpaceId) (bytes : All IsByte space) (S : Exit → Type 0)
    (reject : (error : KernelError) → S (rejected error)) (store : MemoryStore) where
  module _ (admitted : AdmittedEntry) (es : List AdmittedEntry) (staging : Staging)
      (h : IsStaged space es staging) where
    abbrev Q : Staging → Type 0
    Q = IsStep space (es ++ admitted ∷ []) staging

    log_one : (key value : Bytes) → Extends staging.batch (staging.batch ++ put key value ∷ [])
    log_one key value k v p = Puts-left k v staging.batch (put key value ∷ []) p

    log_last : (key value : Bytes) → Puts key value (staging.batch ++ put key value ∷ [])
    log_last key value = Puts-right key value staging.batch (put key value ∷ []) (inl refl)

    point_rows :
        (key : Key)
        → ((j : Key) → targets j admitted.device_entry.mutation ≡ (j == key))
        → (j : Key)
        → map_get j (map_insert key (record { entry = admitted }) staging.points)
          ≡ row_of (last_for j (es ++ admitted ∷ []))
    point_rows key own j = elim (Bool-cases (j == key)) [
      | inl q ↦
          let get = map_get-insert j key (record { entry = admitted }) staging.points in
          let last = last_for-snoc j es admitted in rw (get, last, own j, q) refl
      | inr q ↦
          let get = map_get-insert j key (record { entry = admitted }) staging.points in
          let last = last_for-snoc j es admitted in rw (get, last, own j, q) (h.rows j)
    ]

    admit_point-IsStep :
        (key : Key)
        → ((j : Key) → targets j admitted.device_entry.mutation ≡ (j == key))
        → ((ops : WriteBatch) → PointLogged space ops admitted key → Logged space ops admitted)
        → Ends S Q (admit_point space store admitted key staging)
    unfolding admit_point
    admit_point-IsStep key own logged =
        let entry = admitted.device_entry in
        Ends-any S Q (prior_record space store staging.points key) _ (λ prior found.
          Ends-any S Q (point_record_visible_with_events space store prior staging.events) _
            (λ prior_live found.
              Ends-any S Q (covering_range_max_ver space store key) _ (λ covering found.
                let stored_ver = Option.map (λ (rec : DataRecord). entry_ver rec.entry) prior in
                let current =
                  max_ver (max_ver stored_ver covering)
                    (events_max_ver (resets key) staging.events) in
                let error : Ver → KernelError = λ v. ver_regression key v entry.tag.ver in
                Ends->>= S (λ u. Unit) Q (check_ver error current entry.tag.ver) _
                  (check_ver-Ends space bytes S reject store error current entry.tag.ver)
                  (λ checked u.
                    Ends-any S Q
                      (apply_point_count space store staging.events entry.tag.device
                        admitted.admission.admission_seq entry.tag.ver (order admitted.admission)
                        staging.aggregates key (count_delta (is_set entry.mutation) prior_live))
                      _
                      (λ aggregates found.
                        Ends-any S Q (data_encode (record { entry = admitted })) _ (λ value f.
                          let log_key =
                            admission_op_key space admitted.admission.admission_seq
                              admitted.admission.op_index key in
                          let ops = staging.batch ++ put log_key value ∷ [] in
                          record {
                            staged = record {
                              rows = point_rows key own;
                              logged =
                                  All-append (Logged space ops) es (admitted ∷ [])
                                    (Logged-later space staging.batch ops es (log_one log_key value)
                                      h.logged)
                                    (logged ops (value, f, log_last log_key value), tt);
                            };
                            extends = log_one log_key value;
                            events = refl;
                          }))))))

    range_rows :
        (range : Range)
        → admitted.device_entry.mutation ≡ delete_range range
        → (j : Key) → map_get j staging.points ≡ row_of (last_for j (es ++ admitted ∷ []))
    range_rows range m j = rw (last_for-snoc j es admitted, m) (h.rows j)

    admit_range-IsStep :
        (range : Range)
        → admitted.device_entry.mutation ≡ delete_range range
        → Ends S Q (admit_range space store admitted range staging)
    unfolding admit_range
    admit_range-IsStep range m =
        let entry = admitted.device_entry in
        Ends-any S Q (effective_history space store range) _ (λ effective found.
          let stored_ver =
            if max_admission_seq effective.history == 0 then none else some effective.max_ver in
          let current =
            max_ver stored_ver (events_max_ver (mutation_relevant range) staging.events) in
          let error : Ver → KernelError = λ v. range_ver_regression range v entry.tag.ver in
          Ends->>= S (λ u. Unit) Q (check_ver error current entry.tag.ver) _
            (check_ver-Ends space bytes S reject store error current entry.tag.ver)
            (λ checked u.
              Ends-any S Q
                (apply_range_count space store staging.events entry.tag.device
                  admitted.admission.admission_seq entry.tag.ver (order admitted.admission)
                  staging.aggregates range)
                _
                (λ aggregates found.
                  Ends-any S Q (staged_tombstone space store staging.ranges range admitted) _
                    (λ tombstone found. Ends-any S Q (range_delete_new admitted) _ (λ rec n.
                      Ends-any S Q (range_delete_encode rec) _ (λ value f.
                        let log_key =
                          admission_range_op_key space admitted.admission.admission_seq
                            admitted.admission.op_index range in
                        let ops = staging.batch ++ put log_key value ∷ [] in
                        let row : LoggedAs space ops admitted (delete_range range) =
                          (rec, value, n, f, log_last log_key value) in
                        record {
                          staged = record {
                            rows = range_rows range m;
                            logged =
                                All-append (Logged space ops) es (admitted ∷ [])
                                  (Logged-later space staging.batch ops es (log_one log_key value)
                                    h.logged)
                                  (subst (LoggedAs space ops admitted) (sym m) row, tt);
                          };
                          extends = log_one log_key value;
                          events = refl;
                        }))))))

    admit_mutation-IsStep :
        (m : Mutation OpaqueValue)
        → admitted.device_entry.mutation ≡ m
        → Ends S Q (admit_mutation space store admitted m staging)
    unfolding admit_mutation
    admit_mutation-IsStep (set key value) e =
        admit_point-IsStep key (λ j. rw e refl)
          (λ ops l. subst (LoggedAs space ops admitted) (sym e) l)
    admit_mutation-IsStep (delete key) e =
        admit_point-IsStep key (λ j. rw e refl)
          (λ ops l. subst (LoggedAs space ops admitted) (sym e) l)
    admit_mutation-IsStep (delete_range range) e = admit_range-IsStep range e

  module _ (device : DeviceId) (device_seq : DeviceSeq) (seq : AdmissionSeq) where
    -- What a run of entries has staged, from one staging on.
    pub record IsRun (es : List AdmittedEntry) (before after : Staging) : Type 0 where
      pub staged : IsStaged space es after
      pub extends : Extends before.batch after.batch

    admit_entry-IsRun :
        (op_index : ℕ) (entry : DeviceEntry) (es : List AdmittedEntry) (staging : Staging)
        → IsStaged space es staging
        → Ends S
            (IsRun (es ++ numbered seq op_index (entry ∷ [])) staging)
            (admit_entry space store device device_seq seq op_index entry staging)
    unfolding admit_entry numbered
    admit_entry-IsRun op_index entry es staging h =
        let admitted : AdmittedEntry = record {
          device_entry = entry;
          admission = record { admission_seq = seq; op_index = op_index };
        } in
        let Q = IsRun (es ++ admitted ∷ []) staging in
        let indexed = leb op_index (2 ^ 32 - 1) in
        let matched = (entry.tag.device == device) && (entry.tag.device_seq == device_seq) in
        Ends->>= S (λ u. Unit) Q (guard indexed invalid_seal) _
          (guard-Ends S reject indexed invalid_seal)
          (λ i u.
            Ends->>= S (λ u. Unit) Q (guard matched invalid_seal) _
              (guard-Ends S reject matched invalid_seal)
              (λ m u.
                Ends->>= S (λ u. Unit) Q (check_seal (validate_payload entry.seal)) _
                  (check_seal-Ends space bytes S reject store (validate_payload entry.seal))
                  (λ sealed u.
                    Ends->>= S (IsStep space (es ++ admitted ∷ []) staging) Q
                      (admit_mutation space store admitted entry.mutation staging) _
                      (admit_mutation-IsStep admitted es staging h entry.mutation refl)
                      (λ after x. record {
                        staged = record { rows = x.staged.rows; logged = x.staged.logged };
                        extends = x.extends;
                      }))))

    pub admit_entries-IsRun :
        (op_index : ℕ) (entries : List DeviceEntry) (es : List AdmittedEntry) (staging : Staging)
        → IsStaged space es staging
        → Ends S
            (IsRun (es ++ numbered seq op_index entries) staging)
            (admit_entries space store device device_seq seq op_index entries staging)
    unfolding admit_entries numbered
    admit_entries-IsRun op_index [] es staging h = record {
      staged = subst (λ (l : List AdmittedEntry). IsStaged space l staging) (sym (append-nil es)) h;
      extends = λ k v p. p;
    }
    admit_entries-IsRun op_index (entry ∷ entries) es staging h =
        let one = numbered seq op_index (entry ∷ []) in
        let more = numbered seq (op_index + 1) entries in
        Ends->>= S (IsRun (es ++ one) staging) (IsRun (es ++ (one ++ more)) staging)
          (admit_entry space store device device_seq seq op_index entry staging) _
          (admit_entry-IsRun op_index entry es staging h)
          (λ after x.
            Ends-map S (IsRun ((es ++ one) ++ more) after) (IsRun (es ++ (one ++ more)) staging)
              (admit_entries space store device device_seq seq (op_index + 1) entries after)
              (admit_entries-IsRun (op_index + 1) entries (es ++ one) after x.staged)
              (λ last y. record {
                staged =
                    subst (λ (l : List AdmittedEntry). IsStaged space l last)
                      (append_assoc es one more) y.staged;
                extends = λ k v p. y.extends k v (x.extends k v p);
              }))
