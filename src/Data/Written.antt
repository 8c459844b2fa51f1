-- ===== src/Data/Written.antt =====
-- What an admission stages to be written (server/src/space/data.rs, `admit_impl`): a log row for
-- every entry, and for every key the point record of its last entry.
pub mod Entries
pub mod Puts
pub mod Targets
pub mod Whole
pub mod Batches
use homebase.Prelude.{
  ℕ, ◌+◌, ◌-◌, ◌^◌, ◌≡◌, refl, sym, subst, ap, ◌∙◌, Bool, true, false, not, ◌&&◌, List, [], ◌∷◌,
  ◌++◌, append_assoc, append-nil, Option, none, some, leb, ◌==◌, eq_of_==, nat_ord, list_ord,
  if◌then◌else◌, All, Result, ok, err, inl, inr, ◌⊎◌, Bool-cases,
}
use homebase.Prelude.Bytes.{Bytes}
use homebase.Prelude.Map.{Map, map_get, map_get-insert, map_insert}
use homebase.Prelude.Attempt.{expect, Ends, Ends->>=, Ends-map, Ends-any}
use homebase.Key.{Key}
use homebase.Range.{Range}
use homebase.Range.Order.{range_ord}
use homebase.Messages.{KernelError, invalid_seal, ver_regression, range_ver_regression}
use homebase.Schema.{SpaceId}
use homebase.Schema.Heads.{max_admission_seq}
use homebase.Schema.DataRecord.{DataRecord, data_encode}
use homebase.Schema.RangeDelete.{RangeDeleteRecord, range_delete_new, range_delete_encode}
use homebase.Schema.AdmissionLog.{admission_op_key, admission_range_op_key}
use homebase.Seal.{SealPayloadError, validate_payload}
use homebase.Storage.{MemoryStore, WriteBatch, Op, put}
use homebase.Tag.{
  AdmissionSeq, AdmittedEntry, DeviceEntry, DeviceId, DeviceSeq, Mutation, set, delete,
  delete_range, OpaqueValue, Ver, entry_ver, order, is_set,
}
use mathlib.Core.Option
use homebase.Data.{
  point_record_visible_with_events, covering_range_max_ver, effective_history, max_ver,
}
use homebase.Data.Staged.{mutation_relevant, resets, events_max_ver, prior_record, staged_tombstone}
use homebase.Data.Counts.{apply_point_count, apply_range_count, count_delta}
use homebase.Data.Staging.{
  Exit, rejected, Staging, guard, check_ver, check_seal, admit_point, admit_range, admit_mutation,
  admit_entry, admit_entries,
}
use homebase.Data.Footprint.Operations.{guard-Ends, check_ver-Ends, check_seal-Ends}

-- The batch writes the value under the key.
abbrev pub Puts : Bytes → Bytes → WriteBatch → Type 0
Puts key value [] = ⊥
Puts key value (op ∷ ops) = (op ≡ put key value) ⊎ Puts key value ops

pub Puts-left :
    (key value : Bytes) (ops more : WriteBatch) → Puts key value ops → Puts key value (ops ++ more)
Puts-left key value [] more h = absurd h
Puts-left key value (op ∷ ops) more (inl e) = inl e
Puts-left key value (op ∷ ops) more (inr h) = inr (Puts-left key value ops more h)

pub Puts-right :
    (key value : Bytes) (ops more : WriteBatch) → Puts key value more → Puts key value (ops ++ more)
Puts-right key value [] more h = h
Puts-right key value (op ∷ ops) more h = inr (Puts-right key value ops more h)

-- The later batch writes all that the earlier one does.
abbrev pub Extends : WriteBatch → WriteBatch → Type 0
Extends ops more = (key value : Bytes) → Puts key value ops → Puts key value more

-- Does the entry set or delete the key?
abbrev pub targets : Key → Mutation OpaqueValue → Bool
targets key (set k value) = key == k
targets key (delete k) = key == k
targets key (delete_range range) = false

-- The last entry that sets or deletes the key.
unfoldable pub last_for : Key → List AdmittedEntry → Option AdmittedEntry
last_for key [] = none
last_for key (e ∷ es) = elim (last_for key es) [
  | some later ↦ some later
  | none ↦ if targets key e.device_entry.mutation then some e else none
]

pub last_for-snoc :
    (key : Key) (es : List AdmittedEntry) (e : AdmittedEntry)
    → last_for key (es ++ e ∷ [])
      ≡ (if targets key e.device_entry.mutation then some e else last_for key es)
unfolding last_for
last_for-snoc key [] e = refl
last_for-snoc key (x ∷ es) e = elim (Bool-cases (targets key e.device_entry.mutation)) [
  | inl q ↦ rw (last_for-snoc key es e, q) refl
  | inr q ↦ rw (last_for-snoc key es e, q) refl
]

abbrev pub row_of : Option AdmittedEntry → Option DataRecord
row_of none = none
row_of (some e) = some (record { entry = e })

module _ (space : SpaceId) where
  abbrev pub PointLogged : WriteBatch → AdmittedEntry → Key → Type 0
  PointLogged ops e key =
      (bytes : Bytes) × (data_encode (record { entry = e }) ≡ some bytes)
      × Puts (admission_op_key space e.admission.admission_seq e.admission.op_index key) bytes ops

  -- The batch has the log row of the entry: its point record, or a tombstone of its own.
  abbrev pub LoggedAs : WriteBatch → AdmittedEntry → Mutation OpaqueValue → Type 0
  LoggedAs ops e (set key value) = PointLogged ops e key
  LoggedAs ops e (delete key) = PointLogged ops e key
  LoggedAs ops e (delete_range range) =
      (rec : RangeDeleteRecord) × (bytes : Bytes) × (range_delete_new e ≡ some rec)
      × (range_delete_encode rec ≡ some bytes)
      × Puts (admission_range_op_key space e.admission.admission_seq e.admission.op_index range)
          bytes ops

  abbrev pub Logged : WriteBatch → AdmittedEntry → Type 0
  Logged ops e = LoggedAs ops e e.device_entry.mutation

  LoggedAs-later :
      (ops more : WriteBatch) (e : AdmittedEntry) (m : Mutation OpaqueValue)
      → Extends ops more
      → LoggedAs ops e m
      → LoggedAs more e m
  LoggedAs-later ops more e (set key value) x (bytes, f, p) = (bytes, f, x _ bytes p)
  LoggedAs-later ops more e (delete key) x (bytes, f, p) = (bytes, f, x _ bytes p)
  LoggedAs-later ops more e (delete_range range) x (rec, bytes, n, f, p) =
      (rec, bytes, n, f, x _ bytes p)

  pub Logged-later :
      (ops more : WriteBatch) (es : List AdmittedEntry)
      → Extends ops more
      → All (Logged ops) es
      → All (Logged more) es
  Logged-later ops more [] x h = tt
  Logged-later ops more (e ∷ es) x (h, hs) =
      (LoggedAs-later ops more e e.device_entry.mutation x h, Logged-later ops more es x hs)

  -- What is staged once the entries are admitted.
  pub record IsStaged (es : List AdmittedEntry) (staging : Staging) : Type 0 where
    pub rows : (key : Key) → map_get key staging.points ≡ row_of (last_for key es)
    pub logged : All (Logged staging.batch) es

  -- The same, from one staging on.
  pub record IsStep (es : List AdmittedEntry) (before after : Staging) : Type 0 where
    pub staged : IsStaged es after
    pub extends : Extends before.batch after.batch
    pub events : after.events ≡ before.events
