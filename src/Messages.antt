-- ===== src/Messages.antt =====
-- core/src/messages.rs: the requests and responses of the kernel verbs, and their errors. An
-- error's text is left out.
pub mod Pull
pub mod Checksum
pub mod Examples
use homebase.Prelude.{ℕ, Bool, List, Option, none, some, get_elem?}
use homebase.Key.{Key}
use homebase.Range.{Range}
use homebase.Clock.{HybridTimestamp, Timestamp, Duration}
use homebase.Lease.{Lease, LeaseId, LeaseMode}
use homebase.Tag.{
  AdmissionSeq, AdmittedEntry, DeviceChecksum, DeviceEntry, DeviceId, DeviceSeq, Ver,
}

pub record LeaseSpec : Type 0 where
  pub prefix : Key
  pub mode : LeaseMode
  pub ttl : Duration

pub record AcquireRequest : Type 0 where
  pub device : DeviceId
  pub requested_at : HybridTimestamp
  pub specs : List LeaseSpec

pub record RenewRequest : Type 0 where
  pub device : DeviceId
  pub requested_at : HybridTimestamp
  pub leases : List LeaseId

pub record RenewGrant : Type 0 where
  pub id : LeaseId
  pub granted_at : Timestamp
  pub ttl : Duration
  pub contended : Bool

pub record RenewResponse : Type 0 where
  pub granted : List RenewGrant
  pub invalid : List LeaseId

pub record ReleaseRequest : Type 0 where
  pub device : DeviceId
  pub leases : List LeaseId

pub record ListLeasesRequest : Type 0 where
  pub device : DeviceId

pub record RangeAssert : Type 0 where
  pub prefix : Key
  pub upto : AdmissionSeq

pub record RangeAssertFailure : Type 0 where
  pub prefix : Key
  pub upto : AdmissionSeq
  pub actual : AdmissionSeq

pub record AdmissionBatch : Type 0 where
  pub device_seq : DeviceSeq
  pub range_asserts : List RangeAssert
  pub entries : List DeviceEntry

pub record AdmissionRequest : Type 0 where
  pub device : DeviceId
  pub expected_checksum : DeviceChecksum
  pub evidence : List LeaseId
  pub batches : List AdmissionBatch

pub data KernelError : Type 0 where
  contended : Key → Option Duration → KernelError
  range_contended : Range → Option Duration → KernelError
  lease_invalid : LeaseId → KernelError
  not_covered : Key → KernelError
  invalid_seal : KernelError
  range_assert_failed : List RangeAssertFailure → KernelError
  ver_regression : Key → Ver → Ver → KernelError
  range_ver_regression : Range → Ver → Ver → KernelError
  device_seq_regression : DeviceSeq → DeviceSeq → KernelError
  device_checksum_mismatch : DeviceSeq → DeviceChecksum → KernelError
  admission_cursor_ahead : AdmissionSeq → AdmissionSeq → KernelError
  unauthorized : Key → KernelError

pub record AdmittedBatch : Type 0 where
  pub admission_seq : AdmissionSeq
  pub device : DeviceId
  pub device_seq : DeviceSeq
  pub checksum : DeviceChecksum
  pub entries : List AdmittedEntry

pub record PullRequest : Type 0 where
  pub after : AdmissionSeq
  pub max_batches : Option ℕ

pub record PullResponse : Type 0 where
  pub after : AdmissionSeq
  pub through : AdmissionSeq
  pub batches : List AdmittedBatch

pub data AdmissionResult : Type 0 where
  applied : AdmissionSeq → AdmissionResult
  failed : KernelError → AdmissionResult

pub record AdmissionResponse : Type 0 where
  pub checksum : DeviceChecksum
  pub results : List AdmissionResult

abbrev applied_seq : Option AdmissionResult → Option AdmissionSeq
applied_seq (some (applied admission_seq)) = some admission_seq
applied_seq (some (failed error)) = none
applied_seq none = none

unfoldable pub applied_admission_seq : AdmissionResponse → ℕ → Option AdmissionSeq
applied_admission_seq r index = applied_seq (get_elem? r.results index)

pub record GetRequest : Type 0 where
  pub keys : List Key

pub record GetResponse : Type 0 where
  pub entries : List (Option AdmittedEntry)

pub record ListRequest : Type 0 where
  pub prefix : Key
  pub start_after : Option Key
  pub limit : Option ℕ

pub record ListResponse : Type 0 where
  pub entries : List AdmittedEntry
  pub truncated : Bool

pub record RangeCursor : Type 0 where
  pub range : Range
  pub since : Option AdmissionSeq

pub record ReadAtRequest : Type 0 where
  pub ranges : List RangeCursor

pub data RangeCut : Type 0 where
  snapshot delta : List AdmittedEntry → RangeCut

pub record ReadAtResponse : Type 0 where
  pub at : AdmissionSeq
  pub ranges : List RangeCut
