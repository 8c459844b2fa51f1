-- ===== src/Space.antt =====
-- server/src/space/mod.rs: the verbs of one space, over its leases and its data. `none` is a panic.
pub mod Runs
pub mod Examples
use homebase.Prelude.{List, [], Option, none, some, Result, ok, err}
use homebase.Prelude.Bytes.{Bytes}
use homebase.Prelude.Map.{Map}
use homebase.Clock.{Timestamp}
use homebase.Lease.{Lease, LeaseId}
use homebase.Messages.{
  AcquireRequest, RenewRequest, RenewResponse, ReleaseRequest, ListLeasesRequest, AdmissionRequest,
  AdmissionResponse, PullRequest, PullResponse, GetRequest, GetResponse, ListRequest, ListResponse,
  ReadAtRequest, ReadAtResponse, KernelError,
}
use homebase.Schema.{SpaceId}
use homebase.Storage.{MemoryStore}
use homebase.Leases.{LeaseManager, Verb}
use homebase.Leases.Verbs.{acquire, renew, release, list_leases}
use homebase.Data.Admit.{admit}
use homebase.Data.Log.{pull}
use homebase.Data.Read.{get_keys, list_entries, read_at}

-- The space and its lease manager are made with the same id, and neither id is assigned again: of
-- the manager only the demand is kept here.
pub record Space : Type 0 where
  pub id : SpaceId
  pub demand : Map LeaseId (Unit {0})

abbrev pub space_new : SpaceId → Space
space_new id = record { id = id; demand = [] }

abbrev pub manager : Space → LeaseManager
manager s = record { space = s.id; demand = s.demand }

pub data Call : Type 0 where
  call_acquire : AcquireRequest → Call
  call_renew : RenewRequest → Call
  call_release : ReleaseRequest → Call
  call_list_leases : ListLeasesRequest → Call
  call_admit : AdmissionRequest → Call
  call_pull : PullRequest → Call
  call_get : GetRequest → Call
  call_list : ListRequest → Call
  call_read_at : ReadAtRequest → Call

pub data Reply : Type 0 where
  reply_leases : Result KernelError (List Lease) → Reply
  reply_renew : Result KernelError RenewResponse → Reply
  reply_release : Result KernelError (Unit {0}) → Reply
  reply_admit : Result KernelError AdmissionResponse → Reply
  reply_pull : Result KernelError PullResponse → Reply
  reply_get : GetResponse → Reply
  reply_list : ListResponse → Reply
  reply_read_at : ReadAtResponse → Reply

-- A verb of the leases, which may change the demand.
abbrev pub leased :
    {A : Type 0}
    → Space
    → (Result KernelError A → Reply)
    → Verb A
    → Option (Space × MemoryStore × Reply)
leased s reply none = none
leased s reply (some (mgr, store, answer)) =
    some (record s { demand = mgr.demand }, store, reply answer)

abbrev pub admitted :
    Space
    → Option (MemoryStore × Result KernelError AdmissionResponse)
    → Option (Space × MemoryStore × Reply)
admitted s none = none
admitted s (some (store, answer)) = some (s, store, reply_admit answer)

-- A verb that only reads.
abbrev pub reading :
    {A : Type 0}
    → Space
    → MemoryStore
    → (A → Reply)
    → Option A
    → Option (Space × MemoryStore × Reply)
reading s store reply none = none
reading s store reply (some answer) = some (s, store, reply answer)

-- The methods of `Space`, one for each call.
unfoldable pub serve :
    (Bytes → Bytes) → Space → MemoryStore → Timestamp → Call → Option (Space × MemoryStore × Reply)
unfolding acquire renew release list_leases admit pull get_keys list_entries read_at
serve sha256 s store now (call_acquire req) =
    leased s reply_leases (acquire (manager s) store now req)
serve sha256 s store now (call_renew req) = leased s reply_renew (renew (manager s) store now req)
serve sha256 s store now (call_release req) =
    leased s reply_release (release (manager s) store now req)
serve sha256 s store now (call_list_leases req) =
    leased s reply_leases (list_leases (manager s) store now req)
serve sha256 s store now (call_admit req) = admitted s (admit sha256 s.id store now req)
serve sha256 s store now (call_pull req) = reading s store reply_pull (pull s.id store req)
serve sha256 s store now (call_get req) = reading s store reply_get (get_keys s.id store req)
serve sha256 s store now (call_list req) = reading s store reply_list (list_entries s.id store req)
serve sha256 s store now (call_read_at req) = reading s store reply_read_at (read_at s.id store req)
