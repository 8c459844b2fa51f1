-- ===== src/Lib.antt =====
-- Homebase: a model of the kernel of a local-first store, and of what its parts promise.
--
-- The kernel's vocabulary lives in core/, its server side in server/. A space keeps leases over
-- prefixes of its keys in an ordered byte store; a device acquires, renews and releases them, and
-- admission checks every write against the leases of other devices. The parts, and the files:
--
--   Key        core/src/key.rs       components, keys, limits, the order-preserving encoding
--   Range      core/src/range.rs     full and prefix ranges
--   Reader     core/src/reader.rs    the cursor over bytes
--   Writer     core/src/writer.rs    the byte writer, tagged fields
--   Storage    core/src/storage.rs   `MemoryStore`, write batches, `prefix_successor`
--   Clock      core/src/clock.rs     wall, manual and hybrid clocks, the expiry rule
--   Seal       core/src/seal.rs      seals and their storage encoding
--   Tag        core/src/tag.rs       identifiers, entries, mutations
--   Lease      core/src/lease.rs     lease modes
--   Messages   core/src/messages.rs  requests, responses, errors, pull validation, checksums
--   Schema     server/src/schema.rs  storage keys, the stored records; Schema/Heads the
--              historical heads, Schema/DataRecord, RangeDelete and AdmissionLog the data plane's
--   Data       server/src/space/data.rs   admission (Data/Staging for an entry, Data/Admit for a
--              request), the replay of the log (Data/Log) and the reads (Data/Read); Data/Footprint,
--              Data/Outcome and Data/Written have the proofs about admission
--   Space      server/src/space/mod.rs  the space that serves the verbs, and its runs
--   Leases     server/src/space/lease.rs  the lease verbs; Leases/Verbs has the handlers, Leases the
--              scans and batches that they use, the other files below Leases the proofs
--   Prelude    helpers: Boolean tests, lists, order, results, maps, big-endian numbers
--
-- How the model stands to the code. Newtypes over `u64` are natural numbers with a bound among a
-- theorem's hypotheses; additions that the code saturates or wraps are written out so, and the
-- lease counter wraps at 2^64. `usize` has 64 bits. A `Duration` is a number of whole milliseconds;
-- an instant counts nanoseconds, and what elapses is truncated as in the code. A `BTreeMap` is an
-- association list in key order, and a mutex or an atomic is a plain field. A lease verb takes its
-- manager and its store and gives back both with its answer; `none` is the panic on a corrupt
-- record. The store is `MemoryStore`, whose operations do not fail, so storage errors do not occur;
-- a verb runs alone, as its `&mut self` enforces. The code's early returns are the `err` answers.
-- `lease_by_id` is `find_by_id`, and `check_specs`, `batch_conflict` and `grant` are the three
-- parts of `LeaseManager::acquire` in order. In the data plane `data`, `range_delete`, `device` and
-- `counters` are `data_at`, `range_delete_at`, `device_at` and `counters_at`, and `get`, `list`,
-- `snapshot` and `delta` are `get_keys`, `list_entries`, `snapshot_of` and `delta_of`. `admit`
-- computes its answer and its write in `admit_plan`, where `Attempt` tells a panic, an early answer
-- and a value apart, and then applies the write. SHA-256 is third-party code and a parameter,
-- `sha256`; `checksum_input` is all that the hash is fed.
--
-- Fuel and bounds. The depth loops count down the depths that are left: `overlapping` runs through
-- all 256 depths that a key can have, `covering` through the depths of its key. `read_fields` runs
-- on fuel, and one round more than there are fields is shown to be enough. All other loops recurse
-- on their list.
--
-- The numbers of admitted batches and of device batches wrap at 2^64 in the model, and the
-- theorems on admission assume that they do not get there; a live count that would leave its range
-- is a panic, as in the code.
--
-- Not modelled: error and debug texts; the hash function; the slatedb binding, channels and tasks
-- of the server, which are I/O; the client and the SQL layer.
pub mod Prelude
pub mod Key
pub mod Range
pub mod Reader
pub mod Writer
pub mod Storage
pub mod Clock
pub mod Seal
pub mod Tag
pub mod Lease
pub mod Messages
pub mod Schema
pub mod Leases
pub mod Data
pub mod Space
