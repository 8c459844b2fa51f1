-- ===== src/Lease.antt =====
-- core/src/lease.rs: leases and their modes.
use homebase.Prelude.{ℕ, ◌≡◌, refl, Bool, true, false, starts_with, list_ord, nat_ord}
use homebase.Key.{Key}
use homebase.Clock.{HybridTimestamp, Timestamp, Duration}
use homebase.Tag.{AdmissionSeq}

pub data LeaseMode : Type 0 where
  read write : LeaseMode

abbrev pub compatible_with : LeaseMode → LeaseMode → Bool
compatible_with read read = true
compatible_with read write = false
compatible_with write other = false

abbrev pub LeaseId : Type 0
LeaseId = ℕ

pub record Lease : Type 0 where
  pub id : LeaseId
  pub prefix : Key
  pub mode : LeaseMode
  pub requested_at : HybridTimestamp
  pub granted_at : Timestamp
  pub ttl : Duration
  pub barrier : AdmissionSeq

unfoldable pub covers : Lease → Key → Bool
covers lease key = starts_with key lease.prefix

pub compatible_with_comm : (a b : LeaseMode) → compatible_with a b ≡ compatible_with b a
compatible_with_comm read read = refl
compatible_with_comm read write = refl
compatible_with_comm write read = refl
compatible_with_comm write write = refl
