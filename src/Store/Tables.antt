-- ===== src/Store/Tables.antt =====
-- The rows that the capacity queries read and write, and the store's errors: the tables `leases`,
-- `capacity_reservations` and `lease_processes` of src/automation/store/schema_v1.sql, StoreError of
-- src/automation/store.rs and StoredTimestamp of src/automation/store/records.rs. A table is the
-- list of its rows, the newest first, and only the columns that the queries use are kept.
use aictx.Base.{ℕ, ◌/◌, ◌%◌, Bool, List, Text, Eq, Option, Result, ok, ok_or, ◌>>=◌}
use aictx.Contracts.Types.{Provider, LeaseStatus}
use aictx.Contracts.Temporal.{UtcTimestamp, TimeCrate, nanos_per_second}

pub data StoreError : Type 0 where
  unsupported_platform service_busy unsafe_storage database_unavailable : StoreError
  database_identity_mismatch installation_mismatch unsupported_schema : StoreError
  migration_checksum_mismatch integrity_check_failed recovery_required : StoreError
  invalid_request idempotency_conflict entropy_unavailable : StoreError
  identifier_collision invalid_transition lease_not_found concurrent_mutation : StoreError

pub data RecoveryState : Type 0 where
  no_recovery required reconciling : RecoveryState

pub data ReservationState : Type 0 where
  held released quarantined recovery_required : ReservationState

pub data DimensionLabel : Type 0 where
  profile provider caller host : DimensionLabel

pub data ProcessState : Type 0 where
  launch_intent starting running stopping exited quarantined recovery_required : ProcessState

unfoldable pub RecoveryState-discrete : Discrete RecoveryState
RecoveryState-discrete = hlevel

unfoldable pub ReservationState-discrete : Discrete ReservationState
ReservationState-discrete = hlevel

unfoldable pub DimensionLabel-discrete : Discrete DimensionLabel
DimensionLabel-discrete = hlevel

unfoldable pub ProcessState-discrete : Discrete ProcessState
ProcessState-discrete = hlevel

instance abbrev pub recovery_eq : Eq RecoveryState
recovery_eq = record { dec = RecoveryState-discrete }

instance abbrev pub reservation_state_eq : Eq ReservationState
reservation_state_eq = record { dec = ReservationState-discrete }

instance abbrev pub label_eq : Eq DimensionLabel
label_eq = record { dec = DimensionLabel-discrete }

instance abbrev pub process_state_eq : Eq ProcessState
process_state_eq = record { dec = ProcessState-discrete }

-- `seconds` counts from the first instant that the `time` crate represents.
pub record StoredTimestamp : Type 0 where
  pub wire : Text
  pub seconds : ℕ
  pub nanos : ℕ

-- `StoredTimestamp::from_utc`.
unfoldable pub from_utc : TimeCrate → UtcTimestamp → Result StoreError StoredTimestamp
from_utc crate value = do
  parsed ← ok_or (crate.parse value.wire) StoreError.invalid_request
  ok record {
    wire = value.wire;
    seconds = parsed.0 / nanos_per_second;
    nanos = parsed.0 % nanos_per_second;
  }

pub record LeaseRow : Type 0 where
  pub lease_id : Text
  pub status : LeaseStatus
  pub recovery_state : RecoveryState
  pub quarantined : Bool
  pub provider : Provider
  pub profile_uid : Text
  pub authenticated_caller : Text
  pub host_identity : Text
  pub tenant_id : Text

pub record ReservationRow : Type 0 where
  pub reservation_id : Text
  pub lease_id : Text
  pub provider : Provider
  pub profile_uid : Text
  pub authenticated_caller : Text
  pub host_identity : Text
  pub tenant_id : Text
  pub dimension : DimensionLabel
  pub key : Text
  pub limit : ℕ
  pub slot : ℕ
  pub state : ReservationState
  pub reserved_at : StoredTimestamp
  pub released_at : Option StoredTimestamp

pub record ProcessRow : Type 0 where
  pub lease_id : Text
  pub state : ProcessState

pub record Tables : Type 0 where
  pub leases : List LeaseRow
  pub reservations : List ReservationRow
  pub processes : List ProcessRow
