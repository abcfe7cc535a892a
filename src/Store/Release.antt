-- ===== src/Store/Release.antt =====
-- Releases of capacity: `release_if_resolved`, `release_recovery_if_resolved` and
-- `profile_has_blocking_state` of src/automation/store/capacity.rs. The trigger on updates lets
-- every live state become RELEASED, so that the updates here always go through.
use aictx.Base.{
  ℕ, Bool, false, not, ◌&&◌, ◌||◌, Option, none, some, List, map, Text, ◌==◌, Result, ok, ok_or,
  refuse_if, ◌>>=◌, ◌>>◌, if◌then◌else◌, nat_eq, text_eq,
}
use aictx.Contracts.Types.{LeaseStatus, status_eq}
use aictx.Contracts.Temporal.{UtcTimestamp, TimeCrate}
use aictx.Lease.Lifecycle.{is_terminal}
use aictx.Store.Tables.{
  StoreError, RecoveryState, ReservationState, ProcessState, StoredTimestamp, from_utc, LeaseRow,
  ReservationRow, ProcessRow, Tables, recovery_eq, reservation_state_eq, process_state_eq,
}
use aictx.Store.Schema.{any_row, is_live, of_lease, counts_for}
use aictx.Store.Slots.{Dimension, count_rows}
use aictx.Store.Graph.{ReservationGraph, graph_eq, in_state, reservation_graph, find_lease}
use aictx.Store.Capacity.{with_reservations}

abbrev pub runs_for : Text → ProcessRow → Bool
runs_for lease_id process =
    process.lease_id == lease_id && not (process.state == ProcessState.exited)

-- The `releasable` query: none without the lease.
unfoldable pub releasable : Tables → Text → Option Bool
unfolding find_lease any_row
releasable tables lease_id = elim (find_lease tables.leases lease_id) [
  | none ↦ none
  | some lease ↦ some (
      is_terminal lease.status
      && lease.recovery_state == RecoveryState.no_recovery
      && not lease.quarantined
      && not (any_row (runs_for lease_id) tables.processes))
]

abbrev pub released_row : StoredTimestamp → ReservationRow → ReservationRow
released_row timestamp row = record {
  reservation_id = row.reservation_id;
  lease_id = row.lease_id;
  provider = row.provider;
  profile_uid = row.profile_uid;
  authenticated_caller = row.authenticated_caller;
  host_identity = row.host_identity;
  tenant_id = row.tenant_id;
  dimension = row.dimension;
  key = row.key;
  limit = row.limit;
  slot = row.slot;
  state = ReservationState.released;
  reserved_at = row.reserved_at;
  released_at = some timestamp;
}

-- `UPDATE capacity_reservations SET state = 'RELEASED', ... WHERE ...`.
unfoldable pub release_where :
    (ReservationRow → Bool) → StoredTimestamp → List ReservationRow → List ReservationRow
release_where test timestamp rows =
    map (λ row. if test row then released_row timestamp row else row) rows

abbrev pub is_held : Text → ReservationRow → Bool
is_held lease_id row = in_state ReservationState.held lease_id row

abbrev pub is_live_of : Text → ReservationRow → Bool
is_live_of lease_id row = of_lease lease_id row && is_live row

-- The reservations that a lease holds of a dimension.
unfoldable pub held_share : Text → Dimension → List ReservationRow → ℕ
unfolding count_rows
held_share lease_id d rows =
    count_rows (λ row. is_held lease_id row && counts_for d.label d.key row) rows

module _ (crate : TimeCrate) where
  -- The part of `release_if_resolved` for a held graph.
  unfoldable pub release_held : Tables → Text → UtcTimestamp → Result StoreError (ℕ × Tables)
  unfolding from_utc count_rows release_where
  release_held tables lease_id now = do
    timestamp ← from_utc crate now
    let changed = count_rows (is_held lease_id) tables.reservations
    refuse_if (not (changed == 0) && not (changed == 4)) StoreError.integrity_check_failed
    ok (
      changed,
      with_reservations tables (release_where (is_held lease_id) timestamp tables.reservations),
    )

  unfoldable pub release_if_resolved : Tables → Text → UtcTimestamp → Result StoreError (ℕ × Tables)
  unfolding reservation_graph releasable release_held
  release_if_resolved tables lease_id now = do
    graph ← reservation_graph tables.reservations lease_id
    resolved ← ok_or (releasable tables lease_id) StoreError.invalid_transition
    let due = resolved && graph == ReservationGraph.held
    if due then release_held tables lease_id now else ok (0, tables)

  unfoldable pub release_recovery_if_resolved :
      Tables → Text → UtcTimestamp → Result StoreError (ℕ × Tables)
  unfolding releasable from_utc count_rows release_where
  release_recovery_if_resolved tables lease_id now = do
    resolved ← ok_or (releasable tables lease_id) StoreError.invalid_transition
    refuse_if (not resolved) StoreError.recovery_required
    timestamp ← from_utc crate now
    ok (
      count_rows (is_live_of lease_id) tables.reservations,
      with_reservations tables (release_where (is_live_of lease_id) timestamp tables.reservations),
    )

-- `... JOIN leases l USING (lease_id) WHERE l.profile_uid = ?1`.
unfoldable pub of_profile : List LeaseRow → Text → Text → Bool
unfolding find_lease
of_profile leases profile_uid lease_id = elim (find_lease leases lease_id) [
  | none ↦ false
  | some lease ↦ lease.profile_uid == profile_uid
]

abbrev pub blocks_profile : Text → LeaseRow → Bool
blocks_profile profile_uid lease =
    lease.profile_uid == profile_uid
    && (lease.status == LeaseStatus.requested
        || lease.status == LeaseStatus.active
        || lease.status == LeaseStatus.renewing
        || lease.status == LeaseStatus.error
        || not (lease.recovery_state == RecoveryState.no_recovery)
        || lease.quarantined)

unfoldable pub profile_has_blocking_state : Tables → Text → Bool
unfolding any_row of_profile
profile_has_blocking_state tables profile_uid =
    any_row (blocks_profile profile_uid) tables.leases
    || any_row (λ row. of_profile tables.leases profile_uid row.lease_id && is_live row)
        tables.reservations
    || any_row
        (λ process.
          of_profile tables.leases profile_uid process.lease_id
          && not (process.state == ProcessState.exited))
        tables.processes
