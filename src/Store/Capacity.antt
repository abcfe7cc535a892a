-- ===== src/Store/Capacity.antt =====
-- Claims of capacity: `validate_claim_binding`, `claim`, `available` and
-- `held_claim_matches` of src/automation/store/capacity.rs. A transaction that returns an error is
-- rolled back, so the tables are returned with a success only.
use aictx.Base.{
  ℕ, Bool, true, false, not, ◌&&◌, ◌||◌, Option, none, some, List, [], ◌∷◌, Text, ◌==◌, Result, ok,
  err, refuse_if, ◌>>=◌, ◌>>◌, if◌then◌else◌, nat_eq, text_eq,
}
use aictx.Contracts.Types.{LeaseStatus, status_eq, provider_eq}
use aictx.Contracts.Temporal.{UtcTimestamp, TimeCrate}
use aictx.Policy.Types.{CapacityClaim}
use aictx.Policy.Digest.{provider_label}
use aictx.Store.Tables.{
  StoreError, RecoveryState, ReservationState, DimensionLabel, StoredTimestamp, from_utc, LeaseRow,
  ReservationRow, Tables, recovery_eq, reservation_state_eq, label_eq,
}
use aictx.Store.Ids.{Randomness, capacity_prefix, allocate_id}
use aictx.Store.Schema.{any_row, has_id, admits_row}
use aictx.Store.Graph.{ReservationGraph, graph_eq, in_state, reservation_graph, find_lease}
use aictx.Store.Slots.{Dimension, count_rows, reservation_plan}

abbrev pub binding_matches : CapacityClaim → LeaseRow → Bool
binding_matches claim row =
    row.status == LeaseStatus.requested
    && row.recovery_state == RecoveryState.no_recovery
    && not row.quarantined
    && row.profile_uid == claim.profile_uid
    && row.provider == claim.provider
    && row.authenticated_caller == claim.caller_subject
    && row.host_identity == claim.host_identity

unfoldable pub validate_claim_binding :
    List LeaseRow → Text → CapacityClaim → Result StoreError (Unit {0})
unfolding find_lease
validate_claim_binding leases lease_id claim = elim (find_lease leases lease_id) [
  | none ↦ err StoreError.invalid_transition
  | some row ↦ refuse_if (not (binding_matches claim row)) StoreError.invalid_transition
]

abbrev pub new_reservation : LeaseRow → StoredTimestamp → Text → Dimension → ℕ → ReservationRow
new_reservation lease timestamp id dimension slot = record {
  reservation_id = id;
  lease_id = lease.lease_id;
  provider = lease.provider;
  profile_uid = lease.profile_uid;
  authenticated_caller = lease.authenticated_caller;
  host_identity = lease.host_identity;
  tenant_id = lease.tenant_id;
  dimension = dimension.label;
  key = dimension.key;
  limit = dimension.limit;
  slot = slot;
  state = ReservationState.held;
  reserved_at = timestamp;
  released_at = none;
}

-- `INSERT INTO capacity_reservations ... SELECT ... FROM leases`: no lease gives no row, and a row
-- that the schema refuses is the engine's error.
unfoldable pub insert :
    List LeaseRow
    → Text
    → StoredTimestamp
    → Text
    → Dimension × ℕ
    → List ReservationRow
    → Result StoreError (List ReservationRow)
unfolding find_lease admits_row
insert leases lease_id timestamp id (dimension, slot) rows = elim (find_lease leases lease_id) [
  | none ↦ err StoreError.concurrent_mutation
  | some lease ↦
      let new = new_reservation lease timestamp id dimension slot in
      if admits_row rows new then ok (new ∷ rows) else err StoreError.database_unavailable
]

-- The loop of `claim` over the plan, after `drawn` calls for random bytes.
unfoldable pub reserve :
    Randomness
    → List LeaseRow
    → Text
    → StoredTimestamp
    → ℕ
    → List (Dimension × ℕ)
    → List ReservationRow
    → Result StoreError (List ReservationRow)
unfolding allocate_id any_row insert
reserve fill leases lease_id timestamp drawn [] rows = ok rows
reserve fill leases lease_id timestamp drawn (planned ∷ more) rows = do
  allocated ← allocate_id fill capacity_prefix (λ id. any_row (has_id id) rows) drawn
  inserted ← insert leases lease_id timestamp allocated.0 planned rows
  reserve fill leases lease_id timestamp allocated.1 more inserted

abbrev pub with_reservations : Tables → List ReservationRow → Tables
with_reservations tables rows = record {
  leases = tables.leases;
  reservations = rows;
  processes = tables.processes;
}

module _ (crate : TimeCrate) (fill : Randomness) where
  -- The part of `claim` behind its plan.
  unfoldable pub hold :
      Tables → Text → UtcTimestamp → List (Dimension × ℕ) → Result StoreError (Bool × Tables)
  unfolding from_utc reserve reservation_graph
  hold tables lease_id now plan = do
    timestamp ← from_utc crate now
    rows ← reserve fill tables.leases lease_id timestamp 0 plan tables.reservations
    graph ← reservation_graph rows lease_id
    refuse_if (not (graph == ReservationGraph.held)) StoreError.integrity_check_failed
    ok (true, with_reservations tables rows)

  unfoldable pub claim :
      Tables → Text → CapacityClaim → UtcTimestamp → Result StoreError (Bool × Tables)
  unfolding validate_claim_binding reservation_graph reservation_plan hold
  claim tables lease_id claimed now = do
    validate_claim_binding tables.leases lease_id claimed
    graph ← reservation_graph tables.reservations lease_id
    refuse_if (not (graph == ReservationGraph.no_reservation)) StoreError.integrity_check_failed
    planned ← reservation_plan tables.reservations claimed
    elim planned [ none ↦ ok (false, tables) | some plan ↦ hold tables lease_id now plan ]

abbrev pub is_some {ℓ} : {A : Type ℓ} → Option A → Bool
is_some none = false
is_some (some a) = true

unfoldable pub available : Tables → Text → CapacityClaim → Result StoreError Bool
unfolding validate_claim_binding reservation_graph reservation_plan
available tables lease_id claimed = do
  validate_claim_binding tables.leases lease_id claimed
  graph ← reservation_graph tables.reservations lease_id
  refuse_if (not (graph == ReservationGraph.no_reservation)) StoreError.integrity_check_failed
  planned ← reservation_plan tables.reservations claimed
  ok (is_some planned)

abbrev matches_claim : CapacityClaim → ReservationRow → Bool
matches_claim claimed row =
    row.dimension == DimensionLabel.profile
      && row.key == claimed.profile_uid
      && row.limit == claimed.limits.profile
    || row.dimension == DimensionLabel.provider
      && row.key == provider_label claimed.provider
      && row.limit == claimed.limits.provider
    || row.dimension == DimensionLabel.caller
      && row.key == claimed.caller_subject
      && row.limit == claimed.limits.caller
    || row.dimension == DimensionLabel.host
      && row.key == claimed.host_identity
      && row.limit == claimed.limits.host

unfoldable pub held_claim_matches : Tables → Text → CapacityClaim → Result StoreError Bool
unfolding reservation_graph count_rows
held_claim_matches tables lease_id claimed = do
  graph ← reservation_graph tables.reservations lease_id
  refuse_if (not (graph == ReservationGraph.held)) StoreError.integrity_check_failed
  let matching =
      count_rows (λ row. in_state ReservationState.held lease_id row && matches_claim claimed row)
        tables.reservations
  ok (matching == 4)
