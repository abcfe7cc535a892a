-- ===== src/Store/Graph.antt =====
-- The reservations of one lease: `reservation_graph` of src/automation/store/capacity.rs, and the
-- lookup by the key of `leases`.
use aictx.Base.{
  ℕ, Bool, not, ◌&&◌, ◌||◌, Option, none, some, List, [], ◌∷◌, Text, Eq, ◌==◌, Result, ok, err,
  if◌then◌else◌, nat_eq, text_eq,
}
use aictx.Store.Tables.{
  StoreError, ReservationState, DimensionLabel, LeaseRow, ReservationRow, reservation_state_eq,
  label_eq,
}
use aictx.Store.Schema.{any_row, of_lease}
use aictx.Store.Slots.{count_rows}

pub data ReservationGraph : Type 0 where
  no_reservation held released quarantined recovery_required : ReservationGraph

unfoldable pub ReservationGraph-discrete : Discrete ReservationGraph
ReservationGraph-discrete = hlevel

instance abbrev pub graph_eq : Eq ReservationGraph
graph_eq = record { dec = ReservationGraph-discrete }

abbrev pub every_label : List DimensionLabel
every_label =
    DimensionLabel.profile ∷ DimensionLabel.provider ∷ DimensionLabel.caller ∷ DimensionLabel.host
    ∷ []

abbrev pub in_state : ReservationState → Text → ReservationRow → Bool
in_state state lease_id row = of_lease lease_id row && row.state == state

unfoldable pub reservation_graph : List ReservationRow → Text → Result StoreError ReservationGraph
unfolding any_row count_rows
reservation_graph rows lease_id =
    let total = count_rows (of_lease lease_id) rows in
    let distinct =
      count_rows (λ label. any_row (λ row. of_lease lease_id row && row.dimension == label) rows)
        every_label in
    let held_rows = count_rows (in_state ReservationState.held lease_id) rows in
    let released_rows = count_rows (in_state ReservationState.released lease_id) rows in
    let quarantined_rows = count_rows (in_state ReservationState.quarantined lease_id) rows in
    let recovery_rows = count_rows (in_state ReservationState.recovery_required lease_id) rows in
    let only = λ (a b c d : ℕ).
      held_rows == a && released_rows == b && quarantined_rows == c && recovery_rows == d in
    if total == 0 && distinct == 0
    then ok ReservationGraph.no_reservation
    else if not (total == 4) || not (distinct == 4)
    then err StoreError.integrity_check_failed
    else if only 4 0 0 0
    then ok ReservationGraph.held
    else if only 0 4 0 0
    then ok ReservationGraph.released
    else if only 0 0 4 0
    then ok ReservationGraph.quarantined
    else if only 0 0 0 4
    then ok ReservationGraph.recovery_required
    else err StoreError.integrity_check_failed

-- `... FROM leases WHERE lease_id = ?1`: the key of the table.
unfoldable pub find_lease : List LeaseRow → Text → Option LeaseRow
find_lease [] lease_id = none
find_lease (row ∷ rows) lease_id =
    let rest = find_lease rows lease_id in if row.lease_id == lease_id then some row else rest
