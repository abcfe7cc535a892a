-- ===== src/Store/Released.antt =====
-- What a release leaves: `release_if_resolved` and `release_recovery_if_resolved` of
-- src/automation/store/capacity.rs.
use aictx.Base.{
  ℕ, ◌+◌, ◌≡◌, refl, true, false, ◌&&◌, some, List, [], ◌∷◌, Text, ◌==◌, ok, arith, text_eq, nat_eq,
}
use aictx.Contracts.Temporal.{UtcTimestamp, TimeCrate}
use aictx.Store.Tables.{
  StoredTimestamp, from_utc, ReservationRow, Tables, DimensionLabel, ReservationState, label_eq,
  reservation_state_eq, ReservationState-discrete,
}
use aictx.Store.Schema.{any_row, of_lease, counts_for}
use aictx.Store.Slots.{Dimension, count_rows, usage}
use aictx.Store.Graph.{ReservationGraph-discrete, held, released, in_state, reservation_graph}
use aictx.Store.Release.{
  is_held, held_share, is_live_of, release_where, releasable, release_held, release_if_resolved,
  release_recovery_if_resolved,
}

module _ (timestamp : StoredTimestamp) (lease_id : Text) where
  after_release : List ReservationRow → List ReservationRow
  unfolding release_where
  after_release rows = release_where (is_held lease_id) timestamp rows

  usage-after_release :
      (d : Dimension) (rows : List ReservationRow)
      → usage d rows ≡ usage d (after_release rows) + held_share lease_id d rows
  unfolding after_release count_rows held_share ReservationState-discrete
  usage-after_release d [] = refl
  usage-after_release d (row ∷ rows) = ground (arith, usage-after_release d rows)

  of_lease-after_release :
      (rows : List ReservationRow)
      → count_rows (of_lease lease_id) (after_release rows) ≡ count_rows (of_lease lease_id) rows
  unfolding after_release count_rows
  of_lease-after_release [] = refl
  of_lease-after_release (row ∷ rows) = ground (arith, of_lease-after_release rows)

  label-after_release :
      (label : DimensionLabel) (rows : List ReservationRow)
      → any_row (λ row. of_lease lease_id row && row.dimension == label) (after_release rows)
        ≡ any_row (λ row. of_lease lease_id row && row.dimension == label) rows
  unfolding after_release any_row
  label-after_release label [] = refl
  label-after_release label (row ∷ rows) = ground (arith, label-after_release label rows)

  state-after_release :
      (rows : List ReservationRow)
      → (count_rows (in_state ReservationState.held lease_id) (after_release rows) ≡ 0)
        × (count_rows (in_state ReservationState.released lease_id) (after_release rows)
            ≡ count_rows (in_state ReservationState.released lease_id) rows
              + count_rows (is_held lease_id) rows)
        × (count_rows (in_state ReservationState.quarantined lease_id) (after_release rows)
            ≡ count_rows (in_state ReservationState.quarantined lease_id) rows)
        × (count_rows (in_state ReservationState.recovery_required lease_id) (after_release rows)
            ≡ count_rows (in_state ReservationState.recovery_required lease_id) rows)
  unfolding after_release count_rows ReservationState-discrete
  state-after_release [] = (refl, refl, refl, refl)
  state-after_release (row ∷ rows) =
      let (none_held, more, same, other) = state-after_release rows in
      (ground arith, ground arith, ground arith, ground arith)

  graph-after_release :
      (rows : List ReservationRow)
      → reservation_graph rows lease_id ≡ ok held
      → (count_rows (is_held lease_id) rows ≡ 4)
        × (reservation_graph (after_release rows) lease_id ≡ ok released)
  unfolding reservation_graph count_rows
  graph-after_release rows h =
      let (none_held, more, same, other) = state-after_release rows in
      let count : count_rows (is_held lease_id) rows ≡ 4 = ground arith in
      (
        count,
        ground (
          arith,
          of_lease-after_release rows,
          label-after_release DimensionLabel.profile rows,
          label-after_release DimensionLabel.provider rows,
          label-after_release DimensionLabel.caller rows,
          label-after_release DimensionLabel.host rows,
        ),
      )

none_live :
    (timestamp : StoredTimestamp) (lease_id : Text) (rows : List ReservationRow)
    → any_row (is_live_of lease_id) (release_where (is_live_of lease_id) timestamp rows) ≡ false
unfolding release_where any_row ReservationState-discrete
none_live timestamp lease_id [] = refl
none_live timestamp lease_id (row ∷ rows) = ground (arith, none_live timestamp lease_id rows)

unfoldable pub live_share : Text → Dimension → List ReservationRow → ℕ
unfolding count_rows
live_share lease_id d rows =
    count_rows (λ row. is_live_of lease_id row && counts_for d.label d.key row) rows

usage-live_share :
    (timestamp : StoredTimestamp) (lease_id : Text) (d : Dimension) (rows : List ReservationRow)
    → usage d rows
      ≡ usage d (release_where (is_live_of lease_id) timestamp rows) + live_share lease_id d rows
unfolding release_where count_rows live_share ReservationState-discrete
usage-live_share timestamp lease_id d [] = refl
usage-live_share timestamp lease_id d (row ∷ rows) =
    ground (arith, usage-live_share timestamp lease_id d rows)

-- A table after the release of a lease that held its reservations.
pub record Freed (lease_id : Text) (before after : Tables) : Type 0 where
  pub leases : after.leases ≡ before.leases
  pub processes : after.processes ≡ before.processes
  pub graph : reservation_graph after.reservations lease_id ≡ ok released
  pub freed :
      (d : Dimension)
      → usage d before.reservations
        ≡ usage d after.reservations + held_share lease_id d before.reservations

module _ (crate : TimeCrate) (before : Tables) (lease_id : Text) (now : UtcTimestamp)
    (timestamp : StoredTimestamp) (stamped : from_utc crate now ≡ ok timestamp)
    (over : releasable before lease_id ≡ some true) where
  pub resolved-Freed :
      reservation_graph before.reservations lease_id ≡ ok held
      → (after : Tables) × (release_if_resolved crate before lease_id now ≡ ok (4, after))
        × Freed lease_id before after
  unfolding release_if_resolved release_held after_release ReservationGraph-discrete
  resolved-Freed whole =
      let rows = before.reservations in
      let (four, complete) = graph-after_release timestamp lease_id rows whole in
      (
        record {
          leases = before.leases;
          reservations = after_release timestamp lease_id rows;
          processes = before.processes;
        },
        ground arith,
        record {
          leases = refl;
          processes = refl;
          graph = complete;
          freed = λ d. usage-after_release timestamp lease_id d rows;
        },
      )

  pub recovered-none_live :
      (after : Tables) × (release_recovery_if_resolved crate before lease_id now
        ≡ ok (count_rows (is_live_of lease_id) before.reservations, after))
      × (any_row (is_live_of lease_id) after.reservations ≡ false)
      × ((d : Dimension)
          → usage d before.reservations
            ≡ usage d after.reservations + live_share lease_id d before.reservations)
  unfolding release_recovery_if_resolved
  recovered-none_live =
      let rows = before.reservations in
      (
        record {
          leases = before.leases;
          reservations = release_where (is_live_of lease_id) timestamp rows;
          processes = before.processes;
        },
        ground arith,
        none_live timestamp lease_id rows,
        λ d. usage-live_share timestamp lease_id d rows,
      )
