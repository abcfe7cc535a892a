-- ===== src/Store/Resolved.antt =====
-- When a lease's reservations are released: `release_if_resolved` and
-- `release_recovery_if_resolved` of src/automation/store/capacity.rs.
use aictx.Base.{
  ◌+◌, ◌≡◌, refl, true, false, not, ◌&&◌, some, List, [], ◌∷◌, Text, ◌==◌, ok, err, arith, ◌⊎◌, inl,
  inr, ◌↔◌, Bool-cases, text_eq, ==_iff,
}
use aictx.Contracts.Types.{LeaseStatus, status_eq}
use aictx.Contracts.Temporal.{UtcTimestamp, TimeCrate}
use aictx.Lease.Lifecycle.{is_terminal}
use aictx.Store.Tables.{
  StoreError, RecoveryState, ProcessState, StoredTimestamp, from_utc, LeaseRow, ProcessRow, Tables,
  recovery_eq, process_state_eq,
}
use aictx.Store.Schema.{any_row}
use aictx.Store.Slots.{Dimension, count_rows, usage}
use aictx.Store.Graph.{graph_eq, find_lease}
use aictx.Store.Release.{runs_for, is_live_of, releasable, release_recovery_if_resolved}
use aictx.Store.Released.{live_share, recovered-none_live}

-- The four statuses in which a lease has ended.
abbrev pub Ended : LeaseStatus → Type 0
Ended status =
    (status ≡ LeaseStatus.closed)
    ⊎ (status ≡ LeaseStatus.revoked)
    ⊎ (status ≡ LeaseStatus.expired)
    ⊎ (status ≡ LeaseStatus.refused)

-- Every process of the lease has exited.
abbrev pub Stopped : Text → List ProcessRow → Type 0
Stopped lease_id [] = Unit {0}
Stopped lease_id (p ∷ ps) =
    (p.lease_id ≡ lease_id → p.state ≡ ProcessState.exited) × Stopped lease_id ps

-- A lease that is over: ended, under no recovery, not quarantined, its processes stopped.
pub record Over (tables : Tables) (lease_id : Text) (lease : LeaseRow) : Type 0 where
  pub ended : Ended lease.status
  pub settled : lease.recovery_state ≡ RecoveryState.no_recovery
  pub free : lease.quarantined ≡ false
  pub stopped : Stopped lease_id tables.processes

is_terminal_iff : (status : LeaseStatus) → (is_terminal status ≡ true) ↔ Ended status
is_terminal_iff status = (λ h. ground arith, λ h. ground arith)

any_row_iff :
    (lease_id : Text) (ps : List ProcessRow)
    → (any_row (runs_for lease_id) ps ≡ false) ↔ Stopped lease_id ps
unfolding any_row
any_row_iff lease_id [] = (λ h. tt, λ h. refl)
any_row_iff lease_id (p ∷ ps) =
    let ids = ==_iff p.lease_id lease_id in
    let states = ==_iff p.state ProcessState.exited in
    (
      λ h.
          let now : runs_for lease_id p ≡ false = ground arith in
          (
            (λ same. ground (arith, ids.1 same, states)),
            (any_row_iff lease_id ps).0 (ground arith),
          ),
      λ (now, later).
          let rest = (any_row_iff lease_id ps).1 later in
          elim (Bool-cases (p.lease_id == lease_id)) [
            | inl same ↦ let exited = states.1 (now (ids.0 same)) in ground arith
            | inr other ↦ ground arith
          ],
    )

module _ (tables : Tables) (lease_id : Text) (lease : LeaseRow)
    (found : find_lease tables.leases lease_id ≡ some lease) where
  releasable-Over :
      ((releasable tables lease_id ≡ some true) × Over tables lease_id lease)
      ⊎ ((releasable tables lease_id ≡ some false) × ¬ Over tables lease_id lease)
  unfolding releasable
  releasable-Over =
      let running = any_row (runs_for lease_id) tables.processes in
      let terminal = is_terminal_iff lease.status in
      let recovery = ==_iff lease.recovery_state RecoveryState.no_recovery in
      let stopped = any_row_iff lease_id tables.processes in
      elim (Bool-cases (
        is_terminal lease.status
        && lease.recovery_state == RecoveryState.no_recovery
        && not lease.quarantined
        && not running)) [
          | inl over ↦ inl (
            ground arith,
            record {
              ended = terminal.0 (ground arith);
              settled = recovery.0 (ground arith);
              free = ground arith;
              stopped = stopped.0 (ground arith);
            },
          )
          | inr open_still ↦ inr (
            ground arith,
            λ v.
                let one = terminal.1 v.ended in
                let two = recovery.1 v.settled in
                let three = v.free in let four = stopped.1 v.stopped in ground arith,
          )
        ]

  module _ (crate : TimeCrate) (now : UtcTimestamp) (timestamp : StoredTimestamp)
      (stamped : from_utc crate now ≡ ok timestamp) where
    -- The release of a recovery, for a lease of the table, at a time that the crate parses. If the
    -- lease is over, it has no live reservation afterwards, whatever it had; as many are released as
    -- were live, and the usage of every dimension falls by the lease's live ones. If it is not, the
    -- release fails and demands recovery.
    pub release_recovery_if_resolved-none_live :
        (Over tables lease_id lease
          → (after : Tables) × (release_recovery_if_resolved crate tables lease_id now
              ≡ ok (count_rows (is_live_of lease_id) tables.reservations, after))
            × (any_row (is_live_of lease_id) after.reservations ≡ false)
            × ((d : Dimension)
                → usage d tables.reservations
                  ≡ usage d after.reservations + live_share lease_id d tables.reservations))
        × (¬ Over tables lease_id lease
            → release_recovery_if_resolved crate tables lease_id now
              ≡ err StoreError.recovery_required)
    unfolding release_recovery_if_resolved
    release_recovery_if_resolved-none_live = (
      λ v. elim releasable-Over [
        | inl (yes_it_is, w) ↦
            recovered-none_live crate tables lease_id now timestamp stamped yes_it_is
        | inr (no_it_is_not, w) ↦ absurd (w v)
      ],
      λ still. elim releasable-Over [
        | inl (yes_it_is, w) ↦ absurd (still w)
        | inr (no_it_is_not, w) ↦ ground arith
      ],
    )
