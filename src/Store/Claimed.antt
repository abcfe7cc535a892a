-- ===== src/Store/Claimed.antt =====
-- What a claim of capacity comes to: `claim` of src/automation/store/capacity.rs.
use aictx.Base.{
  ◌≡◌, refl, subst, true, false, some, Text, arith, inl, inr, Option-cases, Result-cases, ok, List,
  text_eq, nat_eq,
}
use aictx.Contracts.Types.{provider_eq}
use aictx.Contracts.Temporal.{UtcTimestamp, TimeCrate}
use aictx.Policy.Types.{CapacityClaim, claim_permits}
use aictx.Store.Tables.{
  label_eq, reservation_state_eq, StoredTimestamp, from_utc, LeaseRow, Tables, ReservationRow,
}
use aictx.Store.Ids.{Randomness}
use aictx.Store.Schema.{of_lease}
use aictx.Store.Slots.{
  count_rows, profile_dimension, provider_dimension, caller_dimension, host_dimension,
  dimensions_of, reservation_plan,
}
use aictx.Store.Graph.{
  no_reservation, held, ReservationGraph-discrete, reservation_graph, find_lease,
}
use aictx.Store.Capacity.{validate_claim_binding, reserve, hold, claim}
use aictx.Store.Release.{held_share}
use aictx.Store.Plan.{CapacityPlan, usage_of, reservation_plan-permits}
use aictx.Store.Reserve.{Added, reserve-ok-Added}
use aictx.Store.ClaimRows.{
  find_lease-key, no_reservation-count, Added-held, Raised, Added-Raised, Added-share,
}

module _ (crate : TimeCrate) (fill : Randomness) (before : Tables) (lease_id : Text)
    (claimed : CapacityClaim) where
  -- What a claim that is granted leaves.
  pub record Granted (after : Tables) : Type 0 where
    pub leases : after.leases ≡ before.leases
    pub processes : after.processes ≡ before.processes
    pub graph : reservation_graph after.reservations lease_id ≡ ok held
    pub raised :
        Raised (profile_dimension claimed) before.reservations after.reservations
        × Raised (provider_dimension claimed) before.reservations after.reservations
        × Raised (caller_dimension claimed) before.reservations after.reservations
        × Raised (host_dimension claimed) before.reservations after.reservations
    pub share :
        (held_share lease_id (profile_dimension claimed) after.reservations ≡ 1)
        × (held_share lease_id (provider_dimension claimed) after.reservations ≡ 1)
        × (held_share lease_id (caller_dimension claimed) after.reservations ≡ 1)
        × (held_share lease_id (host_dimension claimed) after.reservations ≡ 1)

  module _ (timestamp : StoredTimestamp) (lease : LeaseRow)
      (found : find_lease before.leases lease_id ≡ some lease)
      (none_yet : count_rows (of_lease lease_id) before.reservations ≡ 0)
      (permitted : claim_permits claimed (usage_of claimed before.reservations) ≡ true) where
    Added-Granted :
        (end : List ReservationRow)
        → Added lease timestamp (dimensions_of claimed) before.reservations end
        → (reservation_graph end lease_id ≡ ok held)
          × Granted
              (record { leases = before.leases; reservations = end; processes = before.processes })
    Added-Granted end added =
        let rows = before.reservations in
        let key = find_lease-key before.leases lease_id lease found in
        let complete = Added-held lease timestamp lease_id claimed rows end key none_yet added in
        (
          complete,
          record {
            leases = refl;
            processes = refl;
            graph = complete;
            raised = Added-Raised lease timestamp lease_id claimed rows end permitted added;
            share = Added-share lease timestamp lease_id claimed rows end key none_yet added;
          },
        )

    -- A loop over a plan that ends leaves the claim granted.
    hold-ok-Granted :
        (now : UtcTimestamp) (p : CapacityPlan before.reservations (dimensions_of claimed))
        (after : Tables)
        → from_utc crate now ≡ ok timestamp
        → hold crate fill before lease_id now p.plan ≡ ok (true, after)
        → Granted after
    unfolding hold ReservationGraph-discrete
    hold-ok-Granted now p after stamped h =
        let rows = before.reservations in
        elim (Result-cases (reserve fill before.leases lease_id timestamp 0 p.plan rows)) [
          | inr (failure, failed) ↦ absurd (ground arith)
          | inl (end, ended) ↦
              let (complete, fact) = Added-Granted end (
                subst (λ ds. Added lease timestamp ds rows end) p.dimensions
                  (reserve-ok-Added lease timestamp fill before.leases lease_id 0 p.plan rows end
                    found ended)) in
              let same : record {
                leases = before.leases;
                reservations = end;
                processes = before.processes;
              }
                  ≡ after =
                ground arith in
              subst Granted same fact
        ]

  module _ (now : UtcTimestamp) (timestamp : StoredTimestamp)
      (stamped : from_utc crate now ≡ ok timestamp)
      (bound : validate_claim_binding before.leases lease_id claimed ≡ ok tt)
      (absent : reservation_graph before.reservations lease_id ≡ ok no_reservation) where
    -- Under a permitting policy, a claim that succeeds is granted.
    pub claim-ok-Granted :
        (after : Tables)
        → claim_permits claimed (usage_of claimed before.reservations) ≡ true
        → claim crate fill before lease_id claimed now ≡ ok (true, after)
        → Granted after
    unfolding claim validate_claim_binding ReservationGraph-discrete reservation_plan
    claim-ok-Granted after permitted h =
        let none_yet = no_reservation-count before.reservations lease_id absent in
        let p = (reservation_plan-permits before.reservations claimed).0 permitted in
        let planned = p.planned in
        elim (Option-cases (find_lease before.leases lease_id)) [
          | inl missing ↦ absurd (ground arith)
          | inr (lease, found) ↦
              hold-ok-Granted timestamp lease found none_yet permitted now p after stamped
                (ground arith)
        ]

    -- A claim that the policy does not permit is declined.
    pub claim-declined :
        claim_permits claimed (usage_of claimed before.reservations) ≡ false
        → claim crate fill before lease_id claimed now ≡ ok (false, before)
    unfolding claim ReservationGraph-discrete reservation_plan
    claim-declined refused =
        let (planning, declining) = reservation_plan-permits before.reservations claimed in
        ground (arith, declining refused)
