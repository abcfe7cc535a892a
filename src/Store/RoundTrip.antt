-- ===== src/Store/RoundTrip.antt =====
-- A claim and its release: src/automation/store/capacity.rs.
use aictx.Base.{suc, ◌+◌, ◌≡◌, true, Text, arith, Bool-cases, inl, inr, ok, some, text_eq, ap}
use aictx.Contracts.Temporal.{UtcTimestamp, TimeCrate}
use aictx.Policy.Types.{CapacityClaim, claim_permits}
use aictx.Store.Tables.{StoredTimestamp, from_utc, Tables}
use aictx.Store.Ids.{Randomness}
use aictx.Store.Slots.{
  Dimension, usage, profile_dimension, provider_dimension, caller_dimension, host_dimension,
}
use aictx.Store.Graph.{no_reservation, held, reservation_graph}
use aictx.Store.Capacity.{validate_claim_binding, claim}
use aictx.Store.Release.{held_share, releasable, release_if_resolved}
use aictx.Store.Plan.{usage_of}
use aictx.Store.ClaimRows.{IsU32, Raised}
use aictx.Store.Claimed.{Granted, claim-ok-Granted, claim-declined}
use aictx.Store.Released.{resolved-Freed}

abbrev pub Restored : Dimension → Tables → Tables → Type 0
Restored d before end = usage d end.reservations ≡ usage d before.reservations

restored :
    (d : Dimension) (before later after end : Tables) (lease_id : Text)
    → later.reservations ≡ after.reservations
    → usage d later.reservations
      ≡ usage d end.reservations + held_share lease_id d later.reservations
    → usage d after.reservations ≡ suc (usage d before.reservations)
    → held_share lease_id d after.reservations ≡ 1
    → Restored d before end
restored d before later after end lease_id kept freed raised one =
    omega (arith, ap (usage d) kept, ap (held_share lease_id d) kept)

module _ (crate : TimeCrate) (fill : Randomness) (before : Tables) (lease_id : Text)
    (claimed : CapacityClaim) (now : UtcTimestamp) (timestamp : StoredTimestamp)
    (stamped : from_utc crate now ≡ ok timestamp)
    (bound : validate_claim_binding before.leases lease_id claimed ≡ ok tt)
    (absent : reservation_graph before.reservations lease_id ≡ ok no_reservation)
    (small : IsU32 claimed.limits) where
  claim-true :
      (after : Tables)
      → claim crate fill before lease_id claimed now ≡ ok (true, after)
      → Granted crate fill before lease_id claimed after
  claim-true after h =
      elim (Bool-cases (claim_permits claimed (usage_of claimed before.reservations))) [
        | inl permitted ↦
            claim-ok-Granted crate fill before lease_id claimed now timestamp stamped bound absent
              after permitted h
        | inr refused ↦ absurd (
            ground (
              arith,
              h,
              claim-declined crate fill before lease_id claimed now timestamp stamped bound absent
                  refused,
            ))
      ]

  -- A claim that is granted and, once the lease is over, released, with no other change of the
  -- reservations between the two: the release succeeds with four rows, and leaves the usage of each
  -- of the claim's dimensions as it was before the claim.
  pub claim-release_if_resolved :
      (after later : Tables) (at : UtcTimestamp) (at_timestamp : StoredTimestamp)
      → claim crate fill before lease_id claimed now ≡ ok (true, after)
      → later.reservations ≡ after.reservations
      → releasable later lease_id ≡ some true
      → from_utc crate at ≡ ok at_timestamp
      → (end : Tables) × (release_if_resolved crate later lease_id at ≡ ok (4, end))
        × Restored (profile_dimension claimed) before end
        × Restored (provider_dimension claimed) before end
        × Restored (caller_dimension claimed) before end
        × Restored (host_dimension claimed) before end
  claim-release_if_resolved after later at at_timestamp granted kept over at_stamped =
      let facts = claim-true after granted in
      let whole : reservation_graph later.reservations lease_id ≡ ok held = rw kept facts.graph in
      let (end, ended, freed) =
        resolved-Freed crate later lease_id at at_timestamp at_stamped over whole in
      let back =
        λ (d : Dimension) (raised : Raised d before.reservations after.reservations)
            (one : held_share lease_id d after.reservations ≡ 1).
          restored d before later after end lease_id kept (freed.freed d) raised.0 one in
      let (profile_up, provider_up, caller_up, host_up) = facts.raised in
      let (profile_one, provider_one, caller_one, host_one) = facts.share in
      (
        end,
        ended,
        back (profile_dimension claimed) profile_up profile_one,
        back (provider_dimension claimed) provider_up provider_one,
        back (caller_dimension claimed) caller_up caller_one,
        back (host_dimension claimed) host_up host_one,
      )
