-- ===== src/Store/ClaimRows.antt =====
-- The rows of a claim in the table, by their dimensions: `claim` of
-- src/automation/store/capacity.rs.
use aictx.Base.{
  suc, ◌≤◌, ◌≡◌, refl, ap, Bool, true, false, ◌&&◌, some, List, [], ◌∷◌, Text, ◌==◌, leb, all,
  arith, inl, inr, Bool-cases, ok, text_eq, nat_eq, ==_iff,
}
use aictx.Contracts.Types.{provider_eq}
use aictx.Policy.Digest.{provider_label}
use aictx.Policy.Types.{CapacityClaim, CapacityLimits, claim_permits}
use aictx.Store.Tables.{
  DimensionLabel, ReservationState, label_eq, reservation_state_eq, StoredTimestamp, LeaseRow,
  ReservationRow, DimensionLabel-discrete, ReservationState-discrete,
}
use aictx.Store.Schema.{any_row, of_lease}
use aictx.Store.Slots.{
  Dimension, count_rows, usage, profile_dimension, provider_dimension, caller_dimension,
  host_dimension, dimensions_of,
}
use aictx.Store.Graph.{no_reservation, held, reservation_graph, find_lease}
use aictx.Store.Capacity.{binding_matches}
use aictx.Store.Release.{held_share}
use aictx.Store.Plan.{usage_of}
use aictx.Store.Columns.{lease_column}
use aictx.Store.Reserve.{reservable, distinct_labels, Added}

pub find_lease-key :
    (leases : List LeaseRow) (lease_id : Text) (lease : LeaseRow)
    → find_lease leases lease_id ≡ some lease
    → (lease.lease_id == lease_id) ≡ true
unfolding find_lease
find_lease-key [] lease_id lease h = absurd (ground arith)
find_lease-key (row ∷ rows) lease_id lease h = elim (Bool-cases (row.lease_id == lease_id)) [
  | inl same ↦ ground arith
  | inr other ↦ find_lease-key rows lease_id lease (ground arith)
]

-- A lease without rows has none that meets a further test.
module _ (lease_id : Text) (test : ReservationRow → Bool) where
  pub count_rows-none :
      (rows : List ReservationRow)
      → count_rows (of_lease lease_id) rows ≡ 0
      → (count_rows (λ row. of_lease lease_id row && test row) rows ≡ 0)
        × (any_row (λ row. of_lease lease_id row && test row) rows ≡ false)
  unfolding count_rows any_row
  count_rows-none [] h = (refl, refl)
  count_rows-none (row ∷ rows) h =
      let (counted, found) = count_rows-none rows (ground arith) in (ground arith, ground arith)

held_share-none :
    (lease_id : Text) (d : Dimension) (rows : List ReservationRow)
    → count_rows (of_lease lease_id) rows ≡ 0
    → held_share lease_id d rows ≡ 0
unfolding held_share count_rows
held_share-none lease_id d [] h = refl
held_share-none lease_id d (row ∷ rows) h =
    let rest = held_share-none lease_id d rows (ground arith) in ground arith

pub no_reservation-count :
    (rows : List ReservationRow) (lease_id : Text)
    → reservation_graph rows lease_id ≡ ok no_reservation
    → count_rows (of_lease lease_id) rows ≡ 0
unfolding reservation_graph
no_reservation-count rows lease_id h = ground arith

-- A dimension with one more reservation, still within its limit.
abbrev pub Raised : Dimension → List ReservationRow → List ReservationRow → Type 0
Raised d rows end = (usage d end ≡ suc (usage d rows)) × (usage d end ≤ d.limit)

-- The four rows of a claim in front of a table without rows of the lease.
module _ (lease : LeaseRow) (timestamp : StoredTimestamp) (lease_id : Text)
    (claimed : CapacityClaim) where
  pub Added-held :
      (rows end : List ReservationRow)
      → (lease.lease_id == lease_id) ≡ true
      → count_rows (of_lease lease_id) rows ≡ 0
      → Added lease timestamp (dimensions_of claimed) rows end
      → reservation_graph end lease_id ≡ ok held
  unfolding reservation_graph any_row count_rows DimensionLabel-discrete ReservationState-discrete
  Added-held rows end same none_yet (i, s, (i', s', (i'', s'', (i''', s''', whole)))) =
      let in_state = λ (state : ReservationState).
        (count_rows-none lease_id (λ row. row.state == state) rows none_yet).0 in
      let of_label = λ (label : DimensionLabel).
        (count_rows-none lease_id (λ row. row.dimension == label) rows none_yet).1 in
      rw whole (
        ground (
          arith,
          none_yet,
          in_state ReservationState.held,
          in_state ReservationState.released,
          in_state ReservationState.quarantined,
          in_state ReservationState.recovery_required,
          of_label DimensionLabel.profile,
          of_label DimensionLabel.provider,
          of_label DimensionLabel.caller,
          of_label DimensionLabel.host,
        ))

  pub Added-Raised :
      (rows end : List ReservationRow)
      → claim_permits claimed (usage_of claimed rows) ≡ true
      → Added lease timestamp (dimensions_of claimed) rows end
      → Raised (profile_dimension claimed) rows end
        × Raised (provider_dimension claimed) rows end
        × Raised (caller_dimension claimed) rows end
        × Raised (host_dimension claimed) rows end
  unfolding claim_permits usage_of count_rows DimensionLabel-discrete ReservationState-discrete
  Added-Raised rows end permitted (i, s, (i', s', (i'', s'', (i''', s''', whole)))) = rw whole (
      ground (
        arith,
        ==_iff claimed.profile_uid claimed.profile_uid,
        ==_iff (provider_label claimed.provider) (provider_label claimed.provider),
        ==_iff claimed.caller_subject claimed.caller_subject,
        ==_iff claimed.host_identity claimed.host_identity,
      ))

  -- The lease holds one reservation of each of the claim's dimensions.
  pub Added-share :
      (rows end : List ReservationRow)
      → (lease.lease_id == lease_id) ≡ true
      → count_rows (of_lease lease_id) rows ≡ 0
      → Added lease timestamp (dimensions_of claimed) rows end
      → (held_share lease_id (profile_dimension claimed) end ≡ 1)
        × (held_share lease_id (provider_dimension claimed) end ≡ 1)
        × (held_share lease_id (caller_dimension claimed) end ≡ 1)
        × (held_share lease_id (host_dimension claimed) end ≡ 1)
  unfolding held_share count_rows DimensionLabel-discrete ReservationState-discrete
  Added-share rows end same none_yet (i, s, (j, t, (k, u, (l, v, whole)))) =
      let none_of = λ (d : Dimension). held_share-none lease_id d rows none_yet in
      rw whole (
        ground (
          arith,
          none_of (profile_dimension claimed),
          none_of (provider_dimension claimed),
          none_of (caller_dimension claimed),
          none_of (host_dimension claimed),
          ==_iff claimed.profile_uid claimed.profile_uid,
          ==_iff (provider_label claimed.provider) (provider_label claimed.provider),
          ==_iff claimed.caller_subject claimed.caller_subject,
          ==_iff claimed.host_identity claimed.host_identity,
        ))

-- The four limits are 32-bit (`NonZeroU32`).
abbrev pub IsU32 : CapacityLimits → Type 0
IsU32 limits =
    (leb limits.profile 4294967295
      && leb limits.provider 4294967295
      && leb limits.caller 4294967295
      && leb limits.host 4294967295)
    ≡ true

pub dimensions-distinct : (claimed : CapacityClaim) → distinct_labels (dimensions_of claimed) ≡ true
unfolding distinct_labels DimensionLabel-discrete
dimensions-distinct claimed = refl

pub dimensions-reservable :
    (lease : LeaseRow) (rows : List ReservationRow) (claimed : CapacityClaim)
    → binding_matches claimed lease ≡ true
    → IsU32 claimed.limits
    → count_rows (of_lease lease.lease_id) rows ≡ 0
    → all (reservable lease rows) (dimensions_of claimed) ≡ true
unfolding reservable lease_column
dimensions-reservable lease rows claimed bound small none_yet =
    let of_label = λ (label : DimensionLabel).
      (count_rows-none lease.lease_id (λ row. row.dimension == label) rows none_yet).1 in
    let provider = ap provider_label ((==_iff lease.provider claimed.provider).0 (ground arith)) in
    ground (
      arith,
      (==_iff (provider_label lease.provider) (provider_label claimed.provider)).1 provider,
      of_label DimensionLabel.profile,
      of_label DimensionLabel.provider,
      of_label DimensionLabel.caller,
      of_label DimensionLabel.host,
    )
