-- ===== src/Examples/Store.antt =====
-- A requested lease that claims capacity beside another one, and releases it when it is over.
use aictx.Base.{
  ◌+◌, ◌≡◌, refl, Bool, true, false, none, some, [], ◌∷◌, Text, codes, Result, ok, err, inl, ◌%◌,
  Text-discrete, ℕ_discrete,
}
use aictx.Contracts.Types.{Provider, LeaseStatus, Provider-discrete, LeaseStatus-discrete}
use aictx.Policy.Digest.{provider_label}
use aictx.Policy.Types.{CapacityClaim, claim_permits}
use aictx.Model.ProfileUid.{encode_crockford, crockford_digit}
use aictx.Store.Tables.{
  RecoveryState, ReservationState, DimensionLabel, StoredTimestamp, from_utc, LeaseRow,
  ReservationRow, ProcessState, Tables, RecoveryState-discrete, ReservationState-discrete,
  DimensionLabel-discrete, ProcessState-discrete,
}
use aictx.Store.Ids.{Randomness}
use aictx.Store.Schema.{any_row, is_reservation_id, lease_columns_ok, stamp_ok, texts_ok}
use aictx.Store.Slots.{
  Dimension, count_rows, usage, profile_dimension, provider_dimension, caller_dimension,
  host_dimension, dimensions_of,
}
use aictx.Store.Graph.{
  no_reservation, held, ReservationGraph-discrete, reservation_graph, find_lease,
}
use aictx.Store.Capacity.{validate_claim_binding, claim}
use aictx.Store.Release.{is_live_of, releasable, release_if_resolved, release_recovery_if_resolved}
use aictx.Store.Plan.{CapacityPlan, usage_of, reservation_plan-permits}
use aictx.Store.Released.{live_share}
use aictx.Store.Resolved.{Over, release_recovery_if_resolved-none_live}
use aictx.Store.RoundTrip.{Restored, claim-release_if_resolved}
use aictx.Examples.Crates.{day_crate, ten_o_clock, ten_past}

abbrev lease_id : Text
lease_id = codes "lease_1"

abbrev lease_with : LeaseStatus → LeaseRow
lease_with status = record {
  lease_id = lease_id;
  status = status;
  recovery_state = RecoveryState.no_recovery;
  quarantined = false;
  provider = Provider.claude;
  profile_uid = codes "profile_00000000000000000000000001";
  authenticated_caller = codes "caller:a";
  host_identity = codes "host:h";
  tenant_id = codes "tenant";
}

abbrev stamp : StoredTimestamp
stamp = record { wire = ten_o_clock.wire; seconds = 36000; nanos = 0 }

-- Another lease of the same provider, in the first slot.
abbrev other : ReservationRow
other = record {
  reservation_id = codes "capacity_other";
  lease_id = codes "lease_0";
  provider = Provider.claude;
  profile_uid = codes "profile_00000000000000000000000000";
  authenticated_caller = codes "caller:b";
  host_identity = codes "host:h";
  tenant_id = codes "tenant";
  dimension = DimensionLabel.provider;
  key = codes "claude";
  limit = 2;
  slot = 1;
  state = ReservationState.held;
  reserved_at = stamp;
  released_at = none;
}

abbrev before : Tables
before = record {
  leases = lease_with LeaseStatus.requested ∷ [];
  reservations = other ∷ [];
  processes = [];
}

abbrev claimed : CapacityClaim
claimed = record {
  profile_uid = codes "profile_00000000000000000000000001";
  provider = Provider.claude;
  caller_subject = codes "caller:a";
  host_identity = codes "host:h";
  limits = record { profile = 1; provider = 2; caller = 1; host = 1 };
}

-- Sixteen bytes that differ in the first.
abbrev fill : Randomness
fill n = some (n % 256 ∷ 0 ∷ 0 ∷ 0 ∷ 0 ∷ 0 ∷ 0 ∷ 0 ∷ 0 ∷ 0 ∷ 0 ∷ 0 ∷ 0 ∷ 0 ∷ 0 ∷ 0 ∷ [])

permitted : claim_permits claimed (usage_of claimed before.reservations) ≡ true
unfolding claim_permits usage_of count_rows DimensionLabel-discrete ReservationState-discrete
    Text-discrete ℕ_discrete provider_label
permitted = refl

reservation_plan-permits_example : CapacityPlan before.reservations (dimensions_of claimed)
reservation_plan-permits_example =
    (reservation_plan-permits before.reservations claimed).0 permitted

stamped : from_utc day_crate ten_o_clock ≡ ok stamp
unfolding from_utc Text-discrete ℕ_discrete
stamped = refl

bound : validate_claim_binding before.leases lease_id claimed ≡ ok tt
unfolding validate_claim_binding Text-discrete ℕ_discrete LeaseStatus-discrete Provider-discrete
    RecoveryState-discrete
bound = refl

absent : reservation_graph before.reservations lease_id ≡ ok no_reservation
unfolding reservation_graph Text-discrete ℕ_discrete ReservationState-discrete
    DimensionLabel-discrete
absent = refl

abbrev tables_of : {E : Type 0} → Result E (Bool × Tables) → Tables
tables_of (ok result) = result.1
tables_of (err e) = before

abbrev claimed_tables : Tables
unfolding claim
claimed_tables = tables_of (claim day_crate fill before lease_id claimed ten_o_clock)

-- The claim takes the second slot of the provider, and is granted.
claims : claim day_crate fill before lease_id claimed ten_o_clock ≡ ok (true, claimed_tables)
unfolding claim claimed_tables texts_ok is_reservation_id lease_columns_ok stamp_ok Text-discrete
    ℕ_discrete LeaseStatus-discrete Provider-discrete RecoveryState-discrete
    ReservationState-discrete DimensionLabel-discrete ReservationGraph-discrete provider_label
    crockford_digit encode_crockford
claims = refl

-- The lease is closed afterwards, and its process has exited.
abbrev later : Tables
later = record {
  leases = lease_with LeaseStatus.closed ∷ [];
  reservations = claimed_tables.reservations;
  processes = record { lease_id = lease_id; state = ProcessState.exited } ∷ [];
}

abbrev release_stamp : StoredTimestamp
release_stamp = record { wire = ten_past.wire; seconds = 36600; nanos = 0 }

release_stamped : from_utc day_crate ten_past ≡ ok release_stamp
unfolding from_utc Text-discrete ℕ_discrete
release_stamped = refl

over : releasable later lease_id ≡ some true
unfolding releasable Text-discrete ℕ_discrete LeaseStatus-discrete RecoveryState-discrete
    ProcessState-discrete
over = refl

claim-release_if_resolved_example :
    (end : Tables) × (release_if_resolved day_crate later lease_id ten_past ≡ ok (4, end))
    × Restored (profile_dimension claimed) before end
    × Restored (provider_dimension claimed) before end
    × Restored (caller_dimension claimed) before end
    × Restored (host_dimension claimed) before end
claim-release_if_resolved_example =
    claim-release_if_resolved day_crate fill before lease_id claimed ten_o_clock stamp stamped bound
      absent refl claimed_tables later ten_past release_stamp claims refl over release_stamped

later_found : find_lease later.leases lease_id ≡ some (lease_with LeaseStatus.closed)
unfolding find_lease Text-discrete ℕ_discrete
later_found = refl

later-Over : Over later lease_id (lease_with LeaseStatus.closed)
later-Over = record {
  ended = inl refl;
  settled = refl;
  free = refl;
  stopped = ((λ same. refl), tt);
}

release_recovery_if_resolved-none_live_example :
    (after : Tables) × (release_recovery_if_resolved day_crate later lease_id ten_past
      ≡ ok (count_rows (is_live_of lease_id) later.reservations, after))
    × (any_row (is_live_of lease_id) after.reservations ≡ false)
    × ((d : Dimension)
        → usage d later.reservations
          ≡ usage d after.reservations + live_share lease_id d later.reservations)
release_recovery_if_resolved-none_live_example =
    (release_recovery_if_resolved-none_live later lease_id (lease_with LeaseStatus.closed)
        later_found day_crate ten_past release_stamp release_stamped).0
      later-Over
