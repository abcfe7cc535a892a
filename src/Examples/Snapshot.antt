-- ===== src/Examples/Snapshot.antt =====
-- The snapshot theorems at concrete inputs: src/automation/lease/snapshot.rs.
use aictx.Base.{◌≡◌, refl, ok, none, some, List, [], ◌∷◌, codes, Text-discrete, ℕ_discrete, arith}
use aictx.Contracts.Types.{
  Provider-discrete, AgentRole-discrete, IsolationClassification-discrete, supports_provider,
  matches_provider, permits_execution_handle, requires_resolution,
}
use aictx.Contracts.Temporal.{UtcTimestamp-discrete}
use aictx.Contracts.Response.{
  IdentityLeaseResponse, foreign_refusal, unisolated, unresolved, claims_authority,
  validate_timestamps, validate_codes,
}
use aictx.Contracts.Response
use aictx.Lease.Clock.{parse_wall, wall_nanoseconds_between}
use aictx.Lease.State.{status_of, authority_of, refusal_code, reason_code, execution_handle}
use aictx.Lease.Snapshot.{
  validate_live_high_water, misplaced, validate_deadline_pair, validate_authority, restored_state,
}
use aictx.Lease.Restore.{
  response_of, identity_response, restore, persisted, snapshot, validate_process_binding,
}
use aictx.Lease.History.{Call, run}
use aictx.Lease.Invariant.{Inv}
use aictx.Lease.Recovery.{Representable, snapshot-restore, restore-run-Inv}
use aictx.Lease.Process.{run-process}
use aictx.Examples.Crates.{crates, day_crate}
use aictx.Examples.Data.{policy, first_control, ten_minutes_later}
use aictx.Examples.Authority.{authority, active}

restores : restore day_crate (snapshot active) ≡ ok active
unfolding restore snapshot persisted restored_state validate_authority misplaced
    validate_deadline_pair validate_live_high_water wall_nanoseconds_between parse_wall
    identity_response response_of Response.validate foreign_refusal unisolated unresolved
    claims_authority validate_timestamps validate_codes status_of authority_of refusal_code
    reason_code execution_handle supports_provider matches_provider permits_execution_handle
    requires_resolution Text-discrete Provider-discrete AgentRole-discrete
    IsolationClassification-discrete UtcTimestamp-discrete ℕ_discrete
restores = refl

snapshot-restore_example : snapshot active ≡ snapshot active
snapshot-restore_example = snapshot-restore day_crate (snapshot active) active restores

representable : Representable (snapshot active).state
unfolding snapshot persisted
representable = (omega arith, omega arith)

abbrev renewal_calls : List Call
renewal_calls = Call.begins_renewal first_control policy ten_minutes_later ∷ []

restore-run-Inv_example :
    Inv (run crates active renewal_calls)
    × ((r : IdentityLeaseResponse) × (identity_response active ≡ ok r))
restore-run-Inv_example =
    restore-run-Inv crates (snapshot active) active renewal_calls representable restores

run-process_example :
    validate_process_binding (snapshot (run crates active renewal_calls)) 1 (codes "handle") none 1
    ≡ ok tt
run-process_example = run-process crates active renewal_calls authority has_authority
  where
    has_authority : authority_of active.state ≡ some authority
    has_authority = unfold authority_of in refl
