-- ===== src/Examples/Lease.antt =====
-- The lease theorems at concrete inputs: src/automation/lease.rs and src/automation/lease.
use aictx.Base.{
  ◌≡◌, refl, true, ok, some, none, List, [], ◌∷◌, codes, Text-discrete, ℕ_discrete, arith,
}
use aictx.Contracts.Types.{
  Provider-discrete, AgentRole-discrete, ProfileRef-discrete, AutomationAuthMode-discrete,
  IsolationClassification-discrete, LeaseStatus-discrete, LeaseReasonCode, supports_provider,
  matches_provider,
}
use aictx.Contracts.Temporal.{UtcTimestamp-discrete, canonical_utc_shape, parse_timestamp}
use aictx.Contracts.Temporal
use aictx.Policy.Types.{resource_isolation_is_consistent, consistent_in}
use aictx.Policy.Evaluate.{effective, maximum_ttl, maximum_session, claim}
use aictx.Lease.Clock.{
  ClockSample, checked_add_nanoseconds, checked_add_seconds, canonical_utc, parse_wall, add_seconds,
  wall_nanoseconds_between,
}
use aictx.Lease.State.{
  LeaseControl, Lease, new_requested, authority_of, status_of, fencing_generation,
}
use aictx.Lease.Checks.{
  validate_policy_binding, identities_match, limits_match, capacity_matches, validate_resolution,
  require_status, validate_caller, validate_control, require_generation,
}
use aictx.Lease.Operations.{enforce_deadlines, due, observe_activation_clock, observe_runtime_clock}
use aictx.Lease.Renewal.{
  begin_renewal, start_renewing, renewal, renewed_authority, renewal_ceiling, acknowledgement,
  next_generation, active_authority,
}
use aictx.Lease.Activation.{
  activate, prepare_activation, preparation, first_authority, activate_prepared,
}
use aictx.Contracts.Authorization
use aictx.Contracts.Request.{authority_digest, canonical_authority_json, validate_structure}
use aictx.Contracts.ErrorContract.{AutomationOperation, validate}
use aictx.Policy.Types.{EffectivePolicy}
use aictx.Policy.Digest.{digest, encode_fields, fields, field}
use aictx.Lease.Error.{LeaseDomainError}
use aictx.Lease.Replay.{LeaseBinding, from_request, compare, exact_retry}
use aictx.Lease.State.{ResolvedAuthority, LeaseState, replay_binding}
use aictx.Lease.Renewal.{launch, launch_checks, authorize_launch}
use aictx.Lease.History.{Call, step, run}
use aictx.Lease.Invariant.{Inv}
use aictx.Lease.SignedLifetime.{Reads}
use aictx.Lease.SignedHistory.{Signed, run-requested-Inv}
use aictx.Lease.Lifecycle.{Edge, step-Edge, Narrows, run-Keeps, is_terminal, run-terminal}
use aictx.Lease.Control.{ControlMatches, AllFail, mismatch-AllFail}
use aictx.Lease.Fencing.{Fenced, begin_renewal-Fenced}
use aictx.Lease.Launch.{MayLaunch, authorize_launch_iff}
use aictx.Lease.Issue.{issued-accepts}
use aictx.Lease.ReplayLaws.{from_request-retry}
use aictx.Lease.PublicErrors.{public_error, public_error-validate}
use aictx.Examples.Policy.{permitted}
use aictx.Examples.Crates.{crates}
use aictx.Examples.Data.{
  request, input, policy, binding, resolution, fresh, issued, ten_minutes_later, first_control,
}
use aictx.Examples.Authority.{authority, active, renewing}

activates : activate crates fresh policy resolution issued ≡ (active, ok tt)
unfolding activate prepare_activation preparation first_authority activate_prepared new_requested
    require_status status_of observe_activation_clock validate_policy_binding
    resource_isolation_is_consistent consistent_in identities_match limits_match capacity_matches
    validate_resolution supports_provider matches_provider effective maximum_ttl maximum_session
    claim add_seconds wall_nanoseconds_between parse_wall canonical_utc parse_timestamp
    canonical_utc_shape checked_add_nanoseconds checked_add_seconds Temporal.fencing_generation
    Text-discrete Provider-discrete AgentRole-discrete ProfileRef-discrete
    AutomationAuthMode-discrete IsolationClassification-discrete LeaseStatus-discrete
    UtcTimestamp-discrete ℕ_discrete
activates = refl

renews : begin_renewal crates active first_control policy ten_minutes_later ≡ (renewing, ok 2)
unfolding begin_renewal renewal renewed_authority renewal_ceiling acknowledgement next_generation
    active_authority start_renewing validate_caller validate_control require_generation
    fencing_generation authority_of enforce_deadlines due observe_runtime_clock require_status
    status_of validate_policy_binding resource_isolation_is_consistent consistent_in
    identities_match limits_match capacity_matches validate_resolution supports_provider
    matches_provider effective maximum_ttl maximum_session claim add_seconds
    wall_nanoseconds_between parse_wall canonical_utc parse_timestamp canonical_utc_shape
    checked_add_nanoseconds checked_add_seconds Temporal.fencing_generation Text-discrete
    Provider-discrete AgentRole-discrete ProfileRef-discrete AutomationAuthMode-discrete
    IsolationClassification-discrete LeaseStatus-discrete UtcTimestamp-discrete ℕ_discrete
renews = refl

launches :
    (authorize_launch crates active first_control policy ten_minutes_later).1 ≡ ok (codes "handle")
unfolding authorize_launch launch launch_checks validate_caller validate_control require_generation
    fencing_generation authority_of enforce_deadlines due observe_runtime_clock require_status
    status_of validate_policy_binding resource_isolation_is_consistent consistent_in
    identities_match limits_match capacity_matches effective maximum_ttl maximum_session claim
    digest encode_fields fields field Text-discrete Provider-discrete AgentRole-discrete
    ProfileRef-discrete LeaseStatus-discrete UtcTimestamp-discrete ℕ_discrete
launches = refl

abbrev calls : List Call
calls =
    Call.activates policy resolution issued
    ∷ Call.begins_renewal first_control policy ten_minutes_later
    ∷ []

issued-Reads : Reads crates issued.wall
unfolding parse_wall Text-discrete ℕ_discrete
issued-Reads = refl

expiry-Reads : Reads crates binding.signed_authorization_expires_at
unfolding parse_wall Text-discrete ℕ_discrete
expiry-Reads = refl

run-requested-Inv_example :
    Inv (run crates (new_requested binding issued) calls)
    × Signed binding issued (run crates (new_requested binding issued) calls)
run-requested-Inv_example = run-requested-Inv crates binding issued issued-Reads expiry-Reads calls

begin_renewal-Fenced_example :
    Fenced active first_control renewing 2
    × ((cs : List Call) (next_policy : EffectivePolicy) (reason : LeaseReasonCode)
          (after : ClockSample)
        → AllFail crates (run crates renewing cs) first_control next_policy reason after)
begin_renewal-Fenced_example =
    begin_renewal-Fenced crates active first_control policy ten_minutes_later renewing 2 renews

authorize_launch_iff_example :
    (a : ResolvedAuthority) × MayLaunch crates active first_control policy ten_minutes_later a
    × (codes "handle" ≡ a.resolution.execution_handle)
authorize_launch_iff_example =
    (authorize_launch_iff crates active first_control policy ten_minutes_later (codes "handle")).0
      launches

-- The lease closed by its worker.
abbrev closed : Lease
closed = record active { state = LeaseState.closed authority LeaseReasonCode.completed }

closed_terminal : is_terminal (status_of closed.state) ≡ true
unfolding status_of
closed_terminal = refl

run-terminal_example : (run crates closed calls).state ≡ closed.state
run-terminal_example = run-terminal crates closed calls closed_terminal

active_authority_some : authority_of active.state ≡ some authority
unfolding authority_of
active_authority_some = refl

run-Keeps_example :
    (b : ResolvedAuthority) × (authority_of (run crates active calls).state ≡ some b)
    × Narrows authority b
run-Keeps_example = run-Keeps crates active calls authority active_authority_some

step-Edge_example : Edge (status_of active.state) (
    status_of
      (step crates active (Call.begins_renewal first_control policy ten_minutes_later)).state)
step-Edge_example =
    step-Edge crates active (Call.begins_renewal first_control policy ten_minutes_later)

-- A control of a generation that the lease has not reached.
abbrev next_control : LeaseControl
next_control = record first_control { fencing_generation = 2 }

next_differs : ¬ ControlMatches active next_control
unfolding fencing_generation authority_of
next_differs m = let g = m.generation in ground arith

mismatch-AllFail_example :
    AllFail crates active next_control policy LeaseReasonCode.completed ten_minutes_later
mismatch-AllFail_example =
    mismatch-AllFail crates active next_control policy LeaseReasonCode.completed ten_minutes_later
      next_differs

controlled : validate_control active first_control ≡ ok tt
unfolding validate_control validate_caller require_generation fencing_generation authority_of
    Text-discrete AgentRole-discrete ℕ_discrete
controlled = refl

binds : from_request crates (codes "lease") request (codes "caller") (codes "host") ≡ ok binding
unfolding from_request authority_digest canonical_authority_json validate_structure
    Authorization.validate_structure Provider-discrete
binds = refl

abbrev second_binding : LeaseBinding
second_binding = record binding { lease_id = codes "another" }

binds_again :
    from_request crates (codes "another") request (codes "caller") (codes "host")
    ≡ ok second_binding
unfolding from_request authority_digest canonical_authority_json validate_structure
    Authorization.validate_structure Provider-discrete
binds_again = refl

issued-accepts_example :
    validate_policy_binding crates (new_requested binding issued) policy ≡ ok tt
issued-accepts_example =
    issued-accepts crates input policy (codes "lease") binding issued permitted binds

from_request-retry_example :
    compare
      (replay_binding (new_requested binding issued))
      (replay_binding (new_requested second_binding ten_minutes_later))
    ≡ exact_retry (codes "lease")
from_request-retry_example =
    (from_request-retry crates request request (codes "caller") (codes "host") (codes "lease")
        (codes "caller") (codes "host") (codes "another") binding second_binding issued
        ten_minutes_later binds binds_again).1
      (refl, refl, refl, refl)

public_error-validate_example :
    validate (
      public_error LeaseDomainError.lease_expired AutomationOperation.lease_renew none
        (codes "lease"))
    ≡ ok tt
public_error-validate_example =
    public_error-validate LeaseDomainError.lease_expired AutomationOperation.lease_renew none
      (codes "lease")
