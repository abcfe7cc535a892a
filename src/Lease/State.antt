-- ===== src/Lease/State.antt =====
-- The lease aggregate and its accessors: the types of src/automation/lease.rs.
use aictx.Base.{ℕ, Option, none, some, Text}
use aictx.Contracts.Types.{
  AgentRole, Sha256Digest, AutomationAuthMode, IsolationClassification, LeaseStatus,
  LeaseReasonCode, RefusalCode,
}
use aictx.Contracts.Temporal.{UtcTimestamp}
use aictx.Lease.Clock.{ClockSample}
use aictx.Lease.Replay.{LeaseBinding, ReplayBinding}

pub record LeaseResolution : Type 0 where
  pub execution_handle : Text
  pub worker_identity : Option Text
  pub principal_ref : Text
  pub workspace_ref : Text
  pub auth_mode : AutomationAuthMode
  pub isolation : IsolationClassification

pub record LeaseControl : Type 0 where
  pub caller_subject : Text
  pub tenant_id : Text
  pub run_id : Text
  pub role : AgentRole
  pub host_identity : Text
  pub fencing_generation : ℕ

pub record ResolvedAuthority : Type 0 where
  pub resolution : LeaseResolution
  pub effective_policy_digest : Sha256Digest
  pub fencing_generation : ℕ
  pub expires_at : UtcTimestamp
  pub maximum_expires_at : UtcTimestamp
  pub interval_anchor_wall : UtcTimestamp
  pub interval_anchor_monotonic : ℕ
  pub monotonic_deadline : ℕ
  pub monotonic_maximum_deadline : ℕ

-- `renewing` carries the two acknowledgement deadlines, on the wall and the monotonic clock.
pub data LeaseState : Type 0 where
  requested : LeaseState
  active : ResolvedAuthority → LeaseState
  renewing : ResolvedAuthority → UtcTimestamp → ℕ → LeaseState
  error closed revoked expired : ResolvedAuthority → LeaseReasonCode → LeaseState
  refused : RefusalCode → LeaseState

unfoldable pub status_of : LeaseState → LeaseStatus
status_of requested = LeaseStatus.requested
status_of (active a) = LeaseStatus.active
status_of (renewing a w m) = LeaseStatus.renewing
status_of (error a r) = LeaseStatus.error
status_of (closed a r) = LeaseStatus.closed
status_of (revoked a r) = LeaseStatus.revoked
status_of (expired a r) = LeaseStatus.expired
status_of (refused c) = LeaseStatus.refused

unfoldable pub authority_of : LeaseState → Option ResolvedAuthority
authority_of requested = none
authority_of (active a) = some a
authority_of (renewing a w m) = some a
authority_of (error a r) = some a
authority_of (closed a r) = some a
authority_of (revoked a r) = some a
authority_of (expired a r) = some a
authority_of (refused c) = none

pub record Lease : Type 0 where
  pub binding : LeaseBinding
  pub issuance_clock : ClockSample
  pub last_monotonic : ℕ
  pub state : LeaseState

-- `Lease::requested`.
unfoldable pub new_requested : LeaseBinding → ClockSample → Lease
new_requested binding issuance_clock = record {
  binding = binding;
  issuance_clock = issuance_clock;
  last_monotonic = issuance_clock.monotonic;
  state = requested;
}

abbrev pub status : Lease → LeaseStatus
unfolding status_of
status l = status_of l.state

refusal_of : LeaseState → Option RefusalCode
refusal_of (refused code) = some code
refusal_of _ = none

unfoldable pub refusal_code : Lease → Option RefusalCode
unfolding refusal_of
refusal_code l = refusal_of l.state

reason_of : LeaseState → Option LeaseReasonCode
reason_of (error a r) = some r
reason_of (closed a r) = some r
reason_of (revoked a r) = some r
reason_of (expired a r) = some r
reason_of _ = none

unfoldable pub reason_code : Lease → Option LeaseReasonCode
unfolding reason_of
reason_code l = reason_of l.state

unfoldable pub fencing_generation : Lease → Option ℕ
unfolding authority_of
fencing_generation l = elim (authority_of l.state) [
  | none ↦ none
  | some a ↦ some a.fencing_generation
]

handle_of : LeaseState → Option Text
handle_of (active a) = some a.resolution.execution_handle
handle_of (renewing a w m) = some a.resolution.execution_handle
handle_of _ = none

unfoldable pub execution_handle : Lease → Option Text
unfolding handle_of
execution_handle l = handle_of l.state

unfoldable pub replay_binding : Lease → ReplayBinding
replay_binding l = record {
  lease_id = binding.lease_id;
  client_request_id = binding.client_request_id;
  authority_digest = binding.authority_digest;
  caller_subject = binding.caller_subject;
  host_identity = binding.host_identity;
  signed_authorization_expires_at = binding.signed_authorization_expires_at;
}
  where
    open l use {binding}
