-- ===== src/Lease/Checks.antt =====
-- The guards of src/automation/lease.rs: caller, control, policy binding, resolution and status.
use aictx.Base.{
  ℕ, Bool, true, false, not, ◌&&◌, ◌||◌, Option, none, some, ◌==◌, leb, if◌then◌else◌, Result, ok,
  err, ok_or, ◌>>=◌, ◌>>◌, refuse_if, text_eq, nat_eq,
}
use aictx.Contracts.Types.{
  Provider, Sha256Digest, IsolationClassification, LeaseStatus, LeaseReasonCode, provider_eq,
  role_eq, status_eq, isolation_eq, auth_mode_eq, profile_ref_eq, supports_provider,
  matches_provider,
}
use aictx.Contracts.Temporal.{timestamp_eq}
use aictx.Contracts.Request.{Crates}
use aictx.Policy.Types.{EffectivePolicy, resource_isolation_is_consistent}
use aictx.Policy.Digest.{digest}
use aictx.Lease.Error.{LeaseDomainError}
use aictx.Lease.State.{LeaseResolution, LeaseControl, Lease, status, fencing_generation, status_of}

abbrev pub Guard : Type 0
Guard = Result LeaseDomainError (Unit {0})

unfoldable pub validate_caller : Lease → LeaseControl → Guard
validate_caller l control =
    if control.caller_subject == l.binding.caller_subject
    then ok tt
    else err LeaseDomainError.caller_unauthorized

unfoldable pub require_generation : ℕ → ℕ → Guard
require_generation current supplied =
    if current == supplied then ok tt else err LeaseDomainError.generation_mismatch

unfoldable pub validate_control : Lease → LeaseControl → Guard
unfolding validate_caller require_generation
validate_control l control = do
  validate_caller l control
  refuse_if (not (control.tenant_id == l.binding.tenant_id)) LeaseDomainError.tenant_mismatch
  refuse_if (not (control.run_id == l.binding.run_id)) LeaseDomainError.run_mismatch
  refuse_if (not (control.role == l.binding.role)) LeaseDomainError.role_mismatch
  refuse_if (not (control.host_identity == l.binding.host_identity)) LeaseDomainError.host_mismatch
  current ← ok_or (fencing_generation l) LeaseDomainError.lease_not_active
  require_generation current control.fencing_generation

error_from : LeaseStatus → LeaseStatus → LeaseDomainError
error_from LeaseStatus.closed target = LeaseDomainError.terminal_immutable LeaseStatus.closed
error_from LeaseStatus.refused target = LeaseDomainError.terminal_immutable LeaseStatus.refused
error_from LeaseStatus.revoked target = LeaseDomainError.lease_revoked
error_from LeaseStatus.expired target = LeaseDomainError.lease_expired
error_from from target = LeaseDomainError.invalid_transition from target

unfoldable pub state_error : Lease → LeaseStatus → LeaseDomainError
unfolding error_from
state_error l target = error_from (status l) target

unfoldable pub require_status : Lease → LeaseStatus → Guard
unfolding state_error status_of
require_status l expected = if status l == expected then ok tt else err (state_error l expected)

abbrev pub is_active_or_renewing : LeaseStatus → Bool
is_active_or_renewing LeaseStatus.active = true
is_active_or_renewing LeaseStatus.renewing = true
is_active_or_renewing _ = false

-- The statuses that deadlines and revocation act on.
abbrev pub is_live : LeaseStatus → Bool
is_live LeaseStatus.active = true
is_live LeaseStatus.renewing = true
is_live LeaseStatus.error = true
is_live _ = false

unfoldable pub require_active_or_renewing : Lease → LeaseStatus → Guard
unfolding state_error status_of
require_active_or_renewing l target =
    if is_active_or_renewing (status l) then ok tt else err (state_error l target)

unfoldable pub revocation_reason : LeaseReasonCode → Bool
revocation_reason LeaseReasonCode.operator_revoked = true
revocation_reason LeaseReasonCode.policy_revoked = true
revocation_reason LeaseReasonCode.principal_mismatch = true
revocation_reason LeaseReasonCode.heartbeat_lost = true
revocation_reason LeaseReasonCode.process_unverifiable = true
revocation_reason LeaseReasonCode.generation_superseded = true
revocation_reason LeaseReasonCode.renewal_acknowledgement_failed = true
revocation_reason LeaseReasonCode.service_recovery = true
revocation_reason _ = false

abbrev pub closing_reason : LeaseReasonCode → Bool
closing_reason LeaseReasonCode.completed = true
closing_reason LeaseReasonCode.worker_failed = true
closing_reason _ = false

abbrev pub error_reason : LeaseReasonCode → Bool
error_reason LeaseReasonCode.process_unverifiable = true
error_reason LeaseReasonCode.service_recovery = true
error_reason LeaseReasonCode.internal_error = true
error_reason _ = false

unfoldable pub validate_resolution : Provider → EffectivePolicy → LeaseResolution → Guard
validate_resolution provider policy resolution =
    refuse_if
      (not (matches_provider resolution.workspace_ref provider)
        || not (supports_provider resolution.auth_mode provider)
        || not (resolution.auth_mode == policy.auth_mode)
        || not (resolution.isolation == policy.isolation)
        || resolution.isolation == IsolationClassification.unproven)
      LeaseDomainError.policy_binding_mismatch

-- `requested_policy_digest.is_none_or(|expected| expected == digest)`.
abbrev pub expects : Option Sha256Digest → Sha256Digest → Bool
expects none actual = true
expects (some expected) actual = expected == actual

-- The sixteen identities that a policy shares with the binding.
unfoldable pub identities_match : Lease → EffectivePolicy → Bool
identities_match l p =
    b.client_request_id == p.client_request_id
    && b.authority_digest == p.source_request_digest
    && b.tenant_id == p.tenant_id
    && b.work_order_id == p.work_order_id
    && b.work_order_digest == p.work_order_digest
    && b.run_id == p.run_id
    && b.attempt_id == p.attempt_id
    && b.role == p.role
    && b.provider == p.provider
    && b.profile_uid == p.profile_uid
    && b.profile_ref == p.profile_ref
    && b.repository == p.repository
    && b.workspace_id == p.workspace_id
    && b.environment == p.environment
    && b.caller_subject == p.caller_subject
    && b.host_identity == p.host_identity
  where
    open l use {binding as b}

unfoldable pub limits_match : Lease → EffectivePolicy → Bool
limits_match l p =
    leb p.maximum_ttl_seconds b.signed_maximum_ttl_seconds
    && leb p.maximum_session_seconds b.signed_maximum_session_seconds
    && leb p.requested_ttl_seconds p.maximum_ttl_seconds
    && leb p.requested_ttl_seconds p.maximum_session_seconds
    && leb p.requested_ttl_seconds b.signed_maximum_ttl_seconds
    && leb p.requested_ttl_seconds b.signed_maximum_session_seconds
    && p.signed_expires_at == b.signed_authorization_expires_at
  where
    open l use {binding as b}

unfoldable pub capacity_matches : Lease → EffectivePolicy → Bool
capacity_matches l p =
    b.profile_uid == p.capacity_claim.profile_uid
    && b.provider == p.capacity_claim.provider
    && b.caller_subject == p.capacity_claim.caller_subject
    && b.host_identity == p.capacity_claim.host_identity
  where
    open l use {binding as b}

unfoldable pub validate_policy_binding : Crates → Lease → EffectivePolicy → Guard
validate_policy_binding crates l p = do
  refuse_if (not (resource_isolation_is_consistent p)) LeaseDomainError.policy_binding_mismatch
  let matches =
      identities_match l p
      && expects l.binding.requested_policy_digest (digest crates p)
      && limits_match l p
  refuse_if (not (matches && capacity_matches l p)) LeaseDomainError.policy_binding_mismatch
