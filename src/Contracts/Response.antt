-- ===== src/Contracts/Response.antt =====
-- Public lease responses: src/automation/contracts/response.rs.
use aictx.Base.{
  ℕ, Bool, true, false, not, ◌&&◌, ◌||◌, Option, none, some, Text, ◌==◌, codes, Result, ◌>>◌,
  refuse_if, text_eq,
}
use aictx.Contracts.Types.{
  Provider, AgentRole, LeaseStatus, IsolationClassification, AutomationAuthMode, RefusalCode,
  LeaseReasonCode, ContractValidationError, Sha256Digest, ProfileRef, provider_eq, role_eq,
  matches_provider, supports_provider, permits_execution_handle, requires_resolution,
}
use aictx.Contracts.Temporal.{UtcTimestamp, is_before}
use aictx.Contracts.ErrorContract.{is_some, differ}

pub record IdentityLeaseResponse : Type 0 where
  pub lease_id : Text
  pub status : LeaseStatus
  pub tenant_id : Text
  pub work_order_id : Text
  pub work_order_digest : Sha256Digest
  pub run_id : Text
  pub attempt_id : Text
  pub role : AgentRole
  pub provider : Provider
  pub profile_uid : Text
  pub profile_ref : ProfileRef
  pub repository : Text
  pub workspace_id : Text
  pub environment : Text
  pub caller_subject : Text
  pub host_identity : Text
  pub worker_identity : Option Text
  pub principal_ref : Option Text
  pub workspace_ref : Option Text
  pub auth_mode : Option AutomationAuthMode
  pub fencing_generation : Option ℕ
  pub issued_at : UtcTimestamp
  pub expires_at : Option UtcTimestamp
  pub maximum_expires_at : Option UtcTimestamp
  pub execution_handle : Option Text
  pub isolation : Option IsolationClassification
  pub effective_policy_digest : Option Sha256Digest
  pub refusal_code : Option RefusalCode
  pub reason_code : Option LeaseReasonCode

-- `option.is_some_and(test)`.
abbrev pub is_some_and {ℓ} : {A : Type ℓ} → Option A → (A → Bool) → Bool
is_some_and none test = false
is_some_and (some a) test = test a

-- A refusal that names the other provider's vocabulary.
unfoldable pub foreign_refusal : Option RefusalCode → Provider → Bool
foreign_refusal (some RefusalCode.organization_mismatch) provider =
    not (provider == Provider.claude)
foreign_refusal (some RefusalCode.workspace_mismatch) provider = not (provider == Provider.codex)
foreign_refusal _ provider = false

unfoldable pub unisolated : IdentityLeaseResponse → Option IsolationClassification → Bool
unisolated r (some IsolationClassification.unproven) = true
unisolated r (some IsolationClassification.copied_credential_development) =
    not (r.environment == codes "local-development") && not (r.role == AgentRole.pr_reviewer)
unisolated r _ = false

-- The eight attributions of a resolved lease.
unfoldable pub unresolved : IdentityLeaseResponse → Bool
unresolved r =
    not (is_some r.principal_ref)
    || not (is_some r.workspace_ref)
    || not (is_some r.auth_mode)
    || not (is_some r.isolation)
    || not (is_some r.fencing_generation)
    || not (is_some r.expires_at)
    || not (is_some r.maximum_expires_at)
    || not (is_some r.effective_policy_digest)

unfoldable pub claims_authority : IdentityLeaseResponse → Bool
claims_authority r =
    is_some r.worker_identity
    || is_some r.fencing_generation
    || is_some r.expires_at
    || is_some r.maximum_expires_at
    || is_some r.effective_policy_digest
    || is_some r.principal_ref
    || is_some r.workspace_ref
    || is_some r.auth_mode
    || is_some r.isolation

abbrev pub is_unresolved_status : LeaseStatus → Bool
is_unresolved_status LeaseStatus.requested = true
is_unresolved_status LeaseStatus.refused = true
is_unresolved_status _ = false

abbrev ResponseCheck : Type 0
ResponseCheck = Result ContractValidationError (Unit {0})

timestamps_ordered : UtcTimestamp → Option UtcTimestamp → Option UtcTimestamp → Bool
timestamps_ordered issued none none = true
timestamps_ordered issued (some expires) (some maximum) =
    is_before issued expires && not (is_before maximum expires)
timestamps_ordered issued _ _ = false

unfoldable pub validate_timestamps : IdentityLeaseResponse → ResponseCheck
unfolding timestamps_ordered
validate_timestamps r =
    refuse_if (not (timestamps_ordered r.issued_at r.expires_at r.maximum_expires_at))
      ContractValidationError.invalid_response_invariant

abbrev closing_code : LeaseReasonCode → Bool
closing_code LeaseReasonCode.completed = true
closing_code LeaseReasonCode.worker_failed = true
closing_code _ = false

abbrev expiry_code : LeaseReasonCode → Bool
expiry_code LeaseReasonCode.lease_expired = true
expiry_code LeaseReasonCode.maximum_lifetime_reached = true
expiry_code _ = false

abbrev revocation_code : LeaseReasonCode → Bool
revocation_code LeaseReasonCode.operator_revoked = true
revocation_code LeaseReasonCode.policy_revoked = true
revocation_code LeaseReasonCode.principal_mismatch = true
revocation_code LeaseReasonCode.heartbeat_lost = true
revocation_code LeaseReasonCode.process_unverifiable = true
revocation_code LeaseReasonCode.generation_superseded = true
revocation_code LeaseReasonCode.renewal_acknowledgement_failed = true
revocation_code LeaseReasonCode.service_recovery = true
revocation_code _ = false

abbrev failure_code : LeaseReasonCode → Bool
failure_code LeaseReasonCode.process_unverifiable = true
failure_code LeaseReasonCode.service_recovery = true
failure_code LeaseReasonCode.internal_error = true
failure_code _ = false

codes_match : LeaseStatus → Option RefusalCode → Option LeaseReasonCode → Bool
codes_match LeaseStatus.refused refusal reason = is_some refusal && not (is_some reason)
codes_match LeaseStatus.closed refusal reason =
    not (is_some refusal) && is_some_and reason closing_code
codes_match LeaseStatus.expired refusal reason =
    not (is_some refusal) && is_some_and reason expiry_code
codes_match LeaseStatus.revoked refusal reason =
    not (is_some refusal) && is_some_and reason revocation_code
codes_match LeaseStatus.error refusal reason =
    not (is_some refusal) && is_some_and reason failure_code
codes_match _ refusal reason = not (is_some refusal) && not (is_some reason)

unfoldable pub validate_codes : IdentityLeaseResponse → ResponseCheck
unfolding codes_match
validate_codes r =
    refuse_if (not (codes_match r.status r.refusal_code r.reason_code))
      ContractValidationError.invalid_response_invariant

-- `IdentityLeaseResponse::validate`.
unfoldable pub validate : IdentityLeaseResponse → ResponseCheck
unfolding foreign_refusal unisolated unresolved claims_authority validate_timestamps validate_codes
validate r = do
  refuse_if (not (r.provider == r.profile_ref.provider))
      ContractValidationError.provider_profile_mismatch
  refuse_if (is_some_and r.workspace_ref (λ w. not (matches_provider w r.provider)))
      ContractValidationError.invalid_response_invariant
  refuse_if (is_some_and r.auth_mode (λ m. not (supports_provider m r.provider)))
      ContractValidationError.invalid_response_invariant
  refuse_if (foreign_refusal r.refusal_code r.provider)
      ContractValidationError.invalid_response_invariant
  refuse_if (differ (is_some r.execution_handle) (permits_execution_handle r.status))
      ContractValidationError.invalid_response_invariant
  refuse_if (requires_resolution r.status && unresolved r)
      ContractValidationError.invalid_response_invariant
  refuse_if (requires_resolution r.status && unisolated r r.isolation)
      ContractValidationError.invalid_response_invariant
  refuse_if (is_unresolved_status r.status && claims_authority r)
      ContractValidationError.invalid_response_invariant
  validate_timestamps r
  validate_codes r
