-- ===== src/Contracts/ErrorContract.antt =====
-- The stable error codes of each operation: src/automation/contracts/error_contract.rs.

use aictx.Base.{
  Bool, true, false, not, ◌&&◌, Option, none, some, Text, Result, ◌>>◌, refuse_if, if◌then◌else◌,
}
use aictx.Contracts.Types.{ContractValidationError}

pub data AutomationOperation : Type 0 where
  profile_list profile_readiness profile_resolve lease_acquire lease_inspect : AutomationOperation
  lease_renew lease_revoke lease_close service_health execution_start : AutomationOperation

pub data AutomationErrorCode : Type 0 where
  invalid_request unsupported_schema caller_unauthenticated : AutomationErrorCode
  caller_unauthorized profile_not_found provider_mismatch : AutomationErrorCode
  profile_not_eligible authentication_exception_required : AutomationErrorCode
  isolation_exception_required environment_not_allowed role_not_allowed : AutomationErrorCode
  caller_not_allowed repository_not_allowed profile_not_ready : AutomationErrorCode
  identity_token_stale harness_untrusted principal_unverified : AutomationErrorCode
  principal_mismatch organization_mismatch workspace_mismatch : AutomationErrorCode
  isolation_unproven idempotency_conflict rate_limited service_recovering : AutomationErrorCode
  unsupported_platform lease_not_found lease_not_active lease_expired : AutomationErrorCode
  lease_revoked generation_mismatch run_mismatch role_mismatch : AutomationErrorCode
  tenant_mismatch host_mismatch session_limit_reached : AutomationErrorCode
  store_unavailable internal_error : AutomationErrorCode

unfoldable pub is_common : AutomationErrorCode → Bool
is_common AutomationErrorCode.invalid_request = true
is_common AutomationErrorCode.unsupported_schema = true
is_common AutomationErrorCode.caller_unauthenticated = true
is_common AutomationErrorCode.caller_unauthorized = true
is_common AutomationErrorCode.rate_limited = true
is_common AutomationErrorCode.service_recovering = true
is_common AutomationErrorCode.unsupported_platform = true
is_common AutomationErrorCode.store_unavailable = true
is_common AutomationErrorCode.internal_error = true
is_common _ = false

-- The readiness failures that two operations report.
is_readiness : AutomationErrorCode → Bool
is_readiness AutomationErrorCode.profile_not_ready = true
is_readiness AutomationErrorCode.identity_token_stale = true
is_readiness AutomationErrorCode.harness_untrusted = true
is_readiness AutomationErrorCode.principal_unverified = true
is_readiness AutomationErrorCode.principal_mismatch = true
is_readiness AutomationErrorCode.organization_mismatch = true
is_readiness AutomationErrorCode.workspace_mismatch = true
is_readiness AutomationErrorCode.isolation_unproven = true
is_readiness _ = false

-- `LeaseClose` admits these; `LeaseRenew` and `ExecutionStart` add the session limit.
is_control : AutomationErrorCode → Bool
is_control AutomationErrorCode.lease_not_found = true
is_control AutomationErrorCode.lease_not_active = true
is_control AutomationErrorCode.lease_expired = true
is_control AutomationErrorCode.lease_revoked = true
is_control AutomationErrorCode.generation_mismatch = true
is_control AutomationErrorCode.run_mismatch = true
is_control AutomationErrorCode.role_mismatch = true
is_control AutomationErrorCode.tenant_mismatch = true
is_control AutomationErrorCode.host_mismatch = true
is_control _ = false

resolve_code : AutomationErrorCode → Bool
unfolding is_readiness
resolve_code AutomationErrorCode.profile_not_found = true
resolve_code AutomationErrorCode.provider_mismatch = true
resolve_code AutomationErrorCode.profile_not_eligible = true
resolve_code AutomationErrorCode.authentication_exception_required = true
resolve_code AutomationErrorCode.isolation_exception_required = true
resolve_code AutomationErrorCode.environment_not_allowed = true
resolve_code AutomationErrorCode.role_not_allowed = true
resolve_code AutomationErrorCode.caller_not_allowed = true
resolve_code AutomationErrorCode.repository_not_allowed = true
resolve_code code = is_readiness code

readiness_code : AutomationErrorCode → Bool
readiness_code AutomationErrorCode.profile_not_found = true
readiness_code AutomationErrorCode.provider_mismatch = true
readiness_code _ = false

acquire_code : AutomationErrorCode → Bool
acquire_code AutomationErrorCode.idempotency_conflict = true
acquire_code _ = false

inspect_code : AutomationErrorCode → Bool
inspect_code AutomationErrorCode.lease_not_found = true
inspect_code _ = false

renew_code : AutomationErrorCode → Bool
unfolding is_control
renew_code AutomationErrorCode.session_limit_reached = true
renew_code code = is_control code

revoke_code : AutomationErrorCode → Bool
revoke_code AutomationErrorCode.lease_not_found = true
revoke_code AutomationErrorCode.lease_not_active = true
revoke_code _ = false

execution_code : AutomationErrorCode → Bool
unfolding is_readiness renew_code
execution_code code = if renew_code code then true else is_readiness code

-- The match of `valid_for` on the operation.
specific_to : AutomationOperation → AutomationErrorCode → Bool
unfolding readiness_code resolve_code acquire_code inspect_code renew_code revoke_code is_control
    execution_code
specific_to AutomationOperation.profile_list code = false
specific_to AutomationOperation.service_health code = false
specific_to AutomationOperation.profile_readiness code = readiness_code code
specific_to AutomationOperation.profile_resolve code = resolve_code code
specific_to AutomationOperation.lease_acquire code = acquire_code code
specific_to AutomationOperation.lease_inspect code = inspect_code code
specific_to AutomationOperation.lease_renew code = renew_code code
specific_to AutomationOperation.lease_revoke code = revoke_code code
specific_to AutomationOperation.lease_close code = is_control code
specific_to AutomationOperation.execution_start code = execution_code code

unfoldable pub valid_for : AutomationErrorCode → AutomationOperation → Bool
unfolding is_common specific_to
valid_for code operation = if is_common code then true else specific_to operation code

names_lease : AutomationOperation → Bool
names_lease AutomationOperation.lease_inspect = true
names_lease AutomationOperation.lease_renew = true
names_lease AutomationOperation.lease_revoke = true
names_lease AutomationOperation.lease_close = true
names_lease AutomationOperation.execution_start = true
names_lease _ = false

unfoldable pub requires_lease_id : AutomationErrorCode → AutomationOperation → Bool
unfolding is_common names_lease
requires_lease_id code operation = not (is_common code) && names_lease operation

pub record AutomationError : Type 0 where
  pub operation : AutomationOperation
  pub code : AutomationErrorCode
  pub client_request_id : Option Text
  pub lease_id : Option Text

abbrev pub is_some {ℓ} : {A : Type ℓ} → Option A → Bool
is_some none = false
is_some (some _) = true

-- `a != b` on Booleans.
abbrev pub differ : Bool → Bool → Bool
differ true b = not b
differ false b = b

unfoldable pub validate : AutomationError → Result ContractValidationError (Unit {0})
unfolding valid_for requires_lease_id
validate e = do
  refuse_if (not (valid_for e.code e.operation)) ContractValidationError.invalid_response_invariant
  refuse_if (differ (is_some e.lease_id) (requires_lease_id e.code e.operation))
      ContractValidationError.invalid_response_invariant
