-- ===== src/Lease/Error.antt =====
-- The errors of the lease domain and their public codes: src/automation/lease/error.rs.
use aictx.Base.{Bool, true, false, if◌then◌else◌}
use aictx.Contracts.Types.{LeaseStatus, LeaseReasonCode}
use aictx.Contracts.ErrorContract.{
  AutomationOperation, lease_renew, lease_revoke, lease_close, execution_start, AutomationErrorCode,
}

pub data LeaseDomainError : Type 0 where
  invalid_transition : LeaseStatus → LeaseStatus → LeaseDomainError
  terminal_immutable : LeaseStatus → LeaseDomainError
  lease_not_active lease_expired lease_revoked caller_unauthorized : LeaseDomainError
  generation_mismatch generation_exhausted session_limit_reached : LeaseDomainError
  tenant_mismatch run_mismatch role_mismatch host_mismatch : LeaseDomainError
  policy_binding_mismatch : LeaseDomainError
  invalid_reason : LeaseStatus → LeaseReasonCode → LeaseDomainError
  clock_before_issuance clock_generation_mismatch monotonic_regression : LeaseDomainError
  clock_overflow invalid_snapshot : LeaseDomainError

state_code : AutomationOperation → AutomationErrorCode → AutomationErrorCode
state_code lease_renew code = code
state_code lease_close code = code
state_code execution_start code = code
state_code lease_revoke code = AutomationErrorCode.lease_not_active
state_code _ code = AutomationErrorCode.internal_error

control_code : AutomationOperation → AutomationErrorCode → Bool → AutomationErrorCode
control_code lease_renew code close_allows = code
control_code execution_start code close_allows = code
control_code lease_close code close_allows =
    if close_allows then code else AutomationErrorCode.internal_error
control_code _ code close_allows = AutomationErrorCode.internal_error

lease_not_active_code : AutomationOperation → AutomationErrorCode
lease_not_active_code lease_renew = AutomationErrorCode.lease_not_active
lease_not_active_code lease_revoke = AutomationErrorCode.lease_not_active
lease_not_active_code lease_close = AutomationErrorCode.lease_not_active
lease_not_active_code execution_start = AutomationErrorCode.lease_not_active
lease_not_active_code _ = AutomationErrorCode.internal_error

unfoldable pub automation_code : LeaseDomainError → AutomationOperation → AutomationErrorCode
unfolding state_code control_code lease_not_active_code
automation_code (LeaseDomainError.invalid_reason s r) op = AutomationErrorCode.invalid_request
automation_code LeaseDomainError.caller_unauthorized op = AutomationErrorCode.caller_unauthorized
automation_code LeaseDomainError.lease_expired op = state_code op AutomationErrorCode.lease_expired
automation_code LeaseDomainError.lease_revoked op = state_code op AutomationErrorCode.lease_revoked
automation_code LeaseDomainError.generation_mismatch op =
    control_code op AutomationErrorCode.generation_mismatch true
automation_code LeaseDomainError.session_limit_reached op =
    control_code op AutomationErrorCode.session_limit_reached false
automation_code LeaseDomainError.tenant_mismatch op =
    control_code op AutomationErrorCode.tenant_mismatch true
automation_code LeaseDomainError.run_mismatch op =
    control_code op AutomationErrorCode.run_mismatch true
automation_code LeaseDomainError.role_mismatch op =
    control_code op AutomationErrorCode.role_mismatch true
automation_code LeaseDomainError.host_mismatch op =
    control_code op AutomationErrorCode.host_mismatch true
automation_code (LeaseDomainError.invalid_transition f t) op = lease_not_active_code op
automation_code (LeaseDomainError.terminal_immutable s) op = lease_not_active_code op
automation_code LeaseDomainError.lease_not_active op = lease_not_active_code op
automation_code _ op = AutomationErrorCode.internal_error
