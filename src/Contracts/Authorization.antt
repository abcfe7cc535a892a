-- ===== src/Contracts/Authorization.antt =====
-- Signed work-order authorizations: the first half of src/automation/contracts/request.rs. The schema
-- and algorithm fields have one value each and are left out.
use aictx.Base.{ℕ, Bool, not, Option, none, some, Text, ◌==◌, ltb, Result, ◌>>◌, refuse_if, true}
use aictx.Contracts.Types.{
  Provider, AgentRole, ProfileRef, ContractValidationError, Sha256Digest, provider_eq,
}
use aictx.Contracts.Temporal.{UtcTimestamp, is_before, seconds_until}

pub record WorkOrderAuthorization : Type 0 where
  pub key_id : Text
  pub client_request_id : Text
  pub tenant_id : Text
  pub work_order_id : Text
  pub work_order_digest : Sha256Digest
  pub run_id : Text
  pub attempt_id : Text
  pub role : AgentRole
  pub provider : Provider
  pub profile_ref : ProfileRef
  pub profile_uid : Text
  pub repository : Text
  pub workspace_id : Text
  pub environment : Text
  pub not_before : UtcTimestamp
  pub expires_at : UtcTimestamp
  pub maximum_ttl_seconds : ℕ
  pub maximum_session_seconds : ℕ
  pub signature : Text

abbrev pub Check : Type 0
Check = Result ContractValidationError (Unit {0})

unfoldable pub validate_structure : WorkOrderAuthorization → Check
validate_structure a =
    refuse_if (not (a.provider == a.profile_ref.provider))
      ContractValidationError.provider_profile_mismatch

-- `is_none_or(|seconds| limit > seconds)`.
abbrev pub exceeds : Option ℕ → ℕ → Bool
exceeds none limit = true
exceeds (some seconds) limit = ltb seconds limit

unfoldable pub validate : WorkOrderAuthorization → Check
unfolding validate_structure
validate a = do
  validate_structure a
  refuse_if (not (is_before a.not_before a.expires_at))
      ContractValidationError.invalid_authorization_validity
  refuse_if (ltb a.maximum_session_seconds a.maximum_ttl_seconds)
      ContractValidationError.invalid_authorization_limits
  refuse_if (exceeds (seconds_until a.not_before a.expires_at) a.maximum_session_seconds)
      ContractValidationError.invalid_authorization_limits
