-- ===== src/Contracts/Request.antt =====
-- Lease requests: the second half of src/automation/contracts/request.rs. Serialisation by serde_json
-- and hashing by sha2 enter as the record `Crates`.
use aictx.Base.{
  ℕ, not, ◌||◌, Option, Text, ◌==◌, ltb, Result, ok, err, ok_or, ◌>>=◌, ◌>>◌, refuse_if, Eq,
  text_eq,
}
use aictx.Contracts.Types.{
  Provider, AgentRole, ProfileRef, ContractValidationError, SignedField, Sha256Digest, provider_eq,
  role_eq, profile_ref_eq,
}
use aictx.Contracts.Temporal.{UtcTimestamp, TimeCrate, is_before, seconds_until}
use aictx.Contracts.Authorization.{WorkOrderAuthorization, Check, exceeds}
use aictx.Contracts.Authorization

pub record IdentityLeaseRequest : Type 0 where
  pub client_request_id : Text
  pub tenant_id : Text
  pub work_order_id : Text
  pub work_order_digest : Sha256Digest
  pub work_order_authorization : WorkOrderAuthorization
  pub run_id : Text
  pub attempt_id : Text
  pub role : AgentRole
  pub provider : Provider
  pub profile_ref : ProfileRef
  pub profile_uid : Text
  pub repository : Text
  pub workspace_id : Text
  pub environment : Text
  pub requested_ttl_seconds : ℕ
  pub policy_digest : Option Sha256Digest

-- What the program takes from other crates: the `time` crate, `Sha256::digest`, and
-- `serde_json::to_vec` on the canonical form of a request.
pub record Crates : Type 0 where
  pub time : TimeCrate
  pub sha256 : Text → Sha256Digest
  pub request_json : IdentityLeaseRequest → Option Text

pub data ContractEncodingError : Type 0 where
  validation : ContractValidationError → ContractEncodingError
  json : ContractEncodingError

unfoldable pub validate_structure : IdentityLeaseRequest → Check
unfolding Authorization.validate_structure
validate_structure r = do
  refuse_if (not (r.provider == r.profile_ref.provider))
      ContractValidationError.provider_profile_mismatch
  Authorization.validate_structure r.work_order_authorization

-- `require_signed_match!`.
abbrev pub require_signed_match : {A : Type 0} ⦃e : Eq A⦄ → SignedField → A → A → Check
require_signed_match field a b =
    refuse_if (not (a == b)) (ContractValidationError.work_order_authorization_mismatch field)

-- The thirteen fields that the signed authorization repeats, in the source's order.
unfoldable pub require_signed_fields : IdentityLeaseRequest → Check
require_signed_fields r = do
  require_signed_match SignedField.client_request_id r.client_request_id a.client_request_id
  require_signed_match SignedField.tenant_id r.tenant_id a.tenant_id
  require_signed_match SignedField.work_order_id r.work_order_id a.work_order_id
  require_signed_match SignedField.work_order_digest r.work_order_digest a.work_order_digest
  require_signed_match SignedField.run_id r.run_id a.run_id
  require_signed_match SignedField.attempt_id r.attempt_id a.attempt_id
  require_signed_match SignedField.role r.role a.role
  require_signed_match SignedField.provider r.provider a.provider
  require_signed_match SignedField.profile_ref r.profile_ref a.profile_ref
  require_signed_match SignedField.profile_uid r.profile_uid a.profile_uid
  require_signed_match SignedField.repository r.repository a.repository
  require_signed_match SignedField.workspace_id r.workspace_id a.workspace_id
  require_signed_match SignedField.environment r.environment a.environment
  where
    open r use {work_order_authorization as a}

unfoldable pub validate_authorization_binding : IdentityLeaseRequest → Check
validate_authorization_binding r = do
  Authorization.validate a
  validate_structure r
  require_signed_fields r
  refuse_if
      (ltb a.maximum_ttl_seconds r.requested_ttl_seconds
        || ltb a.maximum_session_seconds r.requested_ttl_seconds)
      ContractValidationError.requested_ttl_exceeds_authorization
  where
    open r use {work_order_authorization as a}

unfoldable pub validate_authorization : IdentityLeaseRequest → UtcTimestamp → Check
validate_authorization r now = do
  validate_authorization_binding r
  refuse_if (is_before now a.not_before) ContractValidationError.authorization_not_yet_valid
  refuse_if (not (is_before now a.expires_at)) ContractValidationError.authorization_expired
  refuse_if (exceeds (seconds_until now a.expires_at) r.requested_ttl_seconds)
      ContractValidationError.requested_ttl_exceeds_authorization_validity
  where
    open r use {work_order_authorization as a}

unfoldable pub canonical_authority_json :
    Crates → IdentityLeaseRequest → Result ContractEncodingError Text
canonical_authority_json crates r = elim (validate_structure r) [
  | err e ↦ err (validation e)
  | ok _ ↦ ok_or (crates.request_json r) json
]

unfoldable pub authority_digest :
    Crates → IdentityLeaseRequest → Result ContractEncodingError Sha256Digest
unfolding canonical_authority_json
authority_digest crates r = do
  encoded ← canonical_authority_json crates r
  ok (crates.sha256 encoded)
