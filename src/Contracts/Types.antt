-- ===== src/Contracts/Types.antt =====
-- The closed vocabularies of src/automation/contracts/types.rs, the `Provider` of src/model.rs and
-- the validated text identifiers, which are texts here: a parsed value is the text itself.
use native.Mathlib.Decide.{ℕ_discrete}
use aictx.Base.{Bool, true, false, Option, Text, Eq, codes, starts_with, text_eq, nat_eq}

pub data Provider : Type 0 where
  claude codex : Provider

pub data AgentRole : Type 0 where
  implementer local_reviewer pr_reviewer : AgentRole

pub data LeaseStatus : Type 0 where
  requested active renewing closed revoked expired refused error : LeaseStatus

pub data IsolationClassification : Type 0 where
  credential_isolated per_lease_isolated copied_credential_development : IsolationClassification
  unproven : IsolationClassification

pub data AutomationAuthMode : Type 0 where
  wif subscription_token api_key chatgpt_oauth access_token : AutomationAuthMode

pub data RefusalCode : Type 0 where
  work_order_proof_invalid work_order_authorization_mismatch : RefusalCode
  requested_ttl_not_allowed policy_digest_mismatch profile_not_found : RefusalCode
  provider_mismatch profile_not_eligible authentication_exception_required : RefusalCode
  isolation_exception_required environment_not_allowed role_not_allowed : RefusalCode
  caller_not_allowed repository_not_allowed profile_not_ready : RefusalCode
  identity_token_stale harness_untrusted principal_unverified : RefusalCode
  principal_mismatch organization_mismatch workspace_mismatch : RefusalCode
  isolation_unproven capacity_exceeded : RefusalCode

pub data LeaseReasonCode : Type 0 where
  completed worker_failed operator_revoked policy_revoked principal_mismatch : LeaseReasonCode
  lease_expired maximum_lifetime_reached heartbeat_lost : LeaseReasonCode
  process_unverifiable generation_superseded : LeaseReasonCode
  renewal_acknowledgement_failed service_recovery internal_error : LeaseReasonCode

-- The fields of a signed authorization that a request must repeat, as `stringify!` names them.
pub data SignedField : Type 0 where
  client_request_id tenant_id work_order_id work_order_digest run_id attempt_id : SignedField
  role provider profile_ref profile_uid repository workspace_id environment : SignedField

-- A fixed message is no part of the model: one constructor stands for each variant.
pub data ContractValidationError : Type 0 where
  invalid_identifier invalid_sha256_digest : ContractValidationError
  invalid_ed25519_signature invalid_utc_timestamp : ContractValidationError
  invalid_requested_ttl invalid_maximum_ttl invalid_duration : ContractValidationError
  invalid_fencing_generation invalid_authorization_validity : ContractValidationError
  invalid_authorization_limits : ContractValidationError
  work_order_authorization_mismatch : SignedField → ContractValidationError
  requested_ttl_exceeds_authorization : ContractValidationError
  requested_ttl_exceeds_authorization_validity : ContractValidationError
  authorization_not_yet_valid authorization_expired : ContractValidationError
  provider_profile_mismatch invalid_response_invariant : ContractValidationError

unfoldable pub Provider-discrete : Discrete Provider
Provider-discrete = hlevel

unfoldable pub AgentRole-discrete : Discrete AgentRole
AgentRole-discrete = hlevel

unfoldable pub LeaseStatus-discrete : Discrete LeaseStatus
LeaseStatus-discrete = hlevel

unfoldable pub IsolationClassification-discrete : Discrete IsolationClassification
IsolationClassification-discrete = hlevel

unfoldable pub AutomationAuthMode-discrete : Discrete AutomationAuthMode
AutomationAuthMode-discrete = hlevel

instance abbrev pub provider_eq : Eq Provider
provider_eq = record { dec = Provider-discrete }

instance abbrev pub role_eq : Eq AgentRole
role_eq = record { dec = AgentRole-discrete }

instance abbrev pub status_eq : Eq LeaseStatus
status_eq = record { dec = LeaseStatus-discrete }

instance abbrev pub isolation_eq : Eq IsolationClassification
isolation_eq = record { dec = IsolationClassification-discrete }

instance abbrev pub auth_mode_eq : Eq AutomationAuthMode
auth_mode_eq = record { dec = AutomationAuthMode-discrete }

-- The state of an active or renewing lease may show its execution handle.
unfoldable pub permits_execution_handle : LeaseStatus → Bool
permits_execution_handle LeaseStatus.active = true
permits_execution_handle LeaseStatus.renewing = true
permits_execution_handle _ = false

unfoldable pub requires_resolution : LeaseStatus → Bool
requires_resolution LeaseStatus.requested = false
requires_resolution LeaseStatus.refused = false
requires_resolution _ = true

unfoldable pub supports_provider : AutomationAuthMode → Provider → Bool
supports_provider AutomationAuthMode.wif Provider.claude = true
supports_provider AutomationAuthMode.subscription_token Provider.claude = true
supports_provider AutomationAuthMode.api_key Provider.claude = true
supports_provider AutomationAuthMode.wif Provider.codex = true
supports_provider AutomationAuthMode.chatgpt_oauth Provider.codex = true
supports_provider AutomationAuthMode.api_key Provider.codex = true
supports_provider AutomationAuthMode.access_token Provider.codex = true
supports_provider _ _ = false

-- A digest is its 32 bytes.
abbrev pub Sha256Digest : Type 0
Sha256Digest = Text

-- A profile reference keeps the provider that its text names.
pub record ProfileRef : Type 0 where
  pub provider : Provider
  pub value : Text

unfoldable pub ProfileRef-discrete : Discrete ProfileRef
ProfileRef-discrete = hlevel ℕ_discrete

instance abbrev pub profile_ref_eq : Eq ProfileRef
profile_ref_eq = record { dec = ProfileRef-discrete }

unfoldable pub OptionText-discrete : Discrete (Option Text)
OptionText-discrete = hlevel ℕ_discrete

instance abbrev pub option_text_eq : Eq (Option Text)
option_text_eq = record { dec = OptionText-discrete }

-- `WorkspaceRef::matches_provider` (src/automation/contracts/references.rs).
unfoldable pub matches_provider : Text → Provider → Bool
matches_provider workspace Provider.claude = starts_with workspace (codes "claude-organization:")
matches_provider workspace Provider.codex = starts_with workspace (codes "chatgpt-workspace:")
