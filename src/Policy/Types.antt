-- ===== src/Policy/Types.antt =====
-- The inputs and the result of a policy evaluation: the types of src/automation/policy.rs, with the
-- two enumerations of src/model/automation.rs that they use.

use aictx.Base.{ℕ, Bool, true, false, ◌&&◌, Option, none, some, List, Text, Eq, contains, ltb}
use aictx.Contracts.Types.{
  Provider, AgentRole, ProfileRef, Sha256Digest, AutomationAuthMode, IsolationClassification,
  RefusalCode,
}
use aictx.Contracts.Temporal.{UtcTimestamp}
use aictx.Contracts.Request.{IdentityLeaseRequest}

pub data SharedStateIsolationRequirement : Type 0 where
  stateless per_lease_isolated : SharedStateIsolationRequirement

pub data AutomationConcurrencyMode : Type 0 where
  exclusive shared : AutomationConcurrencyMode

unfoldable pub OptionShared-discrete : Discrete (Option SharedStateIsolationRequirement)
OptionShared-discrete = hlevel

instance abbrev pub option_shared_eq : Eq (Option SharedStateIsolationRequirement)
option_shared_eq = record { dec = OptionShared-discrete }

pub data AllowScope (A : Type 0) : Type 0 where
  any : AllowScope A
  only : List A → AllowScope A

abbrev pub permits : {A : Type 0} ⦃e : Eq A⦄ → AllowScope A → A → Bool
permits any value = true
permits (only values) value = contains values value

-- The four ceilings are not zero (`NonZeroU32`).
pub record CapacityLimits : Type 0 where
  pub profile : ℕ
  pub provider : ℕ
  pub caller : ℕ
  pub host : ℕ

pub record CapacityUsage : Type 0 where
  pub profile : ℕ
  pub provider : ℕ
  pub caller : ℕ
  pub host : ℕ

pub record CapacityClaim : Type 0 where
  pub profile_uid : Text
  pub provider : Provider
  pub caller_subject : Text
  pub host_identity : Text
  pub limits : CapacityLimits

-- `CapacityClaim::permits`.
unfoldable pub claim_permits : CapacityClaim → CapacityUsage → Bool
claim_permits claim usage =
    ltb usage.profile claim.limits.profile
    && ltb usage.provider claim.limits.provider
    && ltb usage.caller claim.limits.caller
    && ltb usage.host claim.limits.host

pub record PolicyRequirements : Type 0 where
  pub workload_identity : Bool
  pub authentication_exception : Bool
  pub isolation_exception : Bool

pub record ProfilePolicy : Type 0 where
  pub profile_uid : Text
  pub profile_ref : ProfileRef
  pub provider : Provider
  pub auth_mode : AutomationAuthMode
  pub eligible : Bool
  pub environments : List Text
  pub roles : List AgentRole
  pub caller_subjects : List Text
  pub maximum_ttl_seconds : ℕ
  pub maximum_session_seconds : ℕ
  pub maximum_concurrent_leases : ℕ
  pub concurrency_mode : AutomationConcurrencyMode
  pub shared_state_isolation_requirement : Option SharedStateIsolationRequirement
  pub requirements : PolicyRequirements

pub record ControllerPolicy : Type 0 where
  pub profile_uids : AllowScope Text
  pub providers : AllowScope Provider
  pub environments : AllowScope Text
  pub roles : AllowScope AgentRole
  pub caller_subjects : AllowScope Text
  pub repositories : AllowScope Text
  pub maximum_ttl_seconds : ℕ
  pub maximum_session_seconds : ℕ
  pub capacity : CapacityLimits
  pub allow_authentication_exception : Bool
  pub allow_isolation_exception : Bool

pub data AuthorizationProof : Type 0 where
  verified invalid : AuthorizationProof

pub data ReadinessDenial : Type 0 where
  profile_not_ready identity_token_stale harness_untrusted principal_unverified : ReadinessDenial
  principal_mismatch organization_mismatch workspace_mismatch isolation_unproven : ReadinessDenial

-- `ReadinessDenial::refusal_code`.
pub refusal_code : ReadinessDenial → RefusalCode
refusal_code ReadinessDenial.profile_not_ready = RefusalCode.profile_not_ready
refusal_code ReadinessDenial.identity_token_stale = RefusalCode.identity_token_stale
refusal_code ReadinessDenial.harness_untrusted = RefusalCode.harness_untrusted
refusal_code ReadinessDenial.principal_unverified = RefusalCode.principal_unverified
refusal_code ReadinessDenial.principal_mismatch = RefusalCode.principal_mismatch
refusal_code ReadinessDenial.organization_mismatch = RefusalCode.organization_mismatch
refusal_code ReadinessDenial.workspace_mismatch = RefusalCode.workspace_mismatch
refusal_code ReadinessDenial.isolation_unproven = RefusalCode.isolation_unproven

pub data RuntimeReadiness : Type 0 where
  ready : IsolationClassification → Option SharedStateIsolationRequirement → RuntimeReadiness
  denied : ReadinessDenial → RuntimeReadiness

pub record PolicyEvaluation : Type 0 where
  pub request : IdentityLeaseRequest
  pub profile : ProfilePolicy
  pub controller : ControllerPolicy
  pub caller_subject : Text
  pub host_identity : Text
  pub authorization_proof : AuthorizationProof
  pub readiness : RuntimeReadiness
  pub capacity_usage : CapacityUsage
  pub now : UtcTimestamp

pub record EffectivePolicy : Type 0 where
  pub source_request_digest : Sha256Digest
  pub client_request_id : Text
  pub tenant_id : Text
  pub work_order_id : Text
  pub work_order_digest : Sha256Digest
  pub run_id : Text
  pub attempt_id : Text
  pub role : AgentRole
  pub provider : Provider
  pub profile_uid : Text
  pub profile_ref : ProfileRef
  pub repository : Text
  pub workspace_id : Text
  pub environment : Text
  pub caller_subject : Text
  pub host_identity : Text
  pub auth_mode : AutomationAuthMode
  pub isolation : IsolationClassification
  pub shared_state_isolation : Option SharedStateIsolationRequirement
  pub requested_ttl_seconds : ℕ
  pub maximum_ttl_seconds : ℕ
  pub maximum_session_seconds : ℕ
  pub signed_expires_at : UtcTimestamp
  pub concurrency_mode : AutomationConcurrencyMode
  pub requirements : PolicyRequirements
  pub capacity_claim : CapacityClaim

-- src/automation/policy/isolation.rs.
unfoldable pub valid_shared_resource_isolation :
    IsolationClassification → Option SharedStateIsolationRequirement → Bool
valid_shared_resource_isolation IsolationClassification.credential_isolated (some stateless) = true
valid_shared_resource_isolation IsolationClassification.per_lease_isolated
      (some SharedStateIsolationRequirement.per_lease_isolated) =
    true
valid_shared_resource_isolation _ _ = false

abbrev pub is_none {ℓ} : {A : Type ℓ} → Option A → Bool
is_none none = true
is_none (some _) = false

-- `EffectivePolicy::resource_isolation_is_consistent`.
unfoldable pub consistent_in :
    AutomationConcurrencyMode
    → IsolationClassification
    → Option SharedStateIsolationRequirement
    → Bool
unfolding valid_shared_resource_isolation
consistent_in exclusive isolation shared_state = is_none shared_state
consistent_in shared isolation shared_state = valid_shared_resource_isolation isolation shared_state

unfoldable pub resource_isolation_is_consistent : EffectivePolicy → Bool
unfolding consistent_in
resource_isolation_is_consistent p =
    consistent_in p.concurrency_mode p.isolation p.shared_state_isolation
