-- ===== src/Policy/Digest.antt =====
-- The domain-separated digest of an effective policy: `EffectivePolicy::digest`, the field encoders
-- and the labels of src/automation/policy.rs.
use Prim.Native.String.{String}
use aictx.Base.{
  ℕ, ◌^◌, ◌/◌, ◌%◌, Bool, true, false, Option, none, some, List, [], ◌∷◌, ◌++◌, Text, codes, length,
  leb, if◌then◌else◌,
}
use aictx.Contracts.Types.{
  Provider, AgentRole, AutomationAuthMode, IsolationClassification, Sha256Digest,
}
use aictx.Contracts.Temporal.{u64_max}
use aictx.Contracts.Request.{Crates}
use aictx.Contracts.Sha256.{encoded}
use aictx.Policy.Types.{SharedStateIsolationRequirement, AutomationConcurrencyMode, EffectivePolicy}

-- `u64::to_be_bytes`.
abbrev pub to_be_bytes : ℕ → Text
to_be_bytes n =
    (n / 2 ^ 56 % 256)
    ∷ (n / 2 ^ 48 % 256)
    ∷ (n / 2 ^ 40 % 256)
    ∷ (n / 2 ^ 32 % 256)
    ∷ (n / 2 ^ 24 % 256)
    ∷ (n / 2 ^ 16 % 256)
    ∷ (n / 2 ^ 8 % 256)
    ∷ (n % 256)
    ∷ []

-- `u64::try_from(len).unwrap_or(u64::MAX)`.
abbrev pub length_prefix : Text → Text
length_prefix value = to_be_bytes (if leb (length value) u64_max then length value else u64_max)

-- What `append_field` appends.
unfoldable pub field : Text → Text → Text
field name value = length_prefix name ++ name ++ length_prefix value ++ value

unfoldable pub role_label : AgentRole → Text
role_label AgentRole.implementer = codes "implementer"
role_label AgentRole.local_reviewer = codes "local-reviewer"
role_label AgentRole.pr_reviewer = codes "pr-reviewer"

unfoldable pub auth_label : AutomationAuthMode → Text
auth_label AutomationAuthMode.wif = codes "wif"
auth_label AutomationAuthMode.subscription_token = codes "subscription-token"
auth_label AutomationAuthMode.api_key = codes "api-key"
auth_label AutomationAuthMode.chatgpt_oauth = codes "chatgpt-oauth"
auth_label AutomationAuthMode.access_token = codes "access-token"

unfoldable pub isolation_label : IsolationClassification → Text
isolation_label IsolationClassification.credential_isolated = codes "credential-isolated"
isolation_label IsolationClassification.per_lease_isolated = codes "per-lease-isolated"
isolation_label IsolationClassification.copied_credential_development =
    codes "copied-credential-development"
isolation_label IsolationClassification.unproven = codes "unproven"

unfoldable pub shared_isolation_label : Option SharedStateIsolationRequirement → Text
shared_isolation_label none = codes "none"
shared_isolation_label (some SharedStateIsolationRequirement.stateless) = codes "stateless"
shared_isolation_label (some SharedStateIsolationRequirement.per_lease_isolated) =
    codes "per-lease-isolated"

unfoldable pub concurrency_label : AutomationConcurrencyMode → Text
concurrency_label AutomationConcurrencyMode.exclusive = codes "exclusive"
concurrency_label AutomationConcurrencyMode.shared = codes "shared"

-- `Display` of `Provider` (src/model.rs).
unfoldable pub provider_label : Provider → Text
provider_label Provider.claude = codes "claude"
provider_label Provider.codex = codes "codex"

unfoldable pub bool_label : Bool → Text
bool_label false = 0 ∷ []
bool_label true = 1 ∷ []

-- The names and values of the fields, in the order of the source.
unfoldable pub fields : EffectivePolicy → List (String × Text)
unfolding role_label auth_label isolation_label shared_isolation_label concurrency_label
    provider_label bool_label
fields p =
    ("client_request_id", p.client_request_id)
    ∷ ("tenant_id", p.tenant_id)
    ∷ ("work_order_id", p.work_order_id)
    ∷ ("work_order_digest", encoded p.work_order_digest)
    ∷ ("run_id", p.run_id)
    ∷ ("attempt_id", p.attempt_id)
    ∷ ("role", role_label p.role)
    ∷ ("provider", provider_label p.provider)
    ∷ ("profile_uid", p.profile_uid)
    ∷ ("profile_ref", p.profile_ref.value)
    ∷ ("repository", p.repository)
    ∷ ("workspace_id", p.workspace_id)
    ∷ ("environment", p.environment)
    ∷ ("caller_subject", p.caller_subject)
    ∷ ("host_identity", p.host_identity)
    ∷ ("auth_mode", auth_label p.auth_mode)
    ∷ ("isolation", isolation_label p.isolation)
    ∷ ("shared_state_isolation", shared_isolation_label p.shared_state_isolation)
    ∷ ("requested_ttl_seconds", to_be_bytes p.requested_ttl_seconds)
    ∷ ("maximum_ttl_seconds", to_be_bytes p.maximum_ttl_seconds)
    ∷ ("maximum_session_seconds", to_be_bytes p.maximum_session_seconds)
    ∷ ("signed_expires_at", p.signed_expires_at.wire)
    ∷ ("concurrency_mode", concurrency_label p.concurrency_mode)
    ∷ ("require_workload_identity", bool_label p.requirements.workload_identity)
    ∷ ("authentication_exception_acknowledged", bool_label p.requirements.authentication_exception)
    ∷ ("isolation_exception_acknowledged", bool_label p.requirements.isolation_exception)
    ∷ ("capacity_profile_uid", p.capacity_claim.profile_uid)
    ∷ ("capacity_provider_key", provider_label p.capacity_claim.provider)
    ∷ ("capacity_caller_subject", p.capacity_claim.caller_subject)
    ∷ ("capacity_host_identity", p.capacity_claim.host_identity)
    ∷ ("capacity_profile_limit", to_be_bytes p.capacity_claim.limits.profile)
    ∷ ("capacity_provider_limit", to_be_bytes p.capacity_claim.limits.provider)
    ∷ ("capacity_caller_limit", to_be_bytes p.capacity_claim.limits.caller)
    ∷ ("capacity_host_limit", to_be_bytes p.capacity_claim.limits.host)
    ∷ []

unfoldable pub encode_fields : List (String × Text) → Text
encode_fields [] = []
encode_fields ((name, value) ∷ rest) = field (codes name) value ++ encode_fields rest

-- `b"ctxlane.effective-policy/v1\0"`.
abbrev pub effective_policy_domain : Text
effective_policy_domain = codes "ctxlane.effective-policy/v1" ++ 0 ∷ []

unfoldable pub encode : EffectivePolicy → Text
encode p = effective_policy_domain ++ encode_fields (fields p)

unfoldable pub digest : Crates → EffectivePolicy → Sha256Digest
unfolding encode
digest crates p = crates.sha256 (encode p)
