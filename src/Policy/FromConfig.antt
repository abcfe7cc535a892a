-- ===== src/Policy/FromConfig.antt =====
-- A profile's policy from the configuration: `ProfilePolicy::from_config` of
-- src/automation/policy.rs.
use aictx.Base.{
  Bool, true, false, not, List, [], ◌∷◌, map, Text, ◌==◌, ok, ok_or, map_err, ◌>>=◌, ◌>>◌,
  refuse_if, nat_eq,
}
use aictx.Contracts.Types.{
  AgentRole, AutomationAuthMode, ContractValidationError, provider_eq, auth_mode_eq,
}
use aictx.Contracts.Identifiers.{Parsed, parse_safe_id, parse_caller_subject, parse_profile_ref}
use aictx.Contracts.Temporal.{maximum_ttl_seconds, duration_seconds}
use aictx.Policy.Types.{ProfilePolicy}
use aictx.Resolver.Context.{ProfileId, get, profile_id_eq}
use aictx.Model.Name.{display_profile_id}
use aictx.Model.Automation.{AutomationRole, validate_automation}
use aictx.Model.Wif.{Encoder}
use aictx.Model.Profile.{
  ClaudeAuth, CodexAuth, Profile, profile_provider, profile_uid_of, automation_of,
}
use aictx.Model.Config.{Config, ConfigAuthority, validate_config}

unfoldable pub profile_auth_mode : Profile → AutomationAuthMode
profile_auth_mode (Profile.claude p) = elim p.auth [
  | ClaudeAuth.subscription_token ↦ AutomationAuthMode.subscription_token
  | ClaudeAuth.api_key ↦ AutomationAuthMode.api_key
  | ClaudeAuth.wif ↦ AutomationAuthMode.wif
]
profile_auth_mode (Profile.codex p) = elim p.auth [
  | CodexAuth.wif ↦ AutomationAuthMode.wif
  | CodexAuth.chatgpt_oauth ↦ AutomationAuthMode.chatgpt_oauth
  | CodexAuth.api_key ↦ AutomationAuthMode.api_key
  | CodexAuth.access_token ↦ AutomationAuthMode.access_token
]

unfoldable pub contract_role : AutomationRole → AgentRole
contract_role AutomationRole.implementer = AgentRole.implementer
contract_role AutomationRole.local_reviewer = AgentRole.local_reviewer
contract_role AutomationRole.pr_reviewer = AgentRole.pr_reviewer

-- `iter().map(parse).collect::<Result<_, _>>()`.
unfoldable pub collect : (Text → Parsed Text) → List Text → Parsed (List Text)
collect parse [] = ok []
collect parse (value ∷ rest) = do
  first ← parse value
  others ← collect parse rest
  ok (first ∷ others)

unfoldable pub from_profile : ProfileId → Profile → Parsed ProfilePolicy
unfolding profile_provider profile_uid_of automation_of profile_auth_mode contract_role collect
    validate_automation parse_safe_id parse_caller_subject parse_profile_ref display_profile_id
    maximum_ttl_seconds duration_seconds
from_profile profile_ref profile = do
  refuse_if (not (profile_ref.provider == profile_provider profile))
      ContractValidationError.provider_profile_mismatch
  let automation = automation_of profile
  let auth_mode = profile_auth_mode profile
  map_err (validate_automation automation (auth_mode == AutomationAuthMode.wif))
      ContractValidationError.invalid_response_invariant
  environments ← collect parse_safe_id automation.environments
  caller_subjects ← collect parse_caller_subject automation.caller_subjects
  refuse_if (automation.max_concurrent_leases == 0)
      ContractValidationError.invalid_response_invariant
  reference ← parse_profile_ref (display_profile_id profile_ref)
  maximum_ttl ← maximum_ttl_seconds automation.lease_ttl_seconds
  maximum_session ← duration_seconds automation.max_session_seconds
  ok (record {
    profile_uid = profile_uid_of profile;
    profile_ref = reference;
    provider = profile_provider profile;
    auth_mode = auth_mode;
    eligible = automation.eligible;
    environments = environments;
    roles = map contract_role automation.roles;
    caller_subjects = caller_subjects;
    maximum_ttl_seconds = maximum_ttl;
    maximum_session_seconds = maximum_session;
    maximum_concurrent_leases = automation.max_concurrent_leases;
    concurrency_mode = automation.concurrency_mode;
    shared_state_isolation_requirement = automation.shared_state_isolation_requirement;
    requirements = record {
      workload_identity = automation.require_workload_identity;
      authentication_exception = automation.authentication_exception_acknowledged;
      isolation_exception = automation.isolation_exception_acknowledged;
    };
  })

-- `Config::is_authoritative`.
abbrev pub is_authoritative : ConfigAuthority → Bool
is_authoritative ConfigAuthority.persisted = true
is_authoritative ConfigAuthority.projected_legacy = false

unfoldable pub from_config : (Text → Text) → Encoder → Config → ProfileId → Parsed ProfilePolicy
unfolding from_profile validate_config
from_config sha256 encode config profile_ref = do
  refuse_if (not (is_authoritative config.authority))
      ContractValidationError.invalid_response_invariant
  map_err (validate_config sha256 encode config) ContractValidationError.invalid_response_invariant
  profile ←
      ok_or (get config.profiles profile_ref) ContractValidationError.invalid_response_invariant
  from_profile profile_ref profile
