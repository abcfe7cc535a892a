-- ===== src/Contracts/ReadinessReport.antt =====
-- Whether a report's evidence agrees with its claim: `AutomationReadiness::validate` of
-- src/automation/contracts/readiness.rs. The schema tag, which has one value, is left out.
use aictx.Base.{
  ℕ, Bool, not, ◌&&◌, ◌||◌, some, none, Text, ◌==◌, codes, ◌>>◌, refuse_if, text_eq, if◌then◌else◌,
}
use aictx.Contracts.Types.{
  Provider, AgentRole, IsolationClassification, AutomationAuthMode, ContractValidationError,
  ProfileRef, provider_eq, role_eq, isolation_eq, auth_mode_eq, supports_provider,
}
use aictx.Contracts.Temporal.{UtcTimestamp, is_before}
use aictx.Contracts.ErrorContract.{differ}
use aictx.Contracts.Readiness.{
  ReadinessStatus, ReadinessReasonCode, ProbeCost, ReadinessChecks, ReadinessResult, reason_eq,
  check_is, checks_validate, static_core_passes,
}

pub record AutomationReadiness : Type 0 where
  pub profile_uid : Text
  pub profile_ref : ProfileRef
  pub provider : Provider
  pub environment : Text
  pub role : AgentRole
  pub auth_mode : AutomationAuthMode
  pub ready : Bool
  pub isolation : IsolationClassification
  pub authentication_exception_acknowledged : Bool
  pub isolation_exception_acknowledged : Bool
  pub probe_cost : ProbeCost
  pub probe_timeout_milliseconds : ℕ
  pub probe_interactive : Bool
  pub checked_at : UtcTimestamp
  pub valid_until : UtcTimestamp
  pub checks : ReadinessChecks

abbrev inconsistent : ContractValidationError
inconsistent = ContractValidationError.invalid_response_invariant

unfoldable pub validate_provider_attribution : AutomationReadiness → ReadinessResult
validate_provider_attribution r =
    let reason = r.checks.expected_tenant_verified.reason_code in
    refuse_if
      (reason == some ReadinessReasonCode.organization_mismatch
          && not (r.provider == Provider.claude)
        || reason == some ReadinessReasonCode.workspace_mismatch
          && not (r.provider == Provider.codex))
      inconsistent

abbrev pub is_local : AutomationReadiness → Bool
is_local r = r.environment == codes "local-development"

-- The findings that the two authentication checks are compared with.
abbrev pub token_passes : AutomationReadiness → Bool
token_passes r = check_is r.checks.identity_token_current ReadinessStatus.pass none

abbrev pub token_is_stale : AutomationReadiness → Bool
token_is_stale r =
    check_is r.checks.identity_token_current ReadinessStatus.fail
      (some ReadinessReasonCode.identity_token_stale)

abbrev pub token_is_not_applicable : AutomationReadiness → Bool
token_is_not_applicable r =
    check_is r.checks.identity_token_current ReadinessStatus.not_applicable
      (some ReadinessReasonCode.not_applicable)

abbrev pub policy_passes : AutomationReadiness → Bool
policy_passes r = check_is r.checks.automation_policy_permits ReadinessStatus.pass none

abbrev pub policy_denied : AutomationReadiness → Bool
policy_denied r =
    check_is r.checks.automation_policy_permits ReadinessStatus.fail
      (some ReadinessReasonCode.automation_policy_denied)

abbrev pub exception_required : AutomationReadiness → Bool
exception_required r =
    check_is r.checks.automation_policy_permits ReadinessStatus.fail
      (some ReadinessReasonCode.authentication_exception_required)

abbrev pub exception_acknowledged : AutomationReadiness → Bool
exception_acknowledged r =
    check_is r.checks.automation_policy_permits ReadinessStatus.warn
      (some ReadinessReasonCode.authentication_exception_acknowledged)

unfoldable pub validate_authentication_state : AutomationReadiness → ReadinessResult
validate_authentication_state r =
    refuse_if
      (not (
        if r.auth_mode == AutomationAuthMode.wif
        then not r.authentication_exception_acknowledged
          && (token_passes r || token_is_stale r)
          && (policy_passes r || policy_denied r)
        else if is_local r
        then not r.authentication_exception_acknowledged
          && token_is_not_applicable r
          && (policy_passes r || policy_denied r)
        else if r.authentication_exception_acknowledged
        then token_is_not_applicable r && (exception_acknowledged r || policy_denied r)
        else token_is_not_applicable r && (exception_required r || policy_denied r)))
      inconsistent

abbrev pub isolation_is : AutomationReadiness → ReadinessStatus → ReadinessReasonCode → Bool
isolation_is r status reason = check_is r.checks.credential_isolation_proven status (some reason)

-- The match on the classification in `validate_isolation_state`.
unfoldable pub isolation_agrees : AutomationReadiness → IsolationClassification → Bool
isolation_agrees r IsolationClassification.copied_credential_development =
    if r.isolation_exception_acknowledged
    then isolation_is r ReadinessStatus.warn ReadinessReasonCode.isolation_exception_acknowledged
    else isolation_is r ReadinessStatus.fail ReadinessReasonCode.isolation_exception_required
isolation_agrees r IsolationClassification.unproven =
    not r.isolation_exception_acknowledged
    && isolation_is r ReadinessStatus.fail ReadinessReasonCode.isolation_unproven
isolation_agrees r _ =
    not r.isolation_exception_acknowledged
    && check_is r.checks.credential_isolation_proven ReadinessStatus.pass none

unfoldable pub validate_isolation_state : AutomationReadiness → ReadinessResult
unfolding isolation_agrees
validate_isolation_state r = refuse_if (not (isolation_agrees r r.isolation)) inconsistent

-- Copied credentials are for local development and for reviewers of pull requests.
abbrev pub copied_is_allowed : AutomationReadiness → Bool
copied_is_allowed r = is_local r || r.role == AgentRole.pr_reviewer

unfoldable pub validate_copied_credential_scope : AutomationReadiness → ReadinessResult
validate_copied_credential_scope r =
    refuse_if
      (r.isolation == IsolationClassification.copied_credential_development
        && not (copied_is_allowed r)
        && not (policy_denied r))
      inconsistent

unfoldable pub authentication_ready : AutomationReadiness → Bool
authentication_ready r =
    if r.auth_mode == AutomationAuthMode.wif
    then not r.authentication_exception_acknowledged && token_passes r && policy_passes r
    else if is_local r
    then not r.authentication_exception_acknowledged && token_is_not_applicable r && policy_passes r
    else r.authentication_exception_acknowledged
      && token_is_not_applicable r
      && exception_acknowledged r

-- The match on the classification in `isolation_ready`.
unfoldable pub isolation_suffices : AutomationReadiness → IsolationClassification → Bool
isolation_suffices r IsolationClassification.copied_credential_development =
    r.isolation_exception_acknowledged
    && isolation_is r ReadinessStatus.warn ReadinessReasonCode.isolation_exception_acknowledged
    && copied_is_allowed r
isolation_suffices r IsolationClassification.unproven = Bool.false
isolation_suffices r _ =
    not r.isolation_exception_acknowledged
    && check_is r.checks.credential_isolation_proven ReadinessStatus.pass none

unfoldable pub isolation_ready : AutomationReadiness → Bool
unfolding isolation_suffices
isolation_ready r = isolation_suffices r r.isolation

unfoldable pub readiness_validate : AutomationReadiness → ReadinessResult
readiness_validate r = do
  refuse_if
      (not (r.provider == r.profile_ref.provider) || not (supports_provider r.auth_mode r.provider))
      ContractValidationError.provider_profile_mismatch
  refuse_if r.probe_interactive inconsistent
  refuse_if (not (is_before r.checked_at r.valid_until)) inconsistent
  checks_validate r.checks
  validate_provider_attribution r
  validate_authentication_state r
  validate_isolation_state r
  validate_copied_credential_scope r
  let eligible = static_core_passes r.checks && authentication_ready r && isolation_ready r
  refuse_if (differ r.ready eligible) inconsistent
