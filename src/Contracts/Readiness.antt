-- ===== src/Contracts/Readiness.antt =====
-- Readiness reports: src/automation/contracts/readiness.rs.
use aictx.Base.{
  ℕ, Bool, not, ◌&&◌, Option, none, some, List, [], ◌∷◌, Eq, ◌==◌, leb, contains, all, Result, ok,
  err, ◌>>◌, refuse_if, text_eq, if◌then◌else◌,
}
use aictx.Contracts.Types.{
  ContractValidationError, provider_eq, role_eq, isolation_eq, auth_mode_eq,
}

pub data ReadinessStatus : Type 0 where
  pass warn fail unknown not_applicable : ReadinessStatus

pub data ReadinessReasonCode : Type 0 where
  not_applicable metadata_invalid credential_source_unavailable : ReadinessReasonCode
  identity_token_stale harness_untrusted principal_unverified : ReadinessReasonCode
  principal_mismatch expected_tenant_unverified organization_mismatch : ReadinessReasonCode
  workspace_mismatch automation_policy_denied : ReadinessReasonCode
  authentication_exception_required authentication_exception_acknowledged : ReadinessReasonCode
  isolation_exception_required isolation_exception_acknowledged : ReadinessReasonCode
  isolation_unproven probe_not_run probe_failed unsupported_platform : ReadinessReasonCode

pub data ProbeCost : Type 0 where
  free provider_request_possible provider_request_incurred : ProbeCost

-- What a check found, and why.
abbrev pub Finding : Type 0
Finding = ReadinessStatus × Option ReadinessReasonCode

unfoldable pub ReadinessStatus-discrete : Discrete ReadinessStatus
ReadinessStatus-discrete = hlevel

unfoldable pub Reason-discrete : Discrete (Option ReadinessReasonCode)
Reason-discrete = hlevel

unfoldable pub Finding-discrete : Discrete Finding
Finding-discrete = hlevel

instance abbrev pub readiness_status_eq : Eq ReadinessStatus
readiness_status_eq = record { dec = ReadinessStatus-discrete }

instance abbrev pub reason_eq : Eq (Option ReadinessReasonCode)
reason_eq = record { dec = Reason-discrete }

instance abbrev pub finding_eq : Eq Finding
finding_eq = record { dec = Finding-discrete }

abbrev pub ReadinessResult : Type 0
ReadinessResult = Result ContractValidationError (Unit {0})

-- `ProbeTimeoutMilliseconds::from_value`.
unfoldable pub probe_timeout : ℕ → Result ContractValidationError ℕ
probe_timeout value =
    if leb 1 value && leb value 30_000
    then ok value
    else err ContractValidationError.invalid_response_invariant

pub record ReadinessCheck : Type 0 where
  pub status : ReadinessStatus
  pub reason_code : Option ReadinessReasonCode

-- `matches!` on the status in `ReadinessCheck::validate`.
abbrev pub consistent : ReadinessStatus → Option ReadinessReasonCode → Bool
consistent ReadinessStatus.pass reason = reason == none
consistent ReadinessStatus.not_applicable reason = reason == some ReadinessReasonCode.not_applicable
consistent _ reason =
    not (reason == none) && not (reason == some ReadinessReasonCode.not_applicable)

unfoldable pub check_validate : ReadinessCheck → ReadinessResult
check_validate check =
    refuse_if (not (consistent check.status check.reason_code))
      ContractValidationError.invalid_response_invariant

unfoldable pub validate_check : ReadinessCheck → List Finding → ReadinessResult
unfolding check_validate
validate_check check allowed = do
  check_validate check
  refuse_if (not (contains allowed (check.status, check.reason_code)))
      ContractValidationError.invalid_response_invariant

unfoldable pub check_is : ReadinessCheck → ReadinessStatus → Option ReadinessReasonCode → Bool
check_is check status reason_code = check.status == status && check.reason_code == reason_code

pub record ReadinessChecks : Type 0 where
  pub metadata_valid : ReadinessCheck
  pub credential_source_available : ReadinessCheck
  pub identity_token_current : ReadinessCheck
  pub harness_trusted : ReadinessCheck
  pub provider_principal_verified : ReadinessCheck
  pub expected_tenant_verified : ReadinessCheck
  pub automation_policy_permits : ReadinessCheck
  pub credential_isolation_proven : ReadinessCheck

abbrev pub passed : Finding
passed = (ReadinessStatus.pass, none)

abbrev pub failed : ReadinessReasonCode → Finding
failed reason = (ReadinessStatus.fail, some reason)

abbrev pub undecided : ReadinessReasonCode → Finding
undecided reason = (ReadinessStatus.unknown, some reason)

abbrev pub warned : ReadinessReasonCode → Finding
warned reason = (ReadinessStatus.warn, some reason)

-- The findings that each check admits, as `ReadinessChecks::validate` lists them.
abbrev pub metadata_findings : List Finding
metadata_findings =
    passed
    ∷ failed ReadinessReasonCode.metadata_invalid
    ∷ failed ReadinessReasonCode.unsupported_platform
    ∷ []

abbrev pub credential_findings : List Finding
credential_findings = passed ∷ failed ReadinessReasonCode.credential_source_unavailable ∷ []

abbrev pub token_findings : List Finding
token_findings =
    passed
    ∷ (ReadinessStatus.not_applicable, some ReadinessReasonCode.not_applicable)
    ∷ failed ReadinessReasonCode.identity_token_stale
    ∷ []

abbrev pub harness_findings : List Finding
harness_findings =
    passed
    ∷ failed ReadinessReasonCode.harness_untrusted
    ∷ failed ReadinessReasonCode.unsupported_platform
    ∷ []

abbrev pub principal_findings : List Finding
principal_findings =
    passed
    ∷ undecided ReadinessReasonCode.principal_unverified
    ∷ undecided ReadinessReasonCode.probe_not_run
    ∷ failed ReadinessReasonCode.principal_mismatch
    ∷ failed ReadinessReasonCode.probe_failed
    ∷ []

abbrev pub tenant_findings : List Finding
tenant_findings =
    passed
    ∷ undecided ReadinessReasonCode.expected_tenant_unverified
    ∷ undecided ReadinessReasonCode.probe_not_run
    ∷ failed ReadinessReasonCode.organization_mismatch
    ∷ failed ReadinessReasonCode.workspace_mismatch
    ∷ failed ReadinessReasonCode.probe_failed
    ∷ []

abbrev pub policy_findings : List Finding
policy_findings =
    passed
    ∷ failed ReadinessReasonCode.automation_policy_denied
    ∷ failed ReadinessReasonCode.authentication_exception_required
    ∷ warned ReadinessReasonCode.authentication_exception_acknowledged
    ∷ []

abbrev pub isolation_findings : List Finding
isolation_findings =
    passed
    ∷ failed ReadinessReasonCode.isolation_unproven
    ∷ failed ReadinessReasonCode.isolation_exception_required
    ∷ warned ReadinessReasonCode.isolation_exception_acknowledged
    ∷ []

unfoldable pub checks_validate : ReadinessChecks → ReadinessResult
unfolding validate_check
checks_validate c = do
  validate_check c.metadata_valid metadata_findings
  validate_check c.credential_source_available credential_findings
  validate_check c.identity_token_current token_findings
  validate_check c.harness_trusted harness_findings
  validate_check c.provider_principal_verified principal_findings
  validate_check c.expected_tenant_verified tenant_findings
  validate_check c.automation_policy_permits policy_findings
  validate_check c.credential_isolation_proven isolation_findings

unfoldable pub static_core_passes : ReadinessChecks → Bool
static_core_passes c =
    all (λ (check : ReadinessCheck). check.status == ReadinessStatus.pass)
      (c.metadata_valid ∷ c.credential_source_available ∷ c.harness_trusted
        ∷ c.provider_principal_verified ∷ c.expected_tenant_verified ∷ [])
