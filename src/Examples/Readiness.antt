-- ===== src/Examples/Readiness.antt =====
-- A readiness report and the theorems on it: src/automation/contracts/readiness.rs.
use aictx.Base.{ℕ_discrete, Text-discrete, ◌≡◌, ◌↔◌, refl, true, false, some, none, codes, ok}
use aictx.Contracts.Types.{
  AgentRole, IsolationClassification, AutomationAuthMode, Provider-discrete, AgentRole-discrete,
  IsolationClassification-discrete, AutomationAuthMode-discrete, supports_provider,
}
use aictx.Contracts.Readiness.{
  ReadinessStatus, ReadinessReasonCode, ProbeCost, ReadinessCheck, ReadinessStatus-discrete,
  Reason-discrete, Finding-discrete, checks_validate, static_core_passes, check_is,
}
use aictx.Contracts.ReadinessReport.{
  AutomationReadiness, readiness_validate, validate_provider_attribution,
  validate_authentication_state, validate_isolation_state, validate_copied_credential_scope,
  authentication_ready, isolation_ready,
}
use aictx.Contracts.ReadyReports.{
  AllSettled, Justified, readiness_validate-ready, readiness_validate-Justified,
}
use aictx.Examples.Crates.{ten_o_clock, ten_past}
use aictx.Examples.Data.{reference}

abbrev pass : ReadinessCheck
pass = record { status = ReadinessStatus.pass; reason_code = none }

-- An API key outside local development, under an acknowledged exception.
abbrev report : AutomationReadiness
report = record {
  profile_uid = codes "profile_1";
  profile_ref = reference;
  provider = reference.provider;
  environment = codes "staging";
  role = AgentRole.pr_reviewer;
  auth_mode = AutomationAuthMode.api_key;
  ready = true;
  isolation = IsolationClassification.copied_credential_development;
  authentication_exception_acknowledged = true;
  isolation_exception_acknowledged = true;
  probe_cost = ProbeCost.free;
  probe_timeout_milliseconds = 500;
  probe_interactive = false;
  checked_at = ten_o_clock;
  valid_until = ten_past;
  checks = record {
    metadata_valid = pass;
    credential_source_available = pass;
    identity_token_current = record {
      status = ReadinessStatus.not_applicable;
      reason_code = some ReadinessReasonCode.not_applicable;
    };
    harness_trusted = pass;
    provider_principal_verified = pass;
    expected_tenant_verified = pass;
    automation_policy_permits = record {
      status = ReadinessStatus.warn;
      reason_code = some ReadinessReasonCode.authentication_exception_acknowledged;
    };
    credential_isolation_proven = record {
      status = ReadinessStatus.warn;
      reason_code = some ReadinessReasonCode.isolation_exception_acknowledged;
    };
  };
}

report_validates : readiness_validate report ≡ ok tt
unfolding readiness_validate checks_validate static_core_passes validate_provider_attribution
    validate_authentication_state validate_isolation_state validate_copied_credential_scope
    authentication_ready isolation_ready check_is supports_provider Provider-discrete
    AgentRole-discrete IsolationClassification-discrete AutomationAuthMode-discrete
    ReadinessStatus-discrete Reason-discrete Finding-discrete Text-discrete ℕ_discrete
report_validates = refl

readiness_validate-ready_example : (report.ready ≡ true) ↔ AllSettled report.checks
readiness_validate-ready_example = readiness_validate-ready report report_validates

readiness_validate-Justified_example : Justified report
readiness_validate-Justified_example = readiness_validate-Justified report report_validates refl
