-- ===== src/Contracts/ReadyReports.antt =====
-- What a readiness report that validates may claim: src/automation/contracts/readiness.rs.
use aictx.Base.{
  Bool, true, false, ◌&&◌, ◌≡◌, ◌≢◌, ◌↔◌, ◌⊎◌, refl, Option, List, [], ◌∷◌, Eq, ◌==◌, contains, all,
  codes, ok, arith, text_eq, ==_iff,
}
use aictx.Contracts.Types.{
  AgentRole, IsolationClassification, AutomationAuthMode, role_eq, isolation_eq, auth_mode_eq,
}
use aictx.Contracts.Readiness.{
  ReadinessStatus, ReadinessReasonCode, Finding, ReadinessCheck, ReadinessChecks,
  readiness_status_eq, reason_eq, finding_eq, check_is, validate_check, checks_validate,
  static_core_passes, metadata_findings, credential_findings, harness_findings, principal_findings,
  tenant_findings,
}
use aictx.Contracts.ReadinessReport.{
  AutomationReadiness, readiness_validate, validate_authentication_state, validate_isolation_state,
  validate_copied_credential_scope, authentication_ready, isolation_ready,
}

-- A check that neither failed nor is undecided.
abbrev pub Settled : ReadinessCheck → Type 0
Settled c = (c.status ≢ ReadinessStatus.fail) × (c.status ≢ ReadinessStatus.unknown)

pub record AllSettled (c : ReadinessChecks) : Type 0 where
  pub metadata : Settled c.metadata_valid
  pub credential : Settled c.credential_source_available
  pub token : Settled c.identity_token_current
  pub harness : Settled c.harness_trusted
  pub principal : Settled c.provider_principal_verified
  pub tenant : Settled c.expected_tenant_verified
  pub policy : Settled c.automation_policy_permits
  pub isolation : Settled c.credential_isolation_proven

-- What a report that validates has passed.
record Evidence (r : AutomationReadiness) : Type 0 where
  checks : checks_validate r.checks ≡ ok tt
  authentication : validate_authentication_state r ≡ ok tt
  isolation : validate_isolation_state r ≡ ok tt
  scope : validate_copied_credential_scope r ≡ ok tt
  claim : r.ready ≡ (static_core_passes r.checks && authentication_ready r && isolation_ready r)

validate-Evidence : (r : AutomationReadiness) → readiness_validate r ≡ ok tt → Evidence r
unfolding readiness_validate
validate-Evidence r h = ground arith

contains-all {ℓ} :
    {A : Type ℓ} ⦃e : Eq A⦄ (p : A → Bool) (xs : List A) (a : A)
    → all p xs ≡ true
    → contains xs a ≡ true
    → p a ≡ true
contains-all p [] a every found = cc
contains-all p (x ∷ xs) a every found = ground (arith, ==_iff x a, contains-all p xs a)

-- A finding of the static core: it passes, fails or is undecided.
abbrev is_decisive : Finding → Bool
is_decisive (ReadinessStatus.warn, reason) = false
is_decisive (ReadinessStatus.not_applicable, reason) = false
is_decisive (status, reason) = true

decisive-pass :
    (status : ReadinessStatus) (reason : Option ReadinessReasonCode)
    → is_decisive (status, reason) ≡ true
    → (status ≢ ReadinessStatus.fail) × (status ≢ ReadinessStatus.unknown)
    → status ≡ ReadinessStatus.pass
decisive-pass ReadinessStatus.pass reason d s = refl
decisive-pass ReadinessStatus.fail reason d s = absurd (s.0 refl)
decisive-pass ReadinessStatus.unknown reason d s = absurd (s.1 refl)
decisive-pass ReadinessStatus.warn reason d s = cc
decisive-pass ReadinessStatus.not_applicable reason d s = cc

core_check_iff :
    (c : ReadinessCheck) (allowed : List Finding)
    → all is_decisive allowed ≡ true
    → validate_check c allowed ≡ ok tt
    → ((c.status == ReadinessStatus.pass) ≡ true) ↔ Settled c
unfolding validate_check
core_check_iff c allowed every h =
    let test = ==_iff c.status ReadinessStatus.pass in
    let listed : contains allowed (c.status, c.reason_code) ≡ true = ground arith in
    let d = contains-all is_decisive allowed (c.status, c.reason_code) every listed in
    (
      λ passes. rw (test.0 passes) ((λ e. cc), (λ e. cc)),
      λ settled. test.1 (decisive-pass c.status c.reason_code d settled),
    )

authentication_iff :
    (r : AutomationReadiness)
    → validate_authentication_state r ≡ ok tt
    → (authentication_ready r ≡ true)
      ↔ (Settled r.checks.identity_token_current × Settled r.checks.automation_policy_permits)
unfolding validate_authentication_state authentication_ready check_is
authentication_iff r h = ground arith

isolation_iff :
    (r : AutomationReadiness)
    → validate_isolation_state r ≡ ok tt
    → validate_copied_credential_scope r ≡ ok tt
    → Settled r.checks.automation_policy_permits
    → (isolation_ready r ≡ true) ↔ Settled r.checks.credential_isolation_proven
unfolding validate_isolation_state isolation_ready validate_copied_credential_scope check_is
isolation_iff r h s p = ground arith

core_iff :
    (c : ReadinessChecks)
    → checks_validate c ≡ ok tt
    → (static_core_passes c ≡ true) ↔ (
        Settled c.metadata_valid
        × Settled c.credential_source_available
        × Settled c.harness_trusted
        × Settled c.provider_principal_verified
        × Settled c.expected_tenant_verified)
unfolding checks_validate static_core_passes
core_iff c h = ground (
  arith,
  core_check_iff c.metadata_valid metadata_findings refl,
  core_check_iff c.credential_source_available credential_findings refl,
  core_check_iff c.harness_trusted harness_findings refl,
  core_check_iff c.provider_principal_verified principal_findings refl,
  core_check_iff c.expected_tenant_verified tenant_findings refl,
)

-- A report that validates says that its profile is ready exactly when none of its eight checks
-- failed or is undecided.
pub readiness_validate-ready :
    (r : AutomationReadiness)
    → readiness_validate r ≡ ok tt
    → (r.ready ≡ true) ↔ AllSettled r.checks
readiness_validate-ready r h = (ready-AllSettled, AllSettled-ready)
  where
    evidence : Evidence r
    evidence = validate-Evidence r h

    core : (static_core_passes r.checks ≡ true) ↔ (
        Settled r.checks.metadata_valid
        × Settled r.checks.credential_source_available
        × Settled r.checks.harness_trusted
        × Settled r.checks.provider_principal_verified
        × Settled r.checks.expected_tenant_verified)
    core = core_iff r.checks evidence.checks

    authentic :
        (authentication_ready r ≡ true)
        ↔ (Settled r.checks.identity_token_current × Settled r.checks.automation_policy_permits)
    authentic = authentication_iff r evidence.authentication

    isolated :
        Settled r.checks.automation_policy_permits
        → (isolation_ready r ≡ true) ↔ Settled r.checks.credential_isolation_proven
    isolated = isolation_iff r evidence.isolation evidence.scope

    ready-AllSettled : r.ready ≡ true → AllSettled r.checks
    ready-AllSettled ready = ground (arith, evidence.claim, core, authentic, isolated)

    AllSettled-ready : AllSettled r.checks → r.ready ≡ true
    AllSettled-ready all = ground (arith, evidence.claim, core, authentic, isolated)

-- Why a ready report's profile may be used at all.
pub record Justified (r : AutomationReadiness) : Type 0 where
  pub authentication :
      (r.auth_mode ≡ AutomationAuthMode.wif)
        × (r.checks.identity_token_current.status ≡ ReadinessStatus.pass)
        × (r.authentication_exception_acknowledged ≡ false)
      ⊎ (r.environment ≡ codes "local-development")
        × (r.authentication_exception_acknowledged ≡ false)
      ⊎ (r.auth_mode ≢ AutomationAuthMode.wif)
        × (r.authentication_exception_acknowledged ≡ true)
        × (r.checks.automation_policy_permits.status ≡ ReadinessStatus.warn)
  pub isolation :
      (r.isolation ≡ IsolationClassification.credential_isolated)
      ⊎ (r.isolation ≡ IsolationClassification.per_lease_isolated)
      ⊎ (r.isolation ≡ IsolationClassification.copied_credential_development)
        × (r.isolation_exception_acknowledged ≡ true)
        × ((r.environment ≡ codes "local-development") ⊎ (r.role ≡ AgentRole.pr_reviewer))

claim-ready :
    (r : AutomationReadiness)
    → Evidence r
    → r.ready ≡ true
    → (authentication_ready r ≡ true) × (isolation_ready r ≡ true)
claim-ready r e ready = ground (arith, e.claim)

-- A report that validates and says ready is justified: its authentication is by workload identity
-- with a current token, or local, or by an acknowledged exception that the policy check warns of;
-- and its credentials are isolated, or copied under an acknowledged exception, for local
-- development or a reviewer of pull requests.
pub readiness_validate-Justified :
    (r : AutomationReadiness) → readiness_validate r ≡ ok tt → r.ready ≡ true → Justified r
unfolding authentication_ready isolation_ready check_is
readiness_validate-Justified r h ready =
    let (a, i) = claim-ready r (validate-Evidence r h) ready in
    let local = ==_iff r.environment (codes "local-development") in
    record { authentication = ground (arith, local); isolation = ground (arith, local) }
