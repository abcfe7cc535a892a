-- ===== src/Policy/Admission.antt =====
-- Which evaluations permit a lease: `evaluate_policy` of src/automation/policy.rs.
use aictx.Base.{
  ◌≤◌, ◌≡◌, ◌≢◌, ◌↔◌, true, false, ◌||◌, Bool-cases, Option, none, ◌⊎◌, inl, inr, arith, ok, ◌==◌,
  codes, contains, text_eq,
}
use aictx.Contracts.Types.{
  AgentRole, Sha256Digest, AutomationAuthMode, IsolationClassification, provider_eq, role_eq,
  isolation_eq, auth_mode_eq, profile_ref_eq,
}
use aictx.Contracts.Request.{Crates, authority_digest}
use aictx.Contracts.Admission.{Covered, validate_authorization_iff}
use aictx.Policy.Types.{
  SharedStateIsolationRequirement, exclusive, shared, permits, verified, ready, PolicyEvaluation,
  valid_shared_resource_isolation, option_shared_eq,
}
use aictx.Policy.Evaluate.{
  signed_request, scopes, non_local, authentication, resources, copied_credentials, readiness,
  maximum_ttl, maximum_session, lifetime,
}

-- The request, the profile and the controller agree on every scope.
pub record InScope (input : PolicyEvaluation) : Type 0 where
  pub provider : input.request.provider ≡ input.profile.provider
  pub ref_provider : input.request.profile_ref.provider ≡ input.profile.provider
  pub profile_uid : input.request.profile_uid ≡ input.profile.profile_uid
  pub profile_ref : input.request.profile_ref ≡ input.profile.profile_ref
  pub eligible : input.profile.eligible ≡ true
  pub environment : contains input.profile.environments input.request.environment ≡ true
  pub role : contains input.profile.roles input.request.role ≡ true
  pub caller : contains input.profile.caller_subjects input.caller_subject ≡ true
  pub providers : permits input.controller.providers input.request.provider ≡ true
  pub profile_uids : permits input.controller.profile_uids input.profile.profile_uid ≡ true
  pub environments : permits input.controller.environments input.request.environment ≡ true
  pub roles : permits input.controller.roles input.request.role ≡ true
  pub callers : permits input.controller.caller_subjects input.caller_subject ≡ true
  pub repositories : permits input.controller.repositories input.request.repository ≡ true

pub scopes_iff : (input : PolicyEvaluation) → (scopes input ≡ ok tt) ↔ InScope input
unfolding scopes
scopes_iff input = ((λ h. ground arith), (λ s. ground arith))

-- Authentication by workload identity, or by an exception that profile and controller both allow;
-- local development needs neither unless the profile requires workload identity.
abbrev pub Authenticated : PolicyEvaluation → Type 0
Authenticated input =
    (input.profile.auth_mode ≡ AutomationAuthMode.wif)
    ⊎ ((input.request.environment ≡ codes "local-development")
        × (input.profile.requirements.workload_identity ≡ false))
    ⊎ ((input.profile.requirements.authentication_exception ≡ true)
        × (input.controller.allow_authentication_exception ≡ true))

pub authentication_iff :
    (input : PolicyEvaluation) → (authentication input ≡ ok tt) ↔ Authenticated input
unfolding authentication non_local
authentication_iff input = (
  (λ h. elim (Bool-cases (input.profile.auth_mode == AutomationAuthMode.wif)) [
    | inl w ↦ inl (ground arith)
    | inr w ↦ elim (Bool-cases (input.profile.requirements.workload_identity || non_local input)) [
      | inl n ↦ inr (inr (ground arith))
      | inr n ↦ inr (inl (ground arith))
    ]
  ]),
  (λ s. ground arith),
)

pub signed_request_iff :
    (crates : Crates) (input : PolicyEvaluation) (d : Sha256Digest)
    → (signed_request crates input ≡ ok d) ↔ (
        (input.authorization_proof ≡ verified)
        × Covered input.request input.now
        × (authority_digest crates input.request ≡ ok d))
unfolding signed_request
signed_request_iff crates input d = (
  (λ h. (
    ground arith,
    (validate_authorization_iff input.request input.now).0 (ground arith),
    ground arith,
  )),
  (λ (p, c, k). let v = (validate_authorization_iff input.request input.now).1 c in ground arith),
)

-- The isolation that a runtime attests and that the profile accepts.
pub record Isolated (input : PolicyEvaluation) (isolation : IsolationClassification)
    (shared_state : Option SharedStateIsolationRequirement) : Type 0 where
  pub attested : input.readiness ≡ ready isolation shared_state
  pub proven : isolation ≢ IsolationClassification.unproven
  pub copied :
      (isolation ≢ IsolationClassification.copied_credential_development)
      ⊎ (((input.request.environment ≡ codes "local-development")
            ⊎ (input.request.role ≡ AgentRole.pr_reviewer))
          × (input.profile.requirements.isolation_exception ≡ true)
          × (input.controller.allow_isolation_exception ≡ true))
  pub resources :
      ((input.profile.concurrency_mode ≡ exclusive) × (shared_state ≡ none))
      ⊎ ((input.profile.concurrency_mode ≡ shared)
          × (shared_state ≡ input.profile.shared_state_isolation_requirement)
          × (valid_shared_resource_isolation isolation shared_state ≡ true))

copied_credentials_iff :
    (input : PolicyEvaluation) (isolation : IsolationClassification)
    → (copied_credentials input isolation ≡ ok tt) ↔ (
        (isolation ≢ IsolationClassification.copied_credential_development)
        ⊎ (((input.request.environment ≡ codes "local-development")
              ⊎ (input.request.role ≡ AgentRole.pr_reviewer))
            × (input.profile.requirements.isolation_exception ≡ true)
            × (input.controller.allow_isolation_exception ≡ true)))
unfolding copied_credentials non_local
copied_credentials_iff input isolation = (
  (λ h. elim (Bool-cases (isolation == IsolationClassification.copied_credential_development)) [
    | inr n ↦ inl (λ e. ground arith)
    | inl c ↦ inr (elim (Bool-cases (input.request.role == AgentRole.pr_reviewer)) [
      | inl r ↦ (inr (ground arith), ground arith, ground arith)
      | inr r ↦ (inl (ground arith), ground arith, ground arith)
    ])
  ]),
  (λ s. ground arith),
)

resources_iff :
    (input : PolicyEvaluation) (isolation : IsolationClassification)
    (shared_state : Option SharedStateIsolationRequirement)
    → (resources input.profile isolation shared_state ≡ ok tt) ↔ (
        ((input.profile.concurrency_mode ≡ exclusive) × (shared_state ≡ none))
        ⊎ ((input.profile.concurrency_mode ≡ shared)
            × (shared_state ≡ input.profile.shared_state_isolation_requirement)
            × (valid_shared_resource_isolation isolation shared_state ≡ true)))
unfolding resources
resources_iff input isolation shared_state = ((λ h. ground arith), (λ s. ground arith))

pub readiness_iff :
    (input : PolicyEvaluation) (isolation : IsolationClassification)
    (shared_state : Option SharedStateIsolationRequirement)
    → (readiness input ≡ ok (isolation, shared_state)) ↔ Isolated input isolation shared_state
unfolding readiness
readiness_iff input isolation shared_state = (
  (λ h. record {
    attested = ground arith;
    proven = ground arith;
    copied = (copied_credentials_iff input isolation).0 (ground arith);
    resources = (resources_iff input isolation shared_state).0 (ground arith);
  }),
  (λ v.
      let c = (copied_credentials_iff input isolation).1 v.copied in
      let r = (resources_iff input isolation shared_state).1 v.resources in
      ground (arith, v.attested, v.proven)),
)

pub lifetime_iff :
    (input : PolicyEvaluation)
    → (lifetime input ≡ ok tt) ↔ (
        (input.request.requested_ttl_seconds ≤ maximum_ttl input)
        × (input.request.requested_ttl_seconds ≤ maximum_session input))
unfolding lifetime
lifetime_iff input = ((λ h. ground arith), (λ v. ground arith))
