-- ===== src/Policy/Evaluate.antt =====
-- `evaluate_policy` of src/automation/policy.rs, in the stages of the source, and the renewal
-- policy. A permitted decision is `ok`, a refused one `err` with its code.
use aictx.Base.{
  ℕ, Bool, true, false, not, ◌&&◌, ◌||◌, Option, none, some, ◌==◌, codes, contains, ltb, min,
  if◌then◌else◌, Result, ok, err, ◌>>=◌, ◌>>◌, refuse_if, map_err, text_eq, nat_eq,
}
use aictx.Contracts.Types.{
  AgentRole, Sha256Digest, AutomationAuthMode, IsolationClassification, RefusalCode,
  ContractValidationError, provider_eq, role_eq, isolation_eq, auth_mode_eq, profile_ref_eq,
}
use aictx.Contracts.Request.{Crates, validate_authorization, authority_digest}
use aictx.Policy.Types.{
  SharedStateIsolationRequirement, exclusive, shared, permits, CapacityClaim, claim_permits,
  ProfilePolicy, AuthorizationProof, verified, invalid, ready, denied, refusal_code,
  PolicyEvaluation, EffectivePolicy, valid_shared_resource_isolation, option_shared_eq, is_none,
}
use aictx.Policy.Digest.{digest}

abbrev pub PolicyDecision : Type 0
PolicyDecision = Result RefusalCode EffectivePolicy

abbrev pub Stage : Type 0
Stage = Result RefusalCode (Unit {0})

pub refusal_for_contract_error : ContractValidationError → RefusalCode
refusal_for_contract_error (ContractValidationError.work_order_authorization_mismatch f) =
    RefusalCode.work_order_authorization_mismatch
refusal_for_contract_error ContractValidationError.requested_ttl_exceeds_authorization =
    RefusalCode.requested_ttl_not_allowed
refusal_for_contract_error ContractValidationError.requested_ttl_exceeds_authorization_validity =
    RefusalCode.requested_ttl_not_allowed
refusal_for_contract_error ContractValidationError.invalid_requested_ttl =
    RefusalCode.requested_ttl_not_allowed
refusal_for_contract_error ContractValidationError.provider_profile_mismatch =
    RefusalCode.provider_mismatch
refusal_for_contract_error _ = RefusalCode.work_order_proof_invalid

abbrev is_invalid : AuthorizationProof → Bool
is_invalid verified = false
is_invalid invalid = true

-- The proof, the signed authorization, and the digest of the request.
unfoldable pub signed_request : Crates → PolicyEvaluation → Result RefusalCode Sha256Digest
unfolding refusal_for_contract_error
signed_request crates input =
    if is_invalid input.authorization_proof
    then err RefusalCode.work_order_proof_invalid
    else elim (validate_authorization input.request input.now) [
      | err e ↦ err (refusal_for_contract_error e)
      | ok _ ↦ map_err (authority_digest crates input.request) RefusalCode.work_order_proof_invalid
    ]

-- The identity of the profile and the six allow-scopes.
unfoldable pub scopes : PolicyEvaluation → Stage
scopes input = do
  refuse_if
      (not (request.provider == profile.provider)
        || not (request.profile_ref.provider == profile.provider)
        || not (permits controller.providers request.provider))
      RefusalCode.provider_mismatch
  refuse_if
      (not (request.profile_uid == profile.profile_uid)
        || not (request.profile_ref == profile.profile_ref))
      RefusalCode.profile_not_found
  refuse_if (not profile.eligible || not (permits controller.profile_uids profile.profile_uid))
      RefusalCode.profile_not_eligible
  refuse_if
      (not (contains profile.environments request.environment)
        || not (permits controller.environments request.environment))
      RefusalCode.environment_not_allowed
  refuse_if
      (not (contains profile.roles request.role) || not (permits controller.roles request.role))
      RefusalCode.role_not_allowed
  refuse_if
      (not (contains profile.caller_subjects input.caller_subject)
        || not (permits controller.caller_subjects input.caller_subject))
      RefusalCode.caller_not_allowed
  refuse_if (not (permits controller.repositories request.repository))
      RefusalCode.repository_not_allowed
  where
    open input use {request, profile, controller}

unfoldable pub non_local : PolicyEvaluation → Bool
non_local input = not (input.request.environment == codes "local-development")

unfoldable pub authentication : PolicyEvaluation → Stage
unfolding non_local
authentication input =
    refuse_if
      (not (input.profile.auth_mode == AutomationAuthMode.wif)
        && (input.profile.requirements.workload_identity || non_local input)
        && (not input.profile.requirements.authentication_exception
            || not input.controller.allow_authentication_exception))
      RefusalCode.authentication_exception_required

-- The match on the profile's concurrency mode.
unfoldable pub resources :
    ProfilePolicy → IsolationClassification → Option SharedStateIsolationRequirement → Stage
resources profile isolation shared_state = elim profile.concurrency_mode [
  | exclusive ↦ refuse_if (not (is_none shared_state)) RefusalCode.isolation_unproven
  | shared ↦
      refuse_if
        (not (shared_state == profile.shared_state_isolation_requirement)
          || not (valid_shared_resource_isolation isolation shared_state))
        RefusalCode.isolation_unproven
]

abbrev pub Isolation : Type 0
Isolation = IsolationClassification × Option SharedStateIsolationRequirement

-- Credentials copied for development are an exception that profile and controller must allow.
unfoldable pub copied_credentials : PolicyEvaluation → IsolationClassification → Stage
unfolding non_local
copied_credentials input isolation =
    if isolation == IsolationClassification.copied_credential_development
    then (refuse_if (non_local input && not (input.request.role == AgentRole.pr_reviewer))
          RefusalCode.isolation_unproven
        >> refuse_if
            (not input.profile.requirements.isolation_exception
              || not input.controller.allow_isolation_exception)
            RefusalCode.isolation_exception_required)
    else ok tt

unfoldable pub readiness : PolicyEvaluation → Result RefusalCode Isolation
unfolding resources copied_credentials
readiness input = elim input.readiness [
  | denied denial ↦ err (refusal_code denial)
  | ready isolation shared_state ↦ do
    refuse_if (isolation == IsolationClassification.unproven) RefusalCode.isolation_unproven
    copied_credentials input isolation
    resources input.profile isolation shared_state
    ok (isolation, shared_state)
]

unfoldable pub maximum_ttl : PolicyEvaluation → ℕ
maximum_ttl input =
    min
      (min input.request.work_order_authorization.maximum_ttl_seconds
        input.profile.maximum_ttl_seconds)
      input.controller.maximum_ttl_seconds

unfoldable pub maximum_session : PolicyEvaluation → ℕ
maximum_session input =
    min
      (min input.request.work_order_authorization.maximum_session_seconds
        input.profile.maximum_session_seconds)
      input.controller.maximum_session_seconds

unfoldable pub lifetime : PolicyEvaluation → Stage
unfolding maximum_ttl maximum_session
lifetime input =
    refuse_if
      (ltb (maximum_ttl input) input.request.requested_ttl_seconds
        || ltb (maximum_session input) input.request.requested_ttl_seconds)
      RefusalCode.requested_ttl_not_allowed

-- `NonZeroU32::new(limit).unwrap_or(NonZeroU32::MIN)`.
abbrev at_least_one : ℕ → ℕ
at_least_one limit = if limit == 0 then 1 else limit

unfoldable pub claim : PolicyEvaluation → CapacityClaim
claim input = record {
  profile_uid = profile.profile_uid;
  provider = profile.provider;
  caller_subject = input.caller_subject;
  host_identity = input.host_identity;
  limits = record {
    profile = at_least_one (min profile.maximum_concurrent_leases controller.capacity.profile);
    provider = controller.capacity.provider;
    caller = controller.capacity.caller;
    host = controller.capacity.host;
  };
}
  where
    open input use {profile, controller}

unfoldable pub effective : PolicyEvaluation → Sha256Digest → Isolation → EffectivePolicy
unfolding claim maximum_ttl maximum_session
effective input source_request_digest (isolation, shared_state) = record {
  source_request_digest = source_request_digest;
  client_request_id = request.client_request_id;
  tenant_id = request.tenant_id;
  work_order_id = request.work_order_id;
  work_order_digest = request.work_order_digest;
  run_id = request.run_id;
  attempt_id = request.attempt_id;
  role = request.role;
  provider = request.provider;
  profile_uid = request.profile_uid;
  profile_ref = request.profile_ref;
  repository = request.repository;
  workspace_id = request.workspace_id;
  environment = request.environment;
  caller_subject = input.caller_subject;
  host_identity = input.host_identity;
  auth_mode = profile.auth_mode;
  isolation = isolation;
  shared_state_isolation = shared_state;
  requested_ttl_seconds = request.requested_ttl_seconds;
  maximum_ttl_seconds = maximum_ttl input;
  maximum_session_seconds = maximum_session input;
  signed_expires_at = request.work_order_authorization.expires_at;
  concurrency_mode = profile.concurrency_mode;
  requirements = profile.requirements;
  capacity_claim = claim input;
}
  where
    open input use {request, profile}

-- `policy_digest.is_some_and(|expected| expected != digest)`.
abbrev pub digest_differs : Option Sha256Digest → Sha256Digest → Bool
digest_differs none actual = false
digest_differs (some expected) actual = not (expected == actual)

-- The last two checks, on the policy that has been computed.
unfoldable pub issue : Crates → PolicyEvaluation → EffectivePolicy → PolicyDecision
issue crates input policy = do
  refuse_if (digest_differs input.request.policy_digest (digest crates policy))
      RefusalCode.policy_digest_mismatch
  refuse_if (not (claim_permits policy.capacity_claim input.capacity_usage))
      RefusalCode.capacity_exceeded
  ok policy

unfoldable pub evaluate_policy : Crates → PolicyEvaluation → PolicyDecision
unfolding signed_request scopes authentication readiness lifetime effective issue
evaluate_policy crates input = do
  source_request_digest ← signed_request crates input
  scopes input
  authentication input
  isolation ← readiness input
  lifetime input
  issue crates input (effective input source_request_digest isolation)

-- `EffectivePolicy::for_renewal_ttl`.
unfoldable pub for_renewal_ttl : EffectivePolicy → ℕ → PolicyDecision
for_renewal_ttl p requested_ttl = do
  refuse_if (ltb p.maximum_ttl_seconds requested_ttl || ltb p.maximum_session_seconds requested_ttl)
      RefusalCode.requested_ttl_not_allowed
  ok (record p { requested_ttl_seconds = requested_ttl })
