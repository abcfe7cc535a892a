-- ===== src/Policy/Narrowing.antt =====
-- What a permitted policy narrows: the limits of `evaluate_policy` and of
-- `EffectivePolicy::for_renewal_ttl` in src/automation/policy.rs.
use aictx.Base.{
  ◌≤◌, ◌<◌, ◌≡◌, refl, sym, subst, true, Option, none, ◌⊎◌, inl, inr, arith, ok, text_eq,
}
use aictx.Contracts.Types.{Sha256Digest, IsolationClassification}
use aictx.Contracts.Request.{Crates}
use aictx.Policy.Types.{
  SharedStateIsolationRequirement, AutomationConcurrencyMode, claim_permits, PolicyEvaluation,
  EffectivePolicy, resource_isolation_is_consistent, exclusive, shared,
  valid_shared_resource_isolation, consistent_in,
}
use aictx.Policy.Evaluate.{maximum_ttl, maximum_session, claim, effective, evaluate_policy}
use aictx.Policy.Decision.{Permitted, evaluate_policy_iff}

-- No limit of the policy exceeds that of the signed authorization, of the profile or of the
-- controller, the time it grants is within them, and its claim leaves room under every ceiling.
pub record Narrowed (input : PolicyEvaluation) (policy : EffectivePolicy) : Type 0 where
  pub ttl_signed :
      policy.maximum_ttl_seconds ≤ input.request.work_order_authorization.maximum_ttl_seconds
  pub ttl_profile : policy.maximum_ttl_seconds ≤ input.profile.maximum_ttl_seconds
  pub ttl_controller : policy.maximum_ttl_seconds ≤ input.controller.maximum_ttl_seconds
  pub session_signed :
      policy.maximum_session_seconds
      ≤ input.request.work_order_authorization.maximum_session_seconds
  pub session_profile : policy.maximum_session_seconds ≤ input.profile.maximum_session_seconds
  pub session_controller : policy.maximum_session_seconds ≤ input.controller.maximum_session_seconds
  pub granted_ttl : policy.requested_ttl_seconds ≤ policy.maximum_ttl_seconds
  pub granted_session : policy.requested_ttl_seconds ≤ policy.maximum_session_seconds
  pub profile_room : input.capacity_usage.profile < policy.capacity_claim.limits.profile
  pub provider_room : input.capacity_usage.provider < input.controller.capacity.provider
  pub caller_room : input.capacity_usage.caller < input.controller.capacity.caller
  pub host_room : input.capacity_usage.host < input.controller.capacity.host
  pub profile_limit :
      1 ≤ input.profile.maximum_concurrent_leases
      → 1 ≤ input.controller.capacity.profile
      → (policy.capacity_claim.limits.profile ≤ input.profile.maximum_concurrent_leases)
        × (policy.capacity_claim.limits.profile ≤ input.controller.capacity.profile)
  pub isolated : resource_isolation_is_consistent policy ≡ true

isolation_consistent :
    (mode : AutomationConcurrencyMode) (isolation : IsolationClassification)
    (shared_state requirement : Option SharedStateIsolationRequirement)
    → ((mode ≡ exclusive) × (shared_state ≡ none))
      ⊎ ((mode ≡ shared)
          × (shared_state ≡ requirement)
          × (valid_shared_resource_isolation isolation shared_state ≡ true))
    → consistent_in mode isolation shared_state ≡ true
unfolding consistent_in
isolation_consistent mode isolation shared_state requirement (inl (e, n)) = rw (e, n) refl
isolation_consistent mode isolation shared_state requirement (inr (e, r, v)) = rw e v

effective-Narrowed :
    (crates : Crates) (input : PolicyEvaluation) (policy : EffectivePolicy) (d : Sha256Digest)
    (isolation : IsolationClassification) (shared_state : Option SharedStateIsolationRequirement)
    → Permitted crates input policy d isolation shared_state
    → Narrowed input (effective input d (isolation, shared_state))
unfolding effective maximum_ttl maximum_session claim claim_permits resource_isolation_is_consistent
effective-Narrowed crates input policy d isolation shared_state v =
    let room =
      subst (λ p. claim_permits p.capacity_claim input.capacity_usage ≡ true) v.computed
        v.capacity in
    record {
      ttl_signed = ground arith;
      ttl_profile = ground arith;
      ttl_controller = ground arith;
      session_signed = ground arith;
      session_profile = ground arith;
      session_controller = ground arith;
      granted_ttl = v.ttl;
      granted_session = v.session;
      profile_room = ground (arith, room);
      provider_room = ground (arith, room);
      caller_room = ground (arith, room);
      host_room = ground (arith, room);
      profile_limit = λ a b. (ground arith, ground arith);
      isolated = isolation_consistent _ _ _ _ v.isolated.resources;
    }

-- A permitted policy narrows: its time limits are within those of the signed authorization, the
-- profile and the controller and grant the requested time, its claim leaves room under the four
-- ceilings, its profile ceiling is within both configured ones where these are at least one, and
-- its isolation fits its concurrency mode.
pub evaluate_policy-Narrowed :
    (crates : Crates) (input : PolicyEvaluation) (policy : EffectivePolicy)
    → evaluate_policy crates input ≡ ok policy
    → Narrowed input policy
evaluate_policy-Narrowed crates input policy h =
    let (d, i, sh, v) = (evaluate_policy_iff crates input policy).0 h in
    subst (Narrowed input) (sym v.computed) (effective-Narrowed crates input policy d i sh v)
