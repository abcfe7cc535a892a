-- ===== src/Lease/Issue.antt =====
-- From a permitted policy to a lease: `LeaseBinding::from_request` in src/automation/lease/replay.rs,
-- `evaluate_policy` in src/automation/policy.rs, and `validate_policy_binding` in
-- src/automation/lease.rs.
use aictx.Base.{◌≡◌, refl, subst, true, Option, Text, inl, inr, arith, ok, text_eq}
use aictx.Contracts.Types.{Sha256Digest}
use aictx.Contracts.Request.{Crates}
use aictx.Policy.Types.{PolicyEvaluation, EffectivePolicy}
use aictx.Policy.Digest.{digest}
use aictx.Policy.Evaluate.{evaluate_policy, effective, claim}
use aictx.Policy.Decision.{evaluate_policy_iff, Demands}
use aictx.Policy.Narrowing.{evaluate_policy-Narrowed}
use aictx.Lease.Clock.{ClockSample}
use aictx.Lease.Replay.{LeaseBinding, from_request}
use aictx.Lease.State.{new_requested}
use aictx.Lease.Checks.{
  validate_policy_binding, identities_match, limits_match, capacity_matches, expects,
}

expects-true :
    (expected : Option Sha256Digest) (actual : Sha256Digest)
    → Demands expected actual
    → expects expected actual ≡ true
expects-true expected actual (inl e) = rw e refl
expects-true expected actual (inr e) = ground arith

module _ (crates : Crates) (input : PolicyEvaluation) (policy : EffectivePolicy) (lease_id : Text)
    (b : LeaseBinding) (clock : ClockSample) (permitted : evaluate_policy crates input ≡ ok policy)
    (bound : from_request crates lease_id input.request input.caller_subject input.host_identity
      ≡ ok b) where
  issued-identities : identities_match (new_requested b clock) policy ≡ true
  unfolding identities_match new_requested from_request effective
  issued-identities =
      let (d, i, sh, v) = (evaluate_policy_iff crates input policy).0 permitted in
      let k = v.digested in let e = v.computed in ground arith

  issued-digest : expects b.requested_policy_digest (digest crates policy) ≡ true
  unfolding from_request
  issued-digest =
      let (d, i, sh, v) = (evaluate_policy_iff crates input policy).0 permitted in
      let k = v.digested in
      let e : input.request.policy_digest ≡ b.requested_policy_digest = ground arith in
      expects-true b.requested_policy_digest (digest crates policy)
        (subst (λ x. Demands x (digest crates policy)) e v.demanded)

  issued-limits : limits_match (new_requested b clock) policy ≡ true
  unfolding limits_match new_requested from_request effective
  issued-limits =
      let (d, i, sh, v) = (evaluate_policy_iff crates input policy).0 permitted in
      let n = evaluate_policy-Narrowed crates input policy permitted in
      let k = v.digested in
      let e = v.computed in
      ground (arith, n.ttl_signed, n.session_signed, n.granted_ttl, n.granted_session)

  issued-capacity : capacity_matches (new_requested b clock) policy ≡ true
  unfolding capacity_matches new_requested from_request effective claim
  issued-capacity =
      let (d, i, sh, v) = (evaluate_policy_iff crates input policy).0 permitted in
      let k = v.digested in
      let e = v.computed in ground (arith, v.scope.provider, v.scope.profile_uid)

  -- A policy that was permitted for a request is one that a lease bound to the same request, caller
  -- and host accepts: what the evaluation allows, an activation does not refuse for its binding.
  pub issued-accepts : validate_policy_binding crates (new_requested b clock) policy ≡ ok tt
  unfolding validate_policy_binding new_requested
  issued-accepts =
      let n = evaluate_policy-Narrowed crates input policy permitted in
      let i = issued-identities in
      let d = issued-digest in
      let l = issued-limits in let c = issued-capacity in ground (arith, n.isolated)
