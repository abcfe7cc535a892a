-- ===== src/Policy/Decision.antt =====
-- The whole decision of `evaluate_policy` in src/automation/policy.rs, and what it narrows.
use aictx.Base.{
  ◌≤◌, ◌≡◌, refl, sym, ◌↔◌, true, false, Option, none, some, ◌⊎◌, inl, inr, arith, ok, >>=-eq-ok,
  text_eq,
}
use aictx.Contracts.Types.{Sha256Digest, IsolationClassification}
use aictx.Contracts.Request.{Crates, authority_digest}
use aictx.Contracts.Admission.{Covered}
use aictx.Policy.Types.{
  SharedStateIsolationRequirement, claim_permits, verified, PolicyEvaluation, EffectivePolicy,
}
use aictx.Policy.Digest.{digest}
use aictx.Policy.Evaluate.{
  signed_request, scopes, authentication, readiness, maximum_ttl, maximum_session, lifetime,
  effective, digest_differs, issue, evaluate_policy,
}
use aictx.Policy.Admission.{
  InScope, scopes_iff, Authenticated, authentication_iff, signed_request_iff, Isolated,
  readiness_iff, lifetime_iff,
}

-- The digest that a request demands, if it demands one.
abbrev pub Demands : Option Sha256Digest → Sha256Digest → Type 0
Demands expected actual = (expected ≡ none) ⊎ (expected ≡ some actual)

-- What a permitted evaluation requires and the policy that it yields.
pub record Permitted (crates : Crates) (input : PolicyEvaluation) (policy : EffectivePolicy)
    (d : Sha256Digest) (isolation : IsolationClassification)
    (shared_state : Option SharedStateIsolationRequirement) : Type 0 where
  pub proof : input.authorization_proof ≡ verified
  pub covered : Covered input.request input.now
  pub digested : authority_digest crates input.request ≡ ok d
  pub scope : InScope input
  pub authenticated : Authenticated input
  pub isolated : Isolated input isolation shared_state
  pub ttl : input.request.requested_ttl_seconds ≤ maximum_ttl input
  pub session : input.request.requested_ttl_seconds ≤ maximum_session input
  pub computed : policy ≡ effective input d (isolation, shared_state)
  pub demanded : Demands input.request.policy_digest (digest crates policy)
  pub capacity : claim_permits policy.capacity_claim input.capacity_usage ≡ true

digest_differs_iff :
    (expected : Option Sha256Digest) (actual : Sha256Digest)
    → (digest_differs expected actual ≡ false) ↔ Demands expected actual
digest_differs_iff none actual = ((λ h. inl refl), (λ h. refl))
digest_differs_iff (some e) actual = ((λ h. inr (ground arith)), (λ h. ground arith))

issue_iff :
    (crates : Crates) (input : PolicyEvaluation) (p policy : EffectivePolicy)
    → (issue crates input p ≡ ok policy) ↔ (
        (policy ≡ p)
        × Demands input.request.policy_digest (digest crates policy)
        × (claim_permits policy.capacity_claim input.capacity_usage ≡ true))
unfolding issue
issue_iff crates input p policy = (
  (λ h.
      let e : p ≡ policy = ground arith in
      (
        sym e,
        (digest_differs_iff input.request.policy_digest (digest crates policy)).0 (ground arith),
        ground arith,
      )),
  (λ (e, g, c).
      let k = (digest_differs_iff input.request.policy_digest (digest crates policy)).1 g in
      ground arith),
)

-- A lease is permitted exactly when the proof is verified, the signed authorization covers the
-- request now, every scope of profile and controller admits it, it is authenticated, the attested
-- isolation is accepted, its time is within the lowest limits, the digest it demands is that of the
-- policy, and every ceiling of its capacity claim has room; the policy is then the one computed.
pub evaluate_policy_iff :
    (crates : Crates) (input : PolicyEvaluation) (policy : EffectivePolicy)
    → (evaluate_policy crates input ≡ ok policy) ↔ (
        (d : Sha256Digest) × (isolation : IsolationClassification) × (shared_state : Option
          SharedStateIsolationRequirement)
        × Permitted crates input policy d isolation shared_state)
unfolding evaluate_policy
evaluate_policy_iff crates input policy = (there, back)
  where
    there :
        evaluate_policy crates input ≡ ok policy
        → (d : Sha256Digest) × (isolation : IsolationClassification) × (shared_state : Option
            SharedStateIsolationRequirement)
          × Permitted crates input policy d isolation shared_state
    there h =
        let (d, s, h1) = >>=-eq-ok (signed_request crates input) _ h in
        let (x, c, h2) = >>=-eq-ok (scopes input) _ h1 in
        let (y, a, h3) = >>=-eq-ok (authentication input) _ h2 in
        let (i, r, h4) = >>=-eq-ok (readiness input) _ h3 in
        let (z, l, h5) = >>=-eq-ok (lifetime input) _ h4 in
        let (p, v, k) = (signed_request_iff crates input d).0 s in
        let (t, u) = (lifetime_iff input).0 l in
        let (e, g, w) = (issue_iff crates input (effective input d i) policy).0 h5 in
        (
          d,
          i.0,
          i.1,
          record {
            proof = p;
            covered = v;
            digested = k;
            scope = (scopes_iff input).0 c;
            authenticated = (authentication_iff input).0 a;
            isolated = (readiness_iff input i.0 i.1).0 r;
            ttl = t;
            session = u;
            computed = e;
            demanded = g;
            capacity = w;
          },
        )

    back :
        (d : Sha256Digest) × (isolation : IsolationClassification) × (shared_state : Option
            SharedStateIsolationRequirement)
          × Permitted crates input policy d isolation shared_state
        → evaluate_policy crates input ≡ ok policy
    back (d, i, sh, v) =
        let s = (signed_request_iff crates input d).1 (v.proof, v.covered, v.digested) in
        let c = (scopes_iff input).1 v.scope in
        let a = (authentication_iff input).1 v.authenticated in
        let r = (readiness_iff input i sh).1 v.isolated in
        let l = (lifetime_iff input).1 (v.ttl, v.session) in
        let g =
          (issue_iff crates input (effective input d (i, sh)) policy).1
            (v.computed, v.demanded, v.capacity) in
        ground arith
