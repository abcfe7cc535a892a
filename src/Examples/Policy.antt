-- ===== src/Examples/Policy.antt =====
-- The policy theorems at concrete inputs: src/automation/policy.rs.

use aictx.Base.{◌≡◌, refl, ok, Option, Text, Text-discrete, ℕ_discrete, arith}
use aictx.Contracts.Types.{
  Provider-discrete, AgentRole-discrete, ProfileRef-discrete, AutomationAuthMode-discrete,
  IsolationClassification-discrete, IsolationClassification,
}
use aictx.Contracts.Temporal.{seconds_until}
use aictx.Contracts.Authorization
use aictx.Contracts.Request.{
  validate_authorization, validate_authorization_binding, validate_structure, require_signed_fields,
  authority_digest, canonical_authority_json,
}
use aictx.Policy.Types.{SharedStateIsolationRequirement, claim_permits}
use aictx.Policy.Digest.{
  fields, role_label, auth_label, isolation_label, shared_isolation_label, concurrency_label,
  provider_label, bool_label,
}
use aictx.Policy.Preimage.{Sized, SamePolicy, encode-SamePolicy}
use aictx.Policy.Evaluate.{
  evaluate_policy, signed_request, scopes, non_local, authentication, resources, copied_credentials,
  readiness, maximum_ttl, maximum_session, lifetime, claim, effective, issue,
}
use aictx.Policy.Decision.{Permitted, evaluate_policy_iff}
use aictx.Policy.Narrowing.{Narrowed, evaluate_policy-Narrowed}
use aictx.Contracts.Sha256.{encoded, encoded_bytes, hex_digit}
use aictx.Examples.Crates.{crates}
use aictx.Examples.Data.{input, policy}

pub permitted : evaluate_policy crates input ≡ ok policy
unfolding evaluate_policy signed_request scopes authentication non_local resources
    copied_credentials readiness lifetime maximum_ttl maximum_session issue effective claim
    claim_permits validate_authorization validate_authorization_binding validate_structure
    require_signed_fields Authorization.validate Authorization.validate_structure seconds_until
    authority_digest canonical_authority_json Text-discrete Provider-discrete AgentRole-discrete
    ProfileRef-discrete AutomationAuthMode-discrete IsolationClassification-discrete ℕ_discrete
permitted = refl

evaluate_policy_iff_example :
    (d : Text) × (isolation : IsolationClassification) × (shared_state : Option
      SharedStateIsolationRequirement)
    × Permitted crates input policy d isolation shared_state
evaluate_policy_iff_example = (evaluate_policy_iff crates input policy).0 permitted

evaluate_policy-Narrowed_example : Narrowed input policy
evaluate_policy-Narrowed_example = evaluate_policy-Narrowed crates input policy permitted

sized : Sized policy
unfolding fields effective maximum_ttl maximum_session claim role_label auth_label isolation_label
    shared_isolation_label concurrency_label provider_label bool_label encoded encoded_bytes
    hex_digit ℕ_discrete
sized = record {
  texts = ground arith;
  digest = (refl, refl);
  requested = omega arith;
  ttl = omega arith;
  session = omega arith;
  profile = omega arith;
  provider = omega arith;
  caller = omega arith;
  host = omega arith;
}

encode-SamePolicy_example : SamePolicy policy policy
encode-SamePolicy_example = encode-SamePolicy policy policy sized sized refl
