-- ===== src/Policy/Preimage.antt =====
-- What the preimage of a policy digest determines: `EffectivePolicy::digest` of
-- src/automation/policy.rs.

use aictx.Base.{
  ℕ, ◌≤◌, ◌≡◌, refl, sym, ap, Bool, Option, none, some, List, [], Text, get_elem?, arith,
}
use aictx.Contracts.Types.{
  Provider, AgentRole, AutomationAuthMode, IsolationClassification, Sha256Digest,
}
use aictx.Contracts.Temporal.{u64_max}
use aictx.Contracts.Sha256.{encoded}
use aictx.Contracts.Sha256Laws.{IsDigest, from_str_iff}
use aictx.Policy.Types.{SharedStateIsolationRequirement, AutomationConcurrencyMode, EffectivePolicy}
use aictx.Policy.Digest.{
  role_label, auth_label, isolation_label, shared_isolation_label, concurrency_label,
  provider_label, bool_label, fields, encode, effective_policy_domain,
}
use aictx.Policy.Encoding.{
  AllShort, texts, encode_fields_injective, append_injective, to_be_bytes_injective,
}

role_label_injective : (a b : AgentRole) → role_label a ≡ role_label b → a ≡ b
unfolding role_label
role_label_injective a b h = ground arith

auth_label_injective : (a b : AutomationAuthMode) → auth_label a ≡ auth_label b → a ≡ b
unfolding auth_label
auth_label_injective a b h = ground arith

isolation_label_injective :
    (a b : IsolationClassification) → isolation_label a ≡ isolation_label b → a ≡ b
unfolding isolation_label
isolation_label_injective a b h = ground arith

shared_isolation_label_injective :
    (a b : Option SharedStateIsolationRequirement)
    → shared_isolation_label a ≡ shared_isolation_label b
    → a ≡ b
unfolding shared_isolation_label
shared_isolation_label_injective a b h = ground arith

concurrency_label_injective :
    (a b : AutomationConcurrencyMode) → concurrency_label a ≡ concurrency_label b → a ≡ b
unfolding concurrency_label
concurrency_label_injective a b h = ground arith

provider_label_injective : (a b : Provider) → provider_label a ≡ provider_label b → a ≡ b
unfolding provider_label
provider_label_injective a b h = ground arith

bool_label_injective : (a b : Bool) → bool_label a ≡ bool_label b → a ≡ b
unfolding bool_label
bool_label_injective a b h = ground arith

encoded_injective : (a b : Sha256Digest) → IsDigest a → IsDigest b → encoded a ≡ encoded b → a ≡ b
encoded_injective a b h k e =
    let x = (from_str_iff (encoded a) a).1 (refl, h) in
    let y = (from_str_iff (encoded a) b).1 (sym e, k) in cc

-- The sizes of the Rust types: 32 bytes, 64-bit numbers, and texts whose lengths fit 64 bits.
pub record Sized (p : EffectivePolicy) : Type 0 where
  pub texts : AllShort (fields p)
  pub digest : IsDigest p.work_order_digest
  pub requested : p.requested_ttl_seconds ≤ u64_max
  pub ttl : p.maximum_ttl_seconds ≤ u64_max
  pub session : p.maximum_session_seconds ≤ u64_max
  pub profile : p.capacity_claim.limits.profile ≤ u64_max
  pub provider : p.capacity_claim.limits.provider ≤ u64_max
  pub caller : p.capacity_claim.limits.caller ≤ u64_max
  pub host : p.capacity_claim.limits.host ≤ u64_max

-- Two policies that agree in what the digest covers: all but the digest of the source request, and
-- of a profile reference and a timestamp the text.
pub record SamePolicy (p q : EffectivePolicy) : Type 0 where
  pub client_request_id : p.client_request_id ≡ q.client_request_id
  pub tenant_id : p.tenant_id ≡ q.tenant_id
  pub work_order_id : p.work_order_id ≡ q.work_order_id
  pub work_order_digest : p.work_order_digest ≡ q.work_order_digest
  pub run_id : p.run_id ≡ q.run_id
  pub attempt_id : p.attempt_id ≡ q.attempt_id
  pub role : p.role ≡ q.role
  pub provider : p.provider ≡ q.provider
  pub profile_uid : p.profile_uid ≡ q.profile_uid
  pub profile_ref : p.profile_ref.value ≡ q.profile_ref.value
  pub repository : p.repository ≡ q.repository
  pub workspace_id : p.workspace_id ≡ q.workspace_id
  pub environment : p.environment ≡ q.environment
  pub caller_subject : p.caller_subject ≡ q.caller_subject
  pub host_identity : p.host_identity ≡ q.host_identity
  pub auth_mode : p.auth_mode ≡ q.auth_mode
  pub isolation : p.isolation ≡ q.isolation
  pub shared_state_isolation : p.shared_state_isolation ≡ q.shared_state_isolation
  pub requested_ttl_seconds : p.requested_ttl_seconds ≡ q.requested_ttl_seconds
  pub maximum_ttl_seconds : p.maximum_ttl_seconds ≡ q.maximum_ttl_seconds
  pub maximum_session_seconds : p.maximum_session_seconds ≡ q.maximum_session_seconds
  pub signed_expires_at : p.signed_expires_at.wire ≡ q.signed_expires_at.wire
  pub concurrency_mode : p.concurrency_mode ≡ q.concurrency_mode
  pub workload_identity : p.requirements.workload_identity ≡ q.requirements.workload_identity
  pub authentication_exception :
      p.requirements.authentication_exception ≡ q.requirements.authentication_exception
  pub isolation_exception : p.requirements.isolation_exception ≡ q.requirements.isolation_exception
  pub claim_profile : p.capacity_claim.profile_uid ≡ q.capacity_claim.profile_uid
  pub claim_provider : p.capacity_claim.provider ≡ q.capacity_claim.provider
  pub claim_caller : p.capacity_claim.caller_subject ≡ q.capacity_claim.caller_subject
  pub claim_host : p.capacity_claim.host_identity ≡ q.capacity_claim.host_identity
  pub profile_limit : p.capacity_claim.limits.profile ≡ q.capacity_claim.limits.profile
  pub provider_limit : p.capacity_claim.limits.provider ≡ q.capacity_claim.limits.provider
  pub caller_limit : p.capacity_claim.limits.caller ≡ q.capacity_claim.limits.caller
  pub host_limit : p.capacity_claim.limits.host ≡ q.capacity_claim.limits.host

-- The value of the field at an index.
abbrev value_at : ℕ → List (Text × Text) → Text
value_at i l = elim (get_elem? l i) [ none ↦ [] | some v ↦ v.1 ]

fields-SamePolicy :
    (p q : EffectivePolicy)
    → Sized p
    → Sized q
    → texts (fields p) ≡ texts (fields q)
    → SamePolicy p q
unfolding fields
fields-SamePolicy p q u v e = record {
  client_request_id = ap (value_at 0) e;
  tenant_id = ap (value_at 1) e;
  work_order_id = ap (value_at 2) e;
  work_order_digest = encoded_injective _ _ u.digest v.digest (ap (value_at 3) e);
  run_id = ap (value_at 4) e;
  attempt_id = ap (value_at 5) e;
  role = role_label_injective _ _ (ap (value_at 6) e);
  provider = provider_label_injective _ _ (ap (value_at 7) e);
  profile_uid = ap (value_at 8) e;
  profile_ref = ap (value_at 9) e;
  repository = ap (value_at 10) e;
  workspace_id = ap (value_at 11) e;
  environment = ap (value_at 12) e;
  caller_subject = ap (value_at 13) e;
  host_identity = ap (value_at 14) e;
  auth_mode = auth_label_injective _ _ (ap (value_at 15) e);
  isolation = isolation_label_injective _ _ (ap (value_at 16) e);
  shared_state_isolation = shared_isolation_label_injective _ _ (ap (value_at 17) e);
  requested_ttl_seconds = to_be_bytes_injective _ _ u.requested v.requested (ap (value_at 18) e);
  maximum_ttl_seconds = to_be_bytes_injective _ _ u.ttl v.ttl (ap (value_at 19) e);
  maximum_session_seconds = to_be_bytes_injective _ _ u.session v.session (ap (value_at 20) e);
  signed_expires_at = ap (value_at 21) e;
  concurrency_mode = concurrency_label_injective _ _ (ap (value_at 22) e);
  workload_identity = bool_label_injective _ _ (ap (value_at 23) e);
  authentication_exception = bool_label_injective _ _ (ap (value_at 24) e);
  isolation_exception = bool_label_injective _ _ (ap (value_at 25) e);
  claim_profile = ap (value_at 26) e;
  claim_provider = provider_label_injective _ _ (ap (value_at 27) e);
  claim_caller = ap (value_at 28) e;
  claim_host = ap (value_at 29) e;
  profile_limit = to_be_bytes_injective _ _ u.profile v.profile (ap (value_at 30) e);
  provider_limit = to_be_bytes_injective _ _ u.provider v.provider (ap (value_at 31) e);
  caller_limit = to_be_bytes_injective _ _ u.caller v.caller (ap (value_at 32) e);
  host_limit = to_be_bytes_injective _ _ u.host v.host (ap (value_at 33) e);
}

-- Two policies of the sizes of their Rust types that are hashed from the same bytes are the same
-- policy, but for the digest of the source request: every limit, identity, requirement and
-- capacity ceiling agrees, and of the profile reference and the expiry the text.
pub encode-SamePolicy :
    (p q : EffectivePolicy) → Sized p → Sized q → encode p ≡ encode q → SamePolicy p q
unfolding encode
encode-SamePolicy p q u v e =
    let (d, f) = append_injective effective_policy_domain effective_policy_domain refl e in
    fields-SamePolicy p q u v (encode_fields_injective (fields p) (fields q) u.texts v.texts f)
