-- ===== src/Examples/Data.antt =====
-- One request, its authorization, a profile and a controller that admit it.
use aictx.Base.{true, false, none, [], ◌∷◌, codes}
use aictx.Contracts.Types.{
  Provider, AgentRole, ProfileRef, Sha256Digest, AutomationAuthMode, IsolationClassification,
}
use aictx.Contracts.Authorization.{WorkOrderAuthorization}
use aictx.Contracts.Request.{IdentityLeaseRequest}
use aictx.Policy.Types.{
  any, only, exclusive, verified, ready, ProfilePolicy, ControllerPolicy, PolicyEvaluation,
  EffectivePolicy,
}
use aictx.Policy.Evaluate.{effective}
use aictx.Lease.Clock.{ClockSample}
use aictx.Lease.Replay.{LeaseBinding}
use aictx.Lease.State.{LeaseResolution, LeaseControl, Lease, new_requested}
use aictx.Examples.Crates.{ten_o_clock, ten_past, noon}

abbrev pub reference : ProfileRef
reference = record { provider = Provider.claude; value = codes "claude/build" }

abbrev pub order_digest : Sha256Digest
order_digest = codes "0123456789abcdef0123456789abcdef"

-- Signed from ten o'clock to noon.
abbrev pub authorization : WorkOrderAuthorization
authorization = record {
  key_id = codes "key";
  client_request_id = codes "request";
  tenant_id = codes "tenant";
  work_order_id = codes "order";
  work_order_digest = order_digest;
  run_id = codes "run";
  attempt_id = codes "attempt";
  role = AgentRole.implementer;
  provider = Provider.claude;
  profile_ref = reference;
  profile_uid = codes "profile";
  repository = codes "acme/app";
  workspace_id = codes "workspace";
  environment = codes "production";
  not_before = ten_o_clock;
  expires_at = noon;
  maximum_ttl_seconds = 1800;
  maximum_session_seconds = 3600;
  signature = codes "signature";
}

abbrev pub request : IdentityLeaseRequest
request = record {
  client_request_id = codes "request";
  tenant_id = codes "tenant";
  work_order_id = codes "order";
  work_order_digest = order_digest;
  work_order_authorization = authorization;
  run_id = codes "run";
  attempt_id = codes "attempt";
  role = AgentRole.implementer;
  provider = Provider.claude;
  profile_ref = reference;
  profile_uid = codes "profile";
  repository = codes "acme/app";
  workspace_id = codes "workspace";
  environment = codes "production";
  requested_ttl_seconds = 900;
  policy_digest = none;
}

abbrev pub profile : ProfilePolicy
profile = record {
  profile_uid = codes "profile";
  profile_ref = reference;
  provider = Provider.claude;
  auth_mode = AutomationAuthMode.wif;
  eligible = true;
  environments = codes "production" ∷ [];
  roles = AgentRole.implementer ∷ [];
  caller_subjects = codes "caller" ∷ [];
  maximum_ttl_seconds = 1200;
  maximum_session_seconds = 7200;
  maximum_concurrent_leases = 2;
  concurrency_mode = exclusive;
  shared_state_isolation_requirement = none;
  requirements = record {
    workload_identity = true;
    authentication_exception = false;
    isolation_exception = false;
  };
}

abbrev pub controller : ControllerPolicy
controller = record {
  profile_uids = any;
  providers = only (Provider.claude ∷ []);
  environments = any;
  roles = any;
  caller_subjects = any;
  repositories = only (codes "acme/app" ∷ []);
  maximum_ttl_seconds = 3600;
  maximum_session_seconds = 3600;
  capacity = record { profile = 1; provider = 4; caller = 4; host = 4 };
  allow_authentication_exception = false;
  allow_isolation_exception = false;
}

abbrev pub input : PolicyEvaluation
input = record {
  request = request;
  profile = profile;
  controller = controller;
  caller_subject = codes "caller";
  host_identity = codes "host";
  authorization_proof = verified;
  readiness = ready IsolationClassification.credential_isolated none;
  capacity_usage = record { profile = 0; provider = 1; caller = 1; host = 3 };
  now = ten_o_clock;
}

abbrev pub policy : EffectivePolicy
policy = effective input (codes "request") (IsolationClassification.credential_isolated, none)

abbrev pub binding : LeaseBinding
binding = record {
  lease_id = codes "lease";
  client_request_id = codes "request";
  authority_digest = codes "request";
  tenant_id = codes "tenant";
  work_order_id = codes "order";
  work_order_digest = order_digest;
  run_id = codes "run";
  attempt_id = codes "attempt";
  role = AgentRole.implementer;
  provider = Provider.claude;
  profile_uid = codes "profile";
  profile_ref = reference;
  repository = codes "acme/app";
  workspace_id = codes "workspace";
  environment = codes "production";
  requested_policy_digest = none;
  initial_requested_ttl_seconds = 900;
  signed_maximum_ttl_seconds = 1800;
  signed_maximum_session_seconds = 3600;
  caller_subject = codes "caller";
  host_identity = codes "host";
  signed_authorization_expires_at = noon;
}

abbrev pub resolution : LeaseResolution
resolution = record {
  execution_handle = codes "handle";
  worker_identity = none;
  principal_ref = codes "principal";
  workspace_ref = codes "claude-organization:acme";
  auth_mode = AutomationAuthMode.wif;
  isolation = IsolationClassification.credential_isolated;
}

-- The service starts its monotonic clock at five seconds.
abbrev pub issued : ClockSample
issued = record { wall = ten_o_clock; monotonic = 5000000000; service_generation = 1 }

-- Ten minutes later.
abbrev pub ten_minutes_later : ClockSample
ten_minutes_later = record { wall = ten_past; monotonic = 605000000000; service_generation = 1 }

abbrev pub first_control : LeaseControl
first_control = record {
  caller_subject = codes "caller";
  tenant_id = codes "tenant";
  run_id = codes "run";
  role = AgentRole.implementer;
  host_identity = codes "host";
  fencing_generation = 1;
}

abbrev pub fresh : Lease
fresh = new_requested binding issued
