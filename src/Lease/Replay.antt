-- ===== src/Lease/Replay.antt =====
-- The immutable binding of a lease and its idempotency key: src/automation/lease/replay.rs.

use aictx.Base.{ℕ, ◌&&◌, not, Option, Text, ◌==◌, if◌then◌else◌, Result, ok, ◌>>=◌, text_eq}
use aictx.Contracts.Types.{Provider, AgentRole, ProfileRef, Sha256Digest}
use aictx.Contracts.Temporal.{UtcTimestamp}
use aictx.Contracts.Request.{IdentityLeaseRequest, Crates, ContractEncodingError, authority_digest}
use aictx.Contracts.ErrorContract.{AutomationErrorCode}
use aictx.Lease.Clock.{later}

pub record LeaseBinding : Type 0 where
  pub lease_id : Text
  pub client_request_id : Text
  pub authority_digest : Sha256Digest
  pub tenant_id : Text
  pub work_order_id : Text
  pub work_order_digest : Sha256Digest
  pub run_id : Text
  pub attempt_id : Text
  pub role : AgentRole
  pub provider : Provider
  pub profile_uid : Text
  pub profile_ref : ProfileRef
  pub repository : Text
  pub workspace_id : Text
  pub environment : Text
  pub requested_policy_digest : Option Sha256Digest
  pub initial_requested_ttl_seconds : ℕ
  pub signed_maximum_ttl_seconds : ℕ
  pub signed_maximum_session_seconds : ℕ
  pub caller_subject : Text
  pub host_identity : Text
  pub signed_authorization_expires_at : UtcTimestamp

-- `LeaseBinding::from_request`.
unfoldable pub from_request :
    Crates → Text → IdentityLeaseRequest → Text → Text → Result ContractEncodingError LeaseBinding
from_request crates lease_id r caller_subject host_identity = do
  digest ← authority_digest crates r
  ok (record {
    lease_id = lease_id;
    client_request_id = r.client_request_id;
    authority_digest = digest;
    tenant_id = r.tenant_id;
    work_order_id = r.work_order_id;
    work_order_digest = r.work_order_digest;
    run_id = r.run_id;
    attempt_id = r.attempt_id;
    role = r.role;
    provider = r.provider;
    profile_uid = r.profile_uid;
    profile_ref = r.profile_ref;
    repository = r.repository;
    workspace_id = r.workspace_id;
    environment = r.environment;
    requested_policy_digest = r.policy_digest;
    initial_requested_ttl_seconds = r.requested_ttl_seconds;
    signed_maximum_ttl_seconds = r.work_order_authorization.maximum_ttl_seconds;
    signed_maximum_session_seconds = r.work_order_authorization.maximum_session_seconds;
    caller_subject = caller_subject;
    host_identity = host_identity;
    signed_authorization_expires_at = r.work_order_authorization.expires_at;
  })

pub record ReplayBinding : Type 0 where
  pub lease_id : Text
  pub client_request_id : Text
  pub authority_digest : Sha256Digest
  pub caller_subject : Text
  pub host_identity : Text
  pub signed_authorization_expires_at : UtcTimestamp

pub data ReplayDisposition : Type 0 where
  unrelated_key : ReplayDisposition
  exact_retry : Text → ReplayDisposition
  conflict : AutomationErrorCode → ReplayDisposition

unfoldable pub retention_deadline : ReplayBinding → UtcTimestamp → UtcTimestamp
retention_deadline b local_horizon = later b.signed_authorization_expires_at local_horizon

unfoldable pub compare : ReplayBinding → ReplayBinding → ReplayDisposition
compare b candidate =
    if not (b.client_request_id == candidate.client_request_id)
    then unrelated_key
    else if b.authority_digest == candidate.authority_digest
        && b.caller_subject == candidate.caller_subject
        && b.host_identity == candidate.host_identity
    then exact_retry b.lease_id
    else conflict AutomationErrorCode.idempotency_conflict
