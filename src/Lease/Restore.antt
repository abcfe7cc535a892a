-- ===== src/Lease/Restore.antt =====
-- Taking and restoring snapshots: the methods of `LeaseSnapshot` and `Lease` in
-- src/automation/lease/snapshot.rs.
use aictx.Base.{
  ℕ, not, ◌&&◌, ◌||◌, Option, none, some, Text, ◌==◌, leb, ltb, Result, ok, err, ◌>>=◌, ◌>>◌,
  map_err, text_eq, nat_eq,
}
use aictx.Contracts.Types.{option_text_eq}
use aictx.Contracts.Temporal.{TimeCrate}
use aictx.Contracts.Response.{IdentityLeaseResponse}
use aictx.Contracts.Response
use aictx.Lease.Error.{LeaseDomainError}
use aictx.Lease.State.{
  ResolvedAuthority, LeaseState, Lease, status, authority_of, refusal_code, reason_code,
  execution_handle,
}
use aictx.Lease.Checks.{Guard}
use aictx.Lease.Snapshot.{
  PersistedResolvedAuthority, from_domain, PersistedLeaseState, LeaseSnapshot, invalid_if,
  restored_state,
}

-- `authority.map(f)`.
abbrev pub field_of : {A : Type 0} → Option ResolvedAuthority → (ResolvedAuthority → A) → Option A
field_of none f = none
field_of (some a) f = some (f a)

abbrev pub worker_of : Option ResolvedAuthority → Option Text
worker_of none = none
worker_of (some a) = a.resolution.worker_identity

unfoldable pub response_of : Lease → IdentityLeaseResponse
response_of l = record {
  lease_id = b.lease_id;
  status = status l;
  tenant_id = b.tenant_id;
  work_order_id = b.work_order_id;
  work_order_digest = b.work_order_digest;
  run_id = b.run_id;
  attempt_id = b.attempt_id;
  role = b.role;
  provider = b.provider;
  profile_uid = b.profile_uid;
  profile_ref = b.profile_ref;
  repository = b.repository;
  workspace_id = b.workspace_id;
  environment = b.environment;
  caller_subject = b.caller_subject;
  host_identity = b.host_identity;
  worker_identity = worker_of authority;
  principal_ref = field_of authority (λ a. a.resolution.principal_ref);
  workspace_ref = field_of authority (λ a. a.resolution.workspace_ref);
  auth_mode = field_of authority (λ a. a.resolution.auth_mode);
  fencing_generation = field_of authority (λ a. a.fencing_generation);
  issued_at = l.issuance_clock.wall;
  expires_at = field_of authority (λ a. a.expires_at);
  maximum_expires_at = field_of authority (λ a. a.maximum_expires_at);
  execution_handle = execution_handle l;
  isolation = field_of authority (λ a. a.resolution.isolation);
  effective_policy_digest = field_of authority (λ a. a.effective_policy_digest);
  refusal_code = refusal_code l;
  reason_code = reason_code l;
}
  where
    open l use {binding as b}

    authority : Option ResolvedAuthority
    authority = authority_of l.state

-- `Lease::identity_response`.
unfoldable pub identity_response : Lease → Result LeaseDomainError IdentityLeaseResponse
identity_response l = do
  map_err (Response.validate (response_of l)) LeaseDomainError.invalid_snapshot
  ok (response_of l)

-- `LeaseSnapshot::into_lease`, which `Lease::restore` calls.
unfoldable pub restore : TimeCrate → LeaseSnapshot → Result LeaseDomainError Lease
restore time s = do
  invalid_if (
      s.issuance_clock.service_generation == 0
      || ltb s.monotonic_high_water s.issuance_clock.monotonic)
  state ← restored_state time s.binding s.issuance_clock s.monotonic_high_water s.state
  let lease : Lease = record {
    binding = s.binding;
    issuance_clock = s.issuance_clock;
    last_monotonic = s.monotonic_high_water;
    state = state;
  }
  response ← identity_response lease
  ok lease

unfoldable pub persisted : LeaseState → PersistedLeaseState
persisted LeaseState.requested = PersistedLeaseState.requested
persisted (LeaseState.active a) = PersistedLeaseState.active (from_domain a)
persisted (LeaseState.renewing a wall monotonic) =
    PersistedLeaseState.renewing (from_domain a) wall monotonic
persisted (LeaseState.error a reason) = PersistedLeaseState.error (from_domain a) reason
persisted (LeaseState.closed a reason) = PersistedLeaseState.closed (from_domain a) reason
persisted (LeaseState.revoked a reason) = PersistedLeaseState.revoked (from_domain a) reason
persisted (LeaseState.expired a reason) = PersistedLeaseState.expired (from_domain a) reason
persisted (LeaseState.refused code) = PersistedLeaseState.refused code

-- `Lease::snapshot`.
unfoldable pub snapshot : Lease → LeaseSnapshot
unfolding persisted
snapshot l = record {
  binding = l.binding;
  issuance_clock = l.issuance_clock;
  monotonic_high_water = l.last_monotonic;
  state = persisted l.state;
}

unfoldable pub persisted_authority :
    PersistedLeaseState → Result LeaseDomainError PersistedResolvedAuthority
persisted_authority (PersistedLeaseState.active a) = ok a
persisted_authority (PersistedLeaseState.renewing a wall monotonic) = ok a
persisted_authority (PersistedLeaseState.error a reason) = ok a
persisted_authority (PersistedLeaseState.closed a reason) = ok a
persisted_authority (PersistedLeaseState.revoked a reason) = ok a
persisted_authority (PersistedLeaseState.expired a reason) = ok a
persisted_authority _ = err LeaseDomainError.invalid_snapshot

-- `LeaseSnapshot::validate_process_binding`.
unfoldable pub validate_process_binding : LeaseSnapshot → ℕ → Text → Option Text → ℕ → Guard
unfolding persisted_authority
validate_process_binding s origin_generation handle worker observed = do
  invalid_if (not (origin_generation == s.issuance_clock.service_generation))
  a ← persisted_authority s.state
  invalid_if (
      not (
        handle == a.resolution.execution_handle
        && worker == a.resolution.worker_identity
        && leb observed a.fencing_generation))
