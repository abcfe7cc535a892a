-- ===== src/Lease/Snapshot.antt =====
-- Durable lease snapshots: src/automation/lease/snapshot.rs and src/automation/lease/snapshot.
use aictx.Base.{
  ℕ, ◌-◌, ◌*◌, Bool, not, ◌&&◌, ◌||◌, ◌==◌, codes, leb, ltb, min, Result, ok, err, ◌>>=◌, ◌>>◌,
  refuse_if, map_err, text_eq, nat_eq,
}
use aictx.Contracts.Types.{
  AgentRole, IsolationClassification, LeaseStatus, LeaseReasonCode, RefusalCode, Sha256Digest,
  isolation_eq, role_eq, matches_provider, supports_provider,
}
use aictx.Contracts.Temporal.{UtcTimestamp, TimeCrate, is_before, timestamp_eq, nanos_per_second}
use aictx.Lease.Error.{LeaseDomainError}
use aictx.Lease.Clock.{ClockSample, wall_nanoseconds_between}
use aictx.Lease.Replay.{LeaseBinding}
use aictx.Lease.State.{LeaseResolution, ResolvedAuthority, LeaseState}
use aictx.Lease.Checks.{Guard, revocation_reason, closing_reason, error_reason}

pub record PersistedResolvedAuthority : Type 0 where
  pub resolution : LeaseResolution
  pub effective_policy_digest : Sha256Digest
  pub fencing_generation : ℕ
  pub expires_at : UtcTimestamp
  pub maximum_expires_at : UtcTimestamp
  pub interval_anchor_wall : UtcTimestamp
  pub interval_anchor_monotonic : ℕ
  pub monotonic_deadline : ℕ
  pub monotonic_maximum_deadline : ℕ

-- `PersistedResolvedAuthority::into_domain`.
abbrev pub into_domain : PersistedResolvedAuthority → ResolvedAuthority
into_domain p = record {
  resolution = p.resolution;
  effective_policy_digest = p.effective_policy_digest;
  fencing_generation = p.fencing_generation;
  expires_at = p.expires_at;
  maximum_expires_at = p.maximum_expires_at;
  interval_anchor_wall = p.interval_anchor_wall;
  interval_anchor_monotonic = p.interval_anchor_monotonic;
  monotonic_deadline = p.monotonic_deadline;
  monotonic_maximum_deadline = p.monotonic_maximum_deadline;
}

-- `From<&ResolvedAuthority> for PersistedResolvedAuthority`.
abbrev pub from_domain : ResolvedAuthority → PersistedResolvedAuthority
from_domain a = record {
  resolution = a.resolution;
  effective_policy_digest = a.effective_policy_digest;
  fencing_generation = a.fencing_generation;
  expires_at = a.expires_at;
  maximum_expires_at = a.maximum_expires_at;
  interval_anchor_wall = a.interval_anchor_wall;
  interval_anchor_monotonic = a.interval_anchor_monotonic;
  monotonic_deadline = a.monotonic_deadline;
  monotonic_maximum_deadline = a.monotonic_maximum_deadline;
}

pub data PersistedLeaseState : Type 0 where
  requested : PersistedLeaseState
  active : PersistedResolvedAuthority → PersistedLeaseState
  renewing : PersistedResolvedAuthority → UtcTimestamp → ℕ → PersistedLeaseState
  error closed revoked expired : PersistedResolvedAuthority → LeaseReasonCode → PersistedLeaseState
  refused : RefusalCode → PersistedLeaseState

pub record LeaseSnapshot : Type 0 where
  pub binding : LeaseBinding
  pub issuance_clock : ClockSample
  pub monotonic_high_water : ℕ
  pub state : PersistedLeaseState

-- The refusal of a snapshot.
abbrev pub invalid_if : Bool → Guard
invalid_if bad = refuse_if bad LeaseDomainError.invalid_snapshot

-- `require_reason`; each caller names its status.
unfoldable pub require_reason : LeaseStatus → LeaseReasonCode → Guard
require_reason LeaseStatus.closed reason = invalid_if (not (closing_reason reason))
require_reason LeaseStatus.revoked reason = invalid_if (not (revocation_reason reason))
require_reason LeaseStatus.expired LeaseReasonCode.lease_expired = ok tt
require_reason LeaseStatus.expired LeaseReasonCode.maximum_lifetime_reached = ok tt
require_reason LeaseStatus.error reason = invalid_if (not (error_reason reason))
require_reason status reason = err LeaseDomainError.invalid_snapshot

unfoldable pub validate_live_high_water : PersistedResolvedAuthority → ℕ → Guard
validate_live_high_water a high_water =
    invalid_if (leb a.monotonic_deadline high_water || leb a.monotonic_maximum_deadline high_water)

-- The conditions of `validate_authority` before it measures the deadlines.
unfoldable pub misplaced : PersistedResolvedAuthority → LeaseBinding → ClockSample → ℕ → Bool
misplaced a b c high_water =
    not (matches_provider a.resolution.workspace_ref b.provider)
    || not (supports_provider a.resolution.auth_mode b.provider)
    || a.resolution.isolation == IsolationClassification.unproven
    || (a.resolution.isolation == IsolationClassification.copied_credential_development
        && not (b.environment == codes "local-development")
        && not (b.role == AgentRole.pr_reviewer))
    || not (is_before c.wall a.expires_at)
    || is_before a.maximum_expires_at a.expires_at
    || is_before b.signed_authorization_expires_at a.maximum_expires_at
    || leb a.monotonic_deadline c.monotonic
    || ltb a.monotonic_maximum_deadline a.monotonic_deadline
    || ltb a.interval_anchor_monotonic c.monotonic
    || ltb high_water a.interval_anchor_monotonic
    || (a.fencing_generation == 1
        && (not (a.interval_anchor_wall == c.wall)
            || not (a.interval_anchor_monotonic == c.monotonic)))

module _ (time : TimeCrate) where
  -- `validate_deadline_pair`: the same distance on both clocks.
  unfoldable pub validate_deadline_pair :
      UtcTimestamp → ℕ → UtcTimestamp → ℕ → Result LeaseDomainError ℕ
  validate_deadline_pair anchor_wall anchor deadline_wall deadline = do
    wall ←
        map_err (wall_nanoseconds_between time anchor_wall deadline_wall)
          LeaseDomainError.invalid_snapshot
    invalid_if (ltb deadline anchor)
    invalid_if (not (wall == deadline - anchor))
    ok wall

  -- `u64` seconds in nanoseconds always fit the `u128` of the source.
  unfoldable pub validate_authority :
      PersistedResolvedAuthority → LeaseBinding → ClockSample → ℕ → Guard
  validate_authority a b c high_water = do
    invalid_if (misplaced a b c high_water)
    interval ←
        validate_deadline_pair a.interval_anchor_wall a.interval_anchor_monotonic a.expires_at
          a.monotonic_deadline
    maximum ←
        validate_deadline_pair c.wall c.monotonic a.maximum_expires_at a.monotonic_maximum_deadline
    invalid_if (
        ltb (b.signed_maximum_ttl_seconds * nanos_per_second)
          (b.initial_requested_ttl_seconds * nanos_per_second)
        || ltb (b.signed_maximum_session_seconds * nanos_per_second)
            (b.signed_maximum_ttl_seconds * nanos_per_second)
        || ltb (b.signed_maximum_ttl_seconds * nanos_per_second) interval
        || ltb (b.signed_maximum_session_seconds * nanos_per_second) maximum
        || (a.fencing_generation == 1
            && not (interval == b.initial_requested_ttl_seconds * nanos_per_second)))

  unfoldable pub validate_acknowledgement_pair :
      PersistedResolvedAuthority → UtcTimestamp → ℕ → Guard
  validate_acknowledgement_pair a wall monotonic = do
    measured ←
        validate_deadline_pair a.interval_anchor_wall a.interval_anchor_monotonic wall monotonic
    interval ←
        map_err (wall_nanoseconds_between time a.interval_anchor_wall a.expires_at)
          LeaseDomainError.invalid_snapshot
    acknowledgement ←
        map_err (wall_nanoseconds_between time a.interval_anchor_wall wall)
          LeaseDomainError.invalid_snapshot
    invalid_if (not (acknowledgement == min interval 30000000000))

  -- The state of a snapshot, by its constructor.
  unfoldable pub restored_state :
      LeaseBinding → ClockSample → ℕ → PersistedLeaseState → Result LeaseDomainError LeaseState
  restored_state b c n requested = ok LeaseState.requested
  restored_state b c n (refused code) = ok (LeaseState.refused code)
  restored_state b c n (active a) = do
    validate_authority a b c n
    validate_live_high_water a n
    ok (LeaseState.active (into_domain a))
  restored_state b c n (renewing a wall monotonic) = do
    invalid_if (a.fencing_generation == 1)
    validate_authority a b c n
    validate_live_high_water a n
    invalid_if (
        is_before a.expires_at wall
        || leb monotonic c.monotonic
        || ltb a.monotonic_deadline monotonic
        || leb monotonic n)
    validate_acknowledgement_pair a wall monotonic
    ok (LeaseState.renewing (into_domain a) wall monotonic)
  restored_state b c n (error a reason) = do
    validate_authority a b c n
    require_reason LeaseStatus.error reason
    validate_live_high_water a n
    ok (LeaseState.error (into_domain a) reason)
  restored_state b c n (closed a reason) = do
    validate_authority a b c n
    require_reason LeaseStatus.closed reason
    ok (LeaseState.closed (into_domain a) reason)
  restored_state b c n (revoked a reason) = do
    validate_authority a b c n
    require_reason LeaseStatus.revoked reason
    ok (LeaseState.revoked (into_domain a) reason)
  restored_state b c n (expired a reason) = do
    validate_authority a b c n
    require_reason LeaseStatus.expired reason
    ok (LeaseState.expired (into_domain a) reason)
