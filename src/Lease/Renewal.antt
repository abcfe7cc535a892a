-- ===== src/Lease/Renewal.antt =====
-- Renewal, launch authorization and activation: the methods of `Lease` that read the policy, in
-- src/automation/lease.rs and src/automation/lease/activation.rs.
use aictx.Base.{
  ℕ, ◌+◌, Bool, true, false, not, ◌||◌, Text, ◌==◌, leb, ltb, min, if◌then◌else◌, Result, ok, err,
  ok_or, ◌>>=◌, ◌>>◌, refuse_if, map_err, text_eq, nat_eq,
}
use aictx.Contracts.Types.{LeaseStatus, LeaseReasonCode}
use aictx.Contracts.Temporal.{UtcTimestamp, is_before}
use aictx.Contracts.Temporal
use aictx.Contracts.Request.{Crates}
use aictx.Policy.Types.{EffectivePolicy}
use aictx.Policy.Digest.{digest}
use aictx.Lease.Error.{LeaseDomainError}
use aictx.Lease.Clock.{
  ClockSample, checked_add_nanoseconds, checked_add_seconds, add_seconds, wall_nanoseconds_between,
  earlier,
}
use aictx.Lease.State.{LeaseControl, ResolvedAuthority, LeaseState, Lease, status_of, authority_of}
use aictx.Lease.Checks.{
  validate_caller, validate_control, state_error, require_status, validate_resolution,
  validate_policy_binding,
}
use aictx.Lease.Operations.{Outcome, enforce_deadlines, renewal_ack_timeout_seconds}

-- A generation that is representable and within the contract's maximum.
unfoldable pub next_generation : ℕ → Result LeaseDomainError ℕ
next_generation generation =
    if leb Temporal.u64_max generation
    then err LeaseDomainError.generation_exhausted
    else map_err (Temporal.fencing_generation (generation + 1))
        LeaseDomainError.generation_exhausted

-- The renewed authority with its acknowledgement deadlines.
pub record Renewal : Type 0 where
  pub authority : ResolvedAuthority
  pub acknowledgement_deadline : UtcTimestamp
  pub monotonic_acknowledgement_deadline : ℕ

-- The two ceilings of a renewal.
pub record Ceiling : Type 0 where
  pub wall : UtcTimestamp
  pub monotonic : ℕ

module _ (crates : Crates) where
  unfoldable pub renewal_ceiling :
      Lease → ResolvedAuthority → EffectivePolicy → Result LeaseDomainError Ceiling
  renewal_ceiling l authority policy = do
    policy_maximum ← add_seconds crates.time issued.wall policy.maximum_session_seconds
    signed_runtime ← wall_nanoseconds_between crates.time issued.wall policy.signed_expires_at
    signed_monotonic ←
        ok_or (checked_add_nanoseconds issued.monotonic signed_runtime)
          LeaseDomainError.clock_overflow
    policy_monotonic ←
        ok_or (checked_add_seconds issued.monotonic policy.maximum_session_seconds)
          LeaseDomainError.clock_overflow
    ok (record {
      wall = earlier authority.maximum_expires_at (earlier policy.signed_expires_at policy_maximum);
      monotonic = min (min authority.monotonic_maximum_deadline signed_monotonic) policy_monotonic;
    })
    where
      open l use {issuance_clock as issued}

  unfoldable pub acknowledgement : ResolvedAuthority → ClockSample → Result LeaseDomainError Renewal
  acknowledgement renewed now = do
    wall ← add_seconds crates.time now.wall renewal_ack_timeout_seconds
    monotonic ←
        ok_or (checked_add_seconds now.monotonic renewal_ack_timeout_seconds)
          LeaseDomainError.clock_overflow
    ok (record {
      authority = renewed;
      acknowledgement_deadline = earlier wall renewed.expires_at;
      monotonic_acknowledgement_deadline = min monotonic renewed.monotonic_deadline;
    })

  unfoldable pub renewed_authority :
      Lease
      → ResolvedAuthority
      → EffectivePolicy
      → ClockSample
      → Result LeaseDomainError ResolvedAuthority
  renewed_authority l authority policy now = do
    ceiling ← renewal_ceiling l authority policy
    expires_at ← add_seconds crates.time now.wall policy.requested_ttl_seconds
    monotonic_deadline ←
        ok_or (checked_add_seconds now.monotonic policy.requested_ttl_seconds)
          LeaseDomainError.clock_overflow
    refuse_if
        (is_before ceiling.wall expires_at
          || ltb ceiling.monotonic monotonic_deadline
          || not (is_before authority.expires_at expires_at)
          || leb monotonic_deadline authority.monotonic_deadline)
        LeaseDomainError.session_limit_reached
    generation ← next_generation authority.fencing_generation
    ok (record authority {
      fencing_generation = generation;
      expires_at = expires_at;
      maximum_expires_at = ceiling.wall;
      interval_anchor_wall = now.wall;
      interval_anchor_monotonic = now.monotonic;
      monotonic_deadline = monotonic_deadline;
      monotonic_maximum_deadline = ceiling.monotonic;
      effective_policy_digest = digest crates policy;
    })

  -- The authority of an active lease.
  unfoldable pub active_authority : LeaseState → Result LeaseDomainError ResolvedAuthority
  unfolding status_of
  active_authority (LeaseState.active a) = ok a
  active_authority s = err (LeaseDomainError.invalid_transition (status_of s) LeaseStatus.renewing)

  -- What `begin_renewal` computes after the deadlines have passed.
  unfoldable pub renewal : Lease → EffectivePolicy → ClockSample → Result LeaseDomainError Renewal
  unfolding active_authority
  renewal l policy now = do
    require_status l LeaseStatus.active
    validate_policy_binding crates l policy
    refuse_if
        (ltb policy.maximum_ttl_seconds policy.requested_ttl_seconds
          || ltb policy.maximum_session_seconds policy.requested_ttl_seconds)
        LeaseDomainError.session_limit_reached
    authority ← active_authority l.state
    validate_resolution l.binding.provider policy authority.resolution
    renewed ← renewed_authority l authority policy now
    acknowledgement renewed now

  unfoldable pub start_renewing : Lease → EffectivePolicy → ClockSample → Outcome ℕ
  unfolding renewal renewed_authority renewal_ceiling acknowledgement
  start_renewing m policy now = elim (renewal m policy now) [
    | err e ↦ (m, err e)
    | ok r ↦ (
      record m {
        state =
            LeaseState.renewing r.authority r.acknowledgement_deadline
              r.monotonic_acknowledgement_deadline;
      },
      ok r.authority.fencing_generation,
    )
  ]

  renew_after : Lease → Result LeaseDomainError Bool → EffectivePolicy → ClockSample → Outcome ℕ
  unfolding start_renewing
  renew_after m (err e) policy now = (m, err e)
  renew_after m (ok true) policy now = (m, err (state_error m LeaseStatus.renewing))
  renew_after m (ok false) policy now = start_renewing m policy now

  unfoldable pub begin_renewal : Lease → LeaseControl → EffectivePolicy → ClockSample → Outcome ℕ
  unfolding renew_after
  begin_renewal l control policy now = elim (validate_caller l control) [
    | err e ↦ (l, err e)
    | ok _ ↦
        let (m, deadline) = enforce_deadlines l now in
        elim (validate_control l control) [
          | err e ↦ (m, err e)
          | ok _ ↦ renew_after m deadline policy now
        ]
  ]

  -- The checks that follow the deadlines of a launch.
  unfoldable pub launch_checks :
      Lease → LeaseControl → EffectivePolicy → Result LeaseDomainError ResolvedAuthority
  launch_checks m control policy = do
    require_status m LeaseStatus.active
    validate_control m control
    validate_policy_binding crates m policy
    ok_or (authority_of m.state) LeaseDomainError.lease_not_active

  unfoldable pub launch : Lease → LeaseControl → EffectivePolicy → Outcome Text
  unfolding launch_checks
  launch m control policy = elim (launch_checks m control policy) [
    | err e ↦ (m, err e)
    | ok a ↦
        if not (a.effective_policy_digest == digest crates policy)
        then (
          record m { state = LeaseState.revoked a LeaseReasonCode.policy_revoked },
          err LeaseDomainError.lease_revoked,
        )
        else (m, ok a.resolution.execution_handle)
  ]

  launch_after :
      Lease → Result LeaseDomainError Bool → LeaseControl → EffectivePolicy → Outcome Text
  unfolding launch
  launch_after m (err e) control policy = (m, err e)
  launch_after m (ok true) control policy = (m, err (state_error m LeaseStatus.active))
  launch_after m (ok false) control policy = launch m control policy

  unfoldable pub authorize_launch :
      Lease → LeaseControl → EffectivePolicy → ClockSample → Outcome Text
  unfolding launch_after
  authorize_launch l control policy now = elim (validate_caller l control) [
    | err e ↦ (l, err e)
    | ok _ ↦ let (m, deadline) = enforce_deadlines l now in launch_after m deadline control policy
  ]
