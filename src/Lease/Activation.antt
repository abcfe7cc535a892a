-- ===== src/Lease/Activation.antt =====
-- Activation of a requested lease: src/automation/lease/activation.rs.
use aictx.Base.{
  Bool, not, ◌||◌, Text, ◌==◌, ltb, Result, ok, err, ok_or, ◌>>=◌, ◌>>◌, refuse_if, map_err,
  text_eq, nat_eq,
}
use aictx.Contracts.Types.{LeaseStatus}
use aictx.Contracts.Temporal.{UtcTimestamp, is_before}
use aictx.Contracts.Temporal
use aictx.Contracts.Request.{Crates}
use aictx.Policy.Types.{EffectivePolicy}
use aictx.Policy.Digest.{digest}
use aictx.Lease.Error.{LeaseDomainError}
use aictx.Lease.Clock.{
  ClockSample, checked_add_nanoseconds, checked_add_seconds, add_seconds, wall_nanoseconds_between,
  earlier, deadline_reached,
}
use aictx.Lease.State.{LeaseResolution, ResolvedAuthority, LeaseState, Lease}
use aictx.Lease.Checks.{require_status, validate_resolution, validate_policy_binding}
use aictx.Lease.Operations.{Outcome, observe_activation_clock}

pub record PreparedActivation : Type 0 where
  pub lease_id : Text
  pub authority : ResolvedAuthority

module _ (crates : Crates) where
  -- The authority of a first activation, whose deadlines count from the issuance of the lease.
  unfoldable pub first_authority :
      Lease
      → EffectivePolicy
      → LeaseResolution
      → ClockSample
      → Result LeaseDomainError ResolvedAuthority
  first_authority l policy resolution now = do
    by_session ← add_seconds crates.time issued.wall policy.maximum_session_seconds
    let maximum_expires_at = earlier policy.signed_expires_at by_session
    expires_at ← add_seconds crates.time issued.wall policy.requested_ttl_seconds
    refuse_if (is_before maximum_expires_at expires_at || not (is_before issued.wall expires_at))
        LeaseDomainError.session_limit_reached
    maximum_runtime ← wall_nanoseconds_between crates.time issued.wall maximum_expires_at
    monotonic_maximum ←
        ok_or (checked_add_nanoseconds issued.monotonic maximum_runtime)
          LeaseDomainError.clock_overflow
    monotonic_deadline ←
        ok_or (checked_add_seconds issued.monotonic policy.requested_ttl_seconds)
          LeaseDomainError.clock_overflow
    refuse_if
        (ltb monotonic_maximum monotonic_deadline
          || deadline_reached now expires_at monotonic_deadline
          || deadline_reached now maximum_expires_at monotonic_maximum)
        LeaseDomainError.session_limit_reached
    generation ← map_err (Temporal.fencing_generation 1) LeaseDomainError.generation_exhausted
    ok (record {
      resolution = resolution;
      effective_policy_digest = digest crates policy;
      fencing_generation = generation;
      expires_at = expires_at;
      maximum_expires_at = maximum_expires_at;
      interval_anchor_wall = issued.wall;
      interval_anchor_monotonic = issued.monotonic;
      monotonic_deadline = monotonic_deadline;
      monotonic_maximum_deadline = monotonic_maximum;
    })
    where
      open l use {issuance_clock as issued}

  -- What `prepare_activation` computes after the clock has been observed.
  unfoldable pub preparation :
      Lease
      → EffectivePolicy
      → LeaseResolution
      → ClockSample
      → Result LeaseDomainError PreparedActivation
  preparation l policy resolution now = do
    validate_policy_binding crates l policy
    refuse_if (not (policy.requested_ttl_seconds == l.binding.initial_requested_ttl_seconds))
        LeaseDomainError.policy_binding_mismatch
    validate_resolution l.binding.provider policy resolution
    authority ← first_authority l policy resolution now
    ok (record { lease_id = l.binding.lease_id; authority = authority })

  prepare_after :
      EffectivePolicy
      → LeaseResolution
      → ClockSample
      → Outcome (Unit {0})
      → Outcome PreparedActivation
  unfolding preparation first_authority
  prepare_after policy resolution now (m, err e) = (m, err e)
  prepare_after policy resolution now (m, ok _) = (m, preparation m policy resolution now)

  unfoldable pub prepare_activation :
      Lease → EffectivePolicy → LeaseResolution → ClockSample → Outcome PreparedActivation
  unfolding prepare_after
  prepare_activation l policy resolution now = elim (require_status l LeaseStatus.requested) [
    | err e ↦ (l, err e)
    | ok _ ↦ prepare_after policy resolution now (observe_activation_clock l now)
  ]

-- `activate_prepared` does not read the crates.
unfoldable pub activate_prepared : Lease → PreparedActivation → Outcome (Unit {0})
activate_prepared l prepared = elim (require_status l LeaseStatus.requested) [
  | err e ↦ (l, err e)
  | ok _ ↦ elim (l.binding.lease_id == prepared.lease_id) [
    | Bool.false ↦ (l, err LeaseDomainError.policy_binding_mismatch)
    | Bool.true ↦ (record l { state = LeaseState.active prepared.authority }, ok tt)
  ]
]

activate_after : Outcome PreparedActivation → Outcome (Unit {0})
unfolding activate_prepared
activate_after (m, err e) = (m, err e)
activate_after (m, ok p) = activate_prepared m p

unfoldable pub activate :
    Crates → Lease → EffectivePolicy → LeaseResolution → ClockSample → Outcome (Unit {0})
unfolding prepare_activation activate_after
activate crates l policy resolution now =
    activate_after (prepare_activation crates l policy resolution now)
