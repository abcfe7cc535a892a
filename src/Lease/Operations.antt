-- ===== src/Lease/Operations.antt =====
-- The operations of a lease: the methods of `Lease` in src/automation/lease.rs. A method that takes
-- `&mut self` returns the lease that it leaves behind together with its result, since an operation
-- may move the lease and fail.
use aictx.Base.{
  ℕ, Bool, true, false, not, Option, none, some, ◌==◌, ltb, if◌then◌else◌, Result, ok, err, ◌>>◌,
  refuse_if, text_eq, nat_eq,
}
use aictx.Contracts.Types.{LeaseStatus, LeaseReasonCode, RefusalCode}
use aictx.Contracts.Temporal.{is_before}
use aictx.Lease.Error.{LeaseDomainError}
use aictx.Lease.Clock.{ClockSample, deadline_reached}
use aictx.Lease.State.{LeaseControl, ResolvedAuthority, LeaseState, Lease, status, authority_of}
use aictx.Lease.Checks.{
  Guard, validate_caller, validate_control, state_error, require_status, is_live,
  require_active_or_renewing, revocation_reason, closing_reason, error_reason,
}

abbrev pub Outcome : Type 0 → Type 0
Outcome A = Lease × Result LeaseDomainError A

abbrev pub renewal_ack_timeout_seconds : ℕ
renewal_ack_timeout_seconds = 30

unfoldable pub refuse : Lease → RefusalCode → Outcome (Unit {0})
refuse l code = elim (require_status l LeaseStatus.requested) [
  | err e ↦ (l, err e)
  | ok _ ↦ (record l { state = LeaseState.refused code }, ok tt)
]

-- Both clock observations record the sample only if it passes.
abbrev pub clock_guard : Lease → ClockSample → Guard
clock_guard l now =
    refuse_if (not (now.service_generation == l.issuance_clock.service_generation))
      LeaseDomainError.clock_generation_mismatch

abbrev pub monotonic_guard : Lease → ClockSample → Guard
monotonic_guard l now =
    refuse_if (ltb now.monotonic l.last_monotonic) LeaseDomainError.monotonic_regression

unfoldable pub observe_activation_clock : Lease → ClockSample → Outcome (Unit {0})
observe_activation_clock l now =
    let passed : Guard =
      (clock_guard l now
        >> refuse_if (is_before now.wall l.issuance_clock.wall)
            LeaseDomainError.clock_before_issuance
        >> monotonic_guard l now) in
    elim passed [ err e ↦ (l, err e) | ok _ ↦ (record l { last_monotonic = now.monotonic }, ok tt) ]

unfoldable pub observe_runtime_clock : Lease → ClockSample → Outcome (Unit {0})
observe_runtime_clock l now = elim (clock_guard l now >> monotonic_guard l now) [
  | err e ↦ (l, err e)
  | ok _ ↦ (record l { last_monotonic = now.monotonic }, ok tt)
]

-- The state after the deadlines of a live authority are compared with the clock: `some` where one
-- has been reached.
abbrev pub authority_due : ResolvedAuthority → ClockSample → Option LeaseState
authority_due a now =
    if deadline_reached now a.maximum_expires_at a.monotonic_maximum_deadline
    then some (LeaseState.expired a LeaseReasonCode.maximum_lifetime_reached)
    else if deadline_reached now a.expires_at a.monotonic_deadline
    then some (LeaseState.expired a LeaseReasonCode.lease_expired)
    else none

unfoldable pub due : LeaseState → ClockSample → Option LeaseState
due (LeaseState.active a) now = authority_due a now
due (LeaseState.renewing a wall monotonic) now =
    if deadline_reached now wall monotonic
    then some (LeaseState.revoked a LeaseReasonCode.renewal_acknowledgement_failed)
    else authority_due a now
due (LeaseState.error a reason) now = authority_due a now
due _ now = none

-- `enforce_deadlines` returns whether a deadline moved the lease.
unfoldable pub enforce_deadlines : Lease → ClockSample → Outcome Bool
unfolding due observe_runtime_clock
enforce_deadlines l now =
    let (m, seen) = observe_runtime_clock l now in
    elim seen [
      | err e ↦ (m, err e)
      | ok _ ↦ elim (due m.state now) [
        | none ↦ (m, ok false)
        | some s ↦ (record m { state = s }, ok true)
      ]
    ]

-- The end of a controlled operation: its own errors go before those of the deadlines, which are
-- enforced in either case.
abbrev pub after_deadlines :
    Guard → LeaseStatus → (Lease → Outcome (Unit {0})) → Outcome Bool → Outcome (Unit {0})
after_deadlines (err e) target k (m, deadline) = (m, err e)
after_deadlines (ok _) target k (m, err e) = (m, err e)
after_deadlines (ok _) target k (m, ok true) = (m, err (state_error m target))
after_deadlines (ok _) target k (m, ok false) = k m

-- The move to a final or an error state keeps the authority.
abbrev pub retire :
    (ResolvedAuthority → LeaseReasonCode → LeaseState)
    → LeaseReasonCode
    → Lease
    → Outcome (Unit {0})
retire into reason m = elim (authority_of m.state) [
  | none ↦ (m, err LeaseDomainError.lease_not_active)
  | some a ↦ (record m { state = into a reason }, ok tt)
]

unfoldable pub finish_closing : LeaseReasonCode → Lease → Outcome (Unit {0})
finish_closing reason m = elim (require_active_or_renewing m LeaseStatus.closed) [
  | err e ↦ (m, err e)
  | ok _ ↦ retire LeaseState.closed reason m
]

unfoldable pub close : Lease → LeaseControl → LeaseReasonCode → ClockSample → Outcome (Unit {0})
unfolding finish_closing
close l control reason now = elim (validate_caller l control) [
  | err e ↦ (l, err e)
  | ok _ ↦
      after_deadlines
        (validate_control l control
          >> refuse_if (not (closing_reason reason))
              (LeaseDomainError.invalid_reason LeaseStatus.closed reason))
        LeaseStatus.closed (finish_closing reason) (enforce_deadlines l now)
]

unfoldable pub revoke : Lease → LeaseReasonCode → Outcome (Unit {0})
revoke l reason =
    if not (revocation_reason reason)
    then (l, err (LeaseDomainError.invalid_reason LeaseStatus.revoked reason))
    else if not (is_live (status l))
    then (l, err LeaseDomainError.lease_not_active)
    else retire LeaseState.revoked reason l

unfoldable pub finish_revoking : Lease → Outcome (Unit {0})
finish_revoking m =
    if not (is_live (status m))
    then (m, err LeaseDomainError.lease_not_active)
    else revoke m LeaseReasonCode.operator_revoked

unfoldable pub revoke_controlled : Lease → LeaseControl → ClockSample → Outcome (Unit {0})
unfolding finish_revoking revoke
revoke_controlled l control now = elim (validate_caller l control) [
  | err e ↦ (l, err e)
  | ok _ ↦
      after_deadlines (validate_control l control) LeaseStatus.revoked finish_revoking
        (enforce_deadlines l now)
]

unfoldable pub mark_error : Lease → LeaseReasonCode → Outcome (Unit {0})
mark_error l reason =
    if not (error_reason reason)
    then (l, err (LeaseDomainError.invalid_reason LeaseStatus.error reason))
    else elim (require_active_or_renewing l LeaseStatus.error) [
      | err e ↦ (l, err e)
      | ok _ ↦ retire LeaseState.error reason l
    ]

-- A pending renewal is revoked when its control does not match.
unfoldable pub revoke_renewal : LeaseState → LeaseState
revoke_renewal (LeaseState.renewing a wall monotonic) =
    LeaseState.revoked a LeaseReasonCode.renewal_acknowledgement_failed
revoke_renewal s = s

settle : LeaseState → Lease → Outcome (Unit {0})
settle (LeaseState.renewing a wall monotonic) m = (record m { state = LeaseState.active a }, ok tt)
settle s m = (m, err LeaseDomainError.lease_not_active)

unfoldable pub finish_acknowledging : Lease → Outcome (Unit {0})
unfolding settle
finish_acknowledging m = elim (require_status m LeaseStatus.renewing) [
  | err e ↦ (m, err e)
  | ok _ ↦ settle m.state m
]

unfoldable pub acknowledge_renewal : Lease → LeaseControl → ClockSample → Outcome (Unit {0})
unfolding revoke_renewal finish_acknowledging
acknowledge_renewal l control now = elim (validate_control l control) [
  | err e ↦
      let (m, deadline) = enforce_deadlines l now in
      (record m { state = revoke_renewal m.state }, err e)
  | ok _ ↦ after_deadlines (ok tt) LeaseStatus.active finish_acknowledging (enforce_deadlines l now)
]
