-- ===== src/Lease/Moves.antt =====
-- Every call on a lease is at most two moves of the transition relation.
mod Controlled
mod Renewal
mod Activation
use aictx.Base.{
  ℕ, ◌≤◌, ◌<◌, ◌≡◌, refl, Bool, true, false, Option, none, some, ◌⊎◌, inl, inr, arith, Result, ok,
  err, Result-cases, Bool-cases, Option-cases, ◌>>◌, refuse_if, ◌==◌, text_eq,
}
use aictx.Contracts.Types.{LeaseStatus, LeaseReasonCode, RefusalCode}
use aictx.Contracts.Temporal.{UtcTimestamp, is_before}
use aictx.Policy.Digest.{digest}
use aictx.Contracts.Request.{Crates}
use aictx.Policy.Types.{EffectivePolicy}
use aictx.Lease.Error.{LeaseDomainError}
use aictx.Lease.Clock.{ClockSample}
use aictx.Lease.State.{
  LeaseResolution, LeaseControl, ResolvedAuthority, LeaseState, Lease, status, status_of,
  authority_of,
}
use aictx.Lease.Checks.{
  Guard, validate_caller, validate_control, require_status, require_active_or_renewing, state_error,
  is_active_or_renewing, is_live, revocation_reason, closing_reason, error_reason,
}
use aictx.Lease.Operations.{
  clock_guard, monotonic_guard, observe_runtime_clock, observe_activation_clock, due,
  enforce_deadlines, retire, after_deadlines, Outcome, finish_closing, finish_revoking,
  finish_acknowledging, revoke_renewal, refuse, close, revoke, revoke_controlled, mark_error,
  acknowledge_renewal,
}
use aictx.Lease.Renewal.{
  start_renewing, launch, launch_checks, renewal, begin_renewal, authorize_launch,
}
use aictx.Lease.Activation.{
  prepare_activation, activate_prepared, PreparedActivation, preparation, activate,
}
use aictx.Lease.History.{
  Call, refuses, activates, begins_renewal, acknowledges_renewal, closes, revokes,
  revokes_controlled, marks_error, enforces_deadlines, authorizes_launch, step,
}
use aictx.Lease.Move.{
  Move, tick, lapse, refusal, activation, renewing, settling, closing, revocation, failure, Moves,
  stay, move, later_move, enforce_deadlines_cases, observe_activation_clock_cases, requested_state,
  AtMostOne, at_most_one, after_tick, prepare_activation_cases,
}
use Controlled.{
  close-Moves, revoke_state, revoke_controlled-Moves, mark_error_state, acknowledge_renewal-Moves,
}
use Renewal.{begin_renewal-Moves, authorize_launch-Moves}
use Activation.{refuse-Moves, activate-Moves}

module _ (crates : Crates) where
  enforce_deadlines-Moves :
      (l : Lease) (now : ClockSample) → Moves crates l (enforce_deadlines l now).0
  enforce_deadlines-Moves l now = elim (enforce_deadlines_cases l now) [
    | inl (x, q) ↦ rw q (stay refl)
    | inr (inl (p, d, q)) ↦ rw q (move (tick now p d refl))
    | inr (inr (s, p, d, q)) ↦ rw q (move (lapse now s p d refl))
  ]

  -- Every call is at most two moves.
  pub step-Moves : (l : Lease) (c : Call) → Moves crates l (step crates l c)
  unfolding step
  step-Moves l (refuses code) = refuse-Moves crates l code
  step-Moves l (activates policy resolution now) = activate-Moves crates l policy resolution now
  step-Moves l (begins_renewal control policy now) = begin_renewal-Moves crates l control policy now
  step-Moves l (acknowledges_renewal control now) = acknowledge_renewal-Moves crates l control now
  step-Moves l (closes control reason now) = close-Moves crates l control reason now
  step-Moves l (revokes reason) = at_most_one crates (revoke_state crates reason l l.state refl)
  step-Moves l (revokes_controlled control now) = revoke_controlled-Moves crates l control now
  step-Moves l (marks_error reason) =
      at_most_one crates (mark_error_state crates reason l l.state refl)
  step-Moves l (enforces_deadlines now) = enforce_deadlines-Moves l now
  step-Moves l (authorizes_launch control policy now) =
      authorize_launch-Moves crates l control policy now
