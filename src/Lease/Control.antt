-- ===== src/Lease/Control.antt =====
-- Fencing: which controls an operation accepts, and what a renewal does to the older ones.
use aictx.Base.{ℕ, ◌≡◌, refl, ◌↔◌, Bool, some, inl, inr, arith, ok, err, Result-cases, text_eq}
use aictx.Contracts.Types.{LeaseStatus, LeaseReasonCode}
use aictx.Contracts.Request.{Crates}
use aictx.Policy.Types.{EffectivePolicy}
use aictx.Lease.Error.{LeaseDomainError}
use aictx.Lease.Clock.{ClockSample}
use aictx.Lease.State.{LeaseControl, Lease, fencing_generation}
use aictx.Lease.Checks.{state_error, validate_caller, validate_control, require_status}
use aictx.Lease.Operations.{
  enforce_deadlines, close, revoke_controlled, acknowledge_renewal, after_deadlines, Outcome,
  finish_closing, finish_revoking,
}
use aictx.Lease.Renewal.{begin_renewal, launch, launch_checks, authorize_launch}
use aictx.Lease.Move.{enforce_deadlines_cases}

-- A control that names the caller, the run and the current generation of a lease.
pub record ControlMatches (l : Lease) (control : LeaseControl) : Type 0 where
  pub caller : control.caller_subject ≡ l.binding.caller_subject
  pub tenant : control.tenant_id ≡ l.binding.tenant_id
  pub run : control.run_id ≡ l.binding.run_id
  pub role : control.role ≡ l.binding.role
  pub host : control.host_identity ≡ l.binding.host_identity
  pub generation : fencing_generation l ≡ some control.fencing_generation

-- The guard accepts exactly the matching controls.
pub validate_control_iff :
    (l : Lease) (control : LeaseControl)
    → (validate_control l control ≡ ok tt) ↔ ControlMatches l control
unfolding validate_control
validate_control_iff l control = ((λ h. ground arith), (λ m. ground arith))

-- An operation that has not succeeded.
abbrev pub Fails : {A : Type 0} → Outcome A → Type 0
Fails r = (e : LeaseDomainError) × (r.1 ≡ err e)

after_deadlines-Fails :
    (e : LeaseDomainError) (target : LeaseStatus) (k : Lease → Outcome (Unit {0}))
    (r : Outcome Bool)
    → Fails (after_deadlines (err e) target k r)
after_deadlines-Fails e target k (m, ok d) = (e, refl)
after_deadlines-Fails e target k (m, err x) = (e, refl)

module _ (crates : Crates) (l : Lease) (control : LeaseControl) {e : LeaseDomainError}
    (refused : validate_control l control ≡ err e) where
  close-Fails : (reason : LeaseReasonCode) (now : ClockSample) → Fails (close l control reason now)
  unfolding close
  close-Fails reason now = elim (Result-cases (validate_caller l control)) [
    | inr (x, h) ↦ (x, rw (h, close))
    | inl (u, h) ↦
        rw (h, refused, close)
          (after_deadlines-Fails e LeaseStatus.closed (finish_closing reason)
            (enforce_deadlines l now))
  ]

  revoke_controlled-Fails : (now : ClockSample) → Fails (revoke_controlled l control now)
  unfolding revoke_controlled
  revoke_controlled-Fails now = elim (Result-cases (validate_caller l control)) [
    | inr (x, h) ↦ (x, rw (h, revoke_controlled))
    | inl (u, h) ↦
        rw (h, refused, revoke_controlled)
          (after_deadlines-Fails e LeaseStatus.revoked finish_revoking (enforce_deadlines l now))
  ]

  acknowledge_renewal-Fails : (now : ClockSample) → Fails (acknowledge_renewal l control now)
  unfolding acknowledge_renewal
  acknowledge_renewal-Fails now = (e, rw (refused, acknowledge_renewal))

  begin_renewal-Fails :
      (policy : EffectivePolicy) (now : ClockSample)
      → Fails (begin_renewal crates l control policy now)
  unfolding begin_renewal
  begin_renewal-Fails policy now = elim (Result-cases (validate_caller l control)) [
    | inr (x, h) ↦ (x, rw (h, begin_renewal))
    | inl (u, h) ↦ (e, rw (h, refused, begin_renewal))
  ]

  launch_checks-fails :
      (policy : EffectivePolicy) (n : ℕ)
      → (x : LeaseDomainError) × (launch_checks crates
            (record l { last_monotonic = n })
            control
            policy
          ≡ err x)
  unfolding launch_checks
  launch_checks-fails policy n =
      elim (Result-cases (require_status (record l { last_monotonic = n }) LeaseStatus.active)) [
        | inr (x, h) ↦ (x, rw (h, launch_checks))
        | inl (u, h) ↦ (e, rw (h, launch_checks) (rw (observed n) refl))
      ]
    where
      observed : (n : ℕ) → validate_control (record l { last_monotonic = n }) control ≡ err e
      observed n = unfold validate_control fencing_generation in refused

  authorize_launch-Fails :
      (policy : EffectivePolicy) (now : ClockSample)
      → Fails (authorize_launch crates l control policy now)
  unfolding authorize_launch
  authorize_launch-Fails policy now = elim (Result-cases (validate_caller l control)) [
    | inr (x, h) ↦ (x, rw (h, authorize_launch))
    | inl (u, h) ↦ elim (enforce_deadlines_cases l now) [
      | inl (x, q) ↦ (x, rw (h, q, authorize_launch))
      | inr (inl (p, d, q)) ↦
          let (x, k) = launch_checks-fails policy now.monotonic in
          (x, rw (h, q, authorize_launch) (rw (k, launch)))
      | inr (inr (s, p, d, q)) ↦ (
        state_error (record l { last_monotonic = now.monotonic; state = s }) LeaseStatus.active,
        rw (h, q, authorize_launch),
      )
    ]
  ]

-- The five operations that take a control.
pub record AllFail (crates : Crates) (l : Lease) (control : LeaseControl) (policy : EffectivePolicy)
    (reason : LeaseReasonCode) (now : ClockSample) : Type 0 where
  pub begin_renewal_fails : Fails (begin_renewal crates l control policy now)
  pub acknowledge_fails : Fails (acknowledge_renewal l control now)
  pub close_fails : Fails (close l control reason now)
  pub revoke_fails : Fails (revoke_controlled l control now)
  pub launch_fails : Fails (authorize_launch crates l control policy now)

-- No operation succeeds for a control that differs from the lease in its caller, tenant, run, role,
-- host or fencing generation.
pub mismatch-AllFail :
    (crates : Crates) (l : Lease) (control : LeaseControl) (policy : EffectivePolicy)
    (reason : LeaseReasonCode) (now : ClockSample)
    → ¬ ControlMatches l control
    → AllFail crates l control policy reason now
mismatch-AllFail crates l control policy reason now differs =
    elim (Result-cases (validate_control l control)) [
      | inl (u, h) ↦ absurd (differs ((validate_control_iff l control).0 h))
      | inr (e, h) ↦ record {
        begin_renewal_fails = begin_renewal-Fails crates l control h policy now;
        acknowledge_fails = acknowledge_renewal-Fails crates l control h now;
        close_fails = close-Fails crates l control h reason now;
        revoke_fails = revoke_controlled-Fails crates l control h now;
        launch_fails = authorize_launch-Fails crates l control h policy now;
      }
    ]
