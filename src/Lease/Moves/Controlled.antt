-- ===== src/Lease/Moves/Controlled.antt =====
-- The moves of the operations that do not read the policy.
use aictx.Base.{
  ◌≤◌, ◌≡◌, refl, true, some, inl, inr, arith, ok, err, Result-cases, Bool-cases, text_eq,
}
use aictx.Contracts.Types.{LeaseStatus, LeaseReasonCode}
use aictx.Contracts.Request.{Crates}
use aictx.Lease.Clock.{ClockSample}
use aictx.Lease.State.{LeaseControl, LeaseState, Lease, status, status_of, authority_of}
use aictx.Lease.Checks.{
  Guard, validate_caller, validate_control, require_status, require_active_or_renewing, is_live,
  revocation_reason, closing_reason, error_reason,
}
use aictx.Lease.Operations.{
  due, enforce_deadlines, after_deadlines, Outcome, finish_closing, finish_revoking,
  finish_acknowledging, revoke_renewal, close, revoke, revoke_controlled, mark_error,
  acknowledge_renewal,
}
use aictx.Lease.Move.{
  tick, lapse, settling, closing, revocation, failure, Moves, stay, move, enforce_deadlines_cases,
  AtMostOne, at_most_one, after_tick,
}

-- What the deadlines make of a state is no pending renewal.
revoke_renewal-due :
    (s : LeaseState) (now : ClockSample) {t : LeaseState}
    → due s now ≡ some t
    → revoke_renewal t ≡ t
unfolding due revoke_renewal
revoke_renewal-due (LeaseState.active a) now {t} h = ground arith
revoke_renewal-due (LeaseState.renewing a w m) now h = ground arith
revoke_renewal-due (LeaseState.error a r) now h = ground arith
revoke_renewal-due s now h = absurd (ground arith)

module _ (crates : Crates) where
  -- An operation that enforces the deadlines and goes on only if none was reached.
  controlled :
      (l : Lease) (now : ClockSample) (target : LeaseStatus) (refused : Guard)
      (k : Lease → Outcome (Unit {0}))
      → ((m : Lease) → refused ≡ ok tt → AtMostOne crates m (k m).0)
      → Moves crates l (after_deadlines refused target k (enforce_deadlines l now)).0
  controlled l now target (err e) k moves = elim (enforce_deadlines_cases l now) [
    | inl (x, h) ↦ rw h (stay refl)
    | inr (inl (p, d, h)) ↦ rw h (move (tick now p d refl))
    | inr (inr (s, p, d, h)) ↦ rw h (move (lapse now s p d refl))
  ]
  controlled l now target (ok u) k moves = elim (enforce_deadlines_cases l now) [
    | inl (x, h) ↦ rw h (stay refl)
    | inr (inl (p, d, h)) ↦ rw h (after_tick crates l _ now p d (moves _ refl))
    | inr (inr (s, p, d, h)) ↦ rw h (move (lapse now s p d refl))
  ]

  finish_closing_state :
      (reason : LeaseReasonCode) (m : Lease) (s : LeaseState)
      → m.state ≡ s
      → closing_reason reason ≡ true
      → AtMostOne crates m (finish_closing reason m).0
  unfolding finish_closing require_active_or_renewing authority_of
  finish_closing_state reason m (LeaseState.active a) e h =
      inr (closing a reason (ground arith) (ground arith) h (ground arith))
  finish_closing_state reason m (LeaseState.renewing a w n) e h =
      inr (closing a reason (ground arith) (ground arith) h (ground arith))
  finish_closing_state reason m s e h = inl (ground arith)

  pub close-Moves :
      (l : Lease) (control : LeaseControl) (reason : LeaseReasonCode) (now : ClockSample)
      → Moves crates l (close l control reason now).0
  unfolding close
  close-Moves l control reason now = elim (Result-cases (validate_caller l control)) [
    | inr (e, h) ↦ rw (h, close) (stay refl)
    | inl (u, h) ↦
        rw (h, close)
          (controlled l now LeaseStatus.closed _ (finish_closing reason)
            (λ m r. finish_closing_state reason m m.state refl (ground arith)))
  ]

  pub revoke_state :
      (reason : LeaseReasonCode) (m : Lease) (s : LeaseState)
      → m.state ≡ s
      → AtMostOne crates m (revoke m reason).0
  unfolding revoke authority_of status_of
  revoke_state reason m s e = elim (Bool-cases (revocation_reason reason)) [
    | inr f ↦ inl (ground arith)
    | inl t ↦ elim (Bool-cases (is_live (status_of s))) [
      | inr f ↦ inl (ground arith)
      | inl h ↦ revoke_live s e t h
    ]
  ]
    where
      revoke_live :
          (s : LeaseState)
          → m.state ≡ s
          → revocation_reason reason ≡ true
          → is_live (status_of s) ≡ true
          → AtMostOne crates m (revoke m reason).0
      revoke_live (LeaseState.active a) e t h =
          inr (revocation a reason (ground arith) (ground arith) t (ground arith))
      revoke_live (LeaseState.renewing a w n) e t h =
          inr (revocation a reason (ground arith) (ground arith) t (ground arith))
      revoke_live (LeaseState.error a r) e t h =
          inr (revocation a reason (ground arith) (ground arith) t (ground arith))
      revoke_live s e t h = absurd (ground arith)

  finish_revoking_state : (m : Lease) → AtMostOne crates m (finish_revoking m).0
  unfolding finish_revoking
  finish_revoking_state m = elim (Bool-cases (is_live (status m))) [
    | inr f ↦ inl (ground arith)
    | inl t ↦ rw (t, finish_revoking) (revoke_state LeaseReasonCode.operator_revoked m m.state refl)
  ]

  pub revoke_controlled-Moves :
      (l : Lease) (control : LeaseControl) (now : ClockSample)
      → Moves crates l (revoke_controlled l control now).0
  unfolding revoke_controlled
  revoke_controlled-Moves l control now = elim (Result-cases (validate_caller l control)) [
    | inr (e, h) ↦ rw (h, revoke_controlled) (stay refl)
    | inl (u, h) ↦
        rw (h, revoke_controlled)
          (controlled l now LeaseStatus.revoked _ finish_revoking (λ m r. finish_revoking_state m))
  ]

  pub mark_error_state :
      (reason : LeaseReasonCode) (m : Lease) (s : LeaseState)
      → m.state ≡ s
      → AtMostOne crates m (mark_error m reason).0
  unfolding mark_error require_active_or_renewing authority_of
  mark_error_state reason m s e = elim (Bool-cases (error_reason reason)) [
    | inr f ↦ inl (ground arith)
    | inl t ↦ mark s e t
  ]
    where
      mark :
          (s : LeaseState)
          → m.state ≡ s
          → error_reason reason ≡ true
          → AtMostOne crates m (mark_error m reason).0
      mark (LeaseState.active a) e t =
          inr (failure a reason (ground arith) (ground arith) t (ground arith))
      mark (LeaseState.renewing a w n) e t =
          inr (failure a reason (ground arith) (ground arith) t (ground arith))
      mark s e t = inl (ground arith)

  finish_acknowledging_state :
      (m : Lease) (s : LeaseState) → m.state ≡ s → AtMostOne crates m (finish_acknowledging m).0
  unfolding finish_acknowledging require_status
  finish_acknowledging_state m (LeaseState.renewing a w n) e = inr (settling a w n e (ground arith))
  finish_acknowledging_state m s e = inl (ground arith)

  revoke_renewal_state :
      (m : Lease) (s : LeaseState)
      → m.state ≡ s
      → AtMostOne crates m (record m { state = revoke_renewal m.state })
  unfolding revoke_renewal authority_of status_of revocation_reason
  revoke_renewal_state m (LeaseState.renewing a w n) e = inr (
      revocation a LeaseReasonCode.renewal_acknowledgement_failed (ground arith) (ground arith) refl
        (ground arith))
  revoke_renewal_state m s e = inl (ground arith)

  pub acknowledge_renewal-Moves :
      (l : Lease) (control : LeaseControl) (now : ClockSample)
      → Moves crates l (acknowledge_renewal l control now).0
  unfolding acknowledge_renewal
  acknowledge_renewal-Moves l control now = elim (Result-cases (validate_control l control)) [
    | inl (u, h) ↦
        rw (h, acknowledge_renewal)
          (controlled l now LeaseStatus.active (ok tt) finish_acknowledging
            (λ m r. finish_acknowledging_state m m.state refl))
    | inr (e, h) ↦
        rw (h, acknowledge_renewal)
          (elim (enforce_deadlines_cases l now) [
            | inl (x, q) ↦ rw q (at_most_one crates (revoke_renewal_state l l.state refl))
            | inr (inl (p, d, q)) ↦
                rw q (after_tick crates l _ now p d (revoke_renewal_state _ l.state refl))
            | inr (inr (s, p, d, q)) ↦ rw q (lapsed s p d)
          ])
  ]
    where
      lapsed :
          (s : LeaseState)
          → l.last_monotonic ≤ now.monotonic
          → due l.state now ≡ some s
          → Moves crates l (record l { last_monotonic = now.monotonic; state = revoke_renewal s })
      lapsed s p d = move (lapse now s p d (rw (revoke_renewal-due l.state now d) refl))
