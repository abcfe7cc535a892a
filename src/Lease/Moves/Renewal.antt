-- ===== src/Lease/Moves/Renewal.antt =====
-- The moves of a renewal and of a launch.
use aictx.Base.{◌≡◌, refl, inl, inr, arith, ok, Result-cases, Bool-cases, ◌==◌, text_eq}
use aictx.Contracts.Types.{LeaseReasonCode}
use aictx.Policy.Digest.{digest}
use aictx.Contracts.Request.{Crates}
use aictx.Policy.Types.{EffectivePolicy}
use aictx.Lease.Clock.{ClockSample}
use aictx.Lease.State.{LeaseControl, ResolvedAuthority, LeaseState, Lease, status_of, authority_of}
use aictx.Lease.Checks.{validate_caller, validate_control, require_status, revocation_reason}
use aictx.Lease.Renewal.{
  start_renewing, launch, launch_checks, renewal, begin_renewal, authorize_launch,
}
use aictx.Lease.Move.{
  Move, tick, lapse, renewing, revocation, Moves, stay, move, enforce_deadlines_cases, AtMostOne,
  after_tick,
}

module _ (crates : Crates) where
  start_renewing_move :
      (policy : EffectivePolicy) (now : ClockSample) (m : Lease)
      → m.last_monotonic ≡ now.monotonic
      → AtMostOne crates m (start_renewing crates m policy now).0
  unfolding start_renewing
  start_renewing_move policy now m e = elim (Result-cases (renewal crates m policy now)) [
    | inr (x, h) ↦ rw (h, start_renewing) (inl refl)
    | inl (r, h) ↦ rw (h, start_renewing) (inr (renewing policy now r e h refl))
  ]

  pub begin_renewal-Moves :
      (l : Lease) (control : LeaseControl) (policy : EffectivePolicy) (now : ClockSample)
      → Moves crates l (begin_renewal crates l control policy now).0
  unfolding begin_renewal
  begin_renewal-Moves l control policy now = elim (Result-cases (validate_caller l control)) [
    | inr (e, h) ↦ rw (h, begin_renewal) (stay refl)
    | inl (u, h) ↦ elim (Result-cases (validate_control l control)) [
      | inr (e, h') ↦ elim (enforce_deadlines_cases l now) [
        | inl (x, q) ↦ rw (h, h', q, begin_renewal) (stay refl)
        | inr (inl (p, d, q)) ↦ rw (h, h', q, begin_renewal) (move (tick now p d refl))
        | inr (inr (s, p, d, q)) ↦ rw (h, h', q, begin_renewal) (move (lapse now s p d refl))
      ]
      | inl (u', h') ↦ elim (enforce_deadlines_cases l now) [
        | inl (x, q) ↦ rw (h, h', q, begin_renewal) (stay refl)
        | inr (inl (p, d, q)) ↦
            rw (h, h', q, begin_renewal)
              (after_tick crates l _ now p d (start_renewing_move policy now _ refl))
        | inr (inr (s, p, d, q)) ↦ rw (h, h', q, begin_renewal) (move (lapse now s p d refl))
      ]
    ]
  ]

  launch_checks-eq-ok :
      (m : Lease) (control : LeaseControl) (policy : EffectivePolicy) (s : LeaseState)
      {a : ResolvedAuthority}
      → m.state ≡ s
      → launch_checks crates m control policy ≡ ok a
      → m.state ≡ LeaseState.active a
  unfolding launch_checks require_status authority_of
  launch_checks-eq-ok m control policy (LeaseState.active b) e h = ground arith
  launch_checks-eq-ok m control policy s e h = absurd (ground arith)

  launch_move :
      (m : Lease) (control : LeaseControl) (policy : EffectivePolicy)
      → AtMostOne crates m (launch crates m control policy).0
  unfolding launch
  launch_move m control policy = elim (Result-cases (launch_checks crates m control policy)) [
    | inr (x, h) ↦ rw (h, launch) (inl refl)
    | inl (a, h) ↦
        rw (h, launch)
          (elim (Bool-cases (a.effective_policy_digest == digest crates policy)) [
            | inl t ↦ rw t (inl refl)
            | inr f ↦
                rw f (inr (revoke_active a (launch_checks-eq-ok m control policy m.state refl h)))
          ])
  ]
    where
      revoke_active :
          (a : ResolvedAuthority)
          → m.state ≡ LeaseState.active a
          → Move crates m (record m { state = LeaseState.revoked a LeaseReasonCode.policy_revoked })
      revoke_active a e =
          unfold status_of authority_of revocation_reason in
          revocation a LeaseReasonCode.policy_revoked (ground arith) (ground arith) refl refl

  pub authorize_launch-Moves :
      (l : Lease) (control : LeaseControl) (policy : EffectivePolicy) (now : ClockSample)
      → Moves crates l (authorize_launch crates l control policy now).0
  unfolding authorize_launch
  authorize_launch-Moves l control policy now = elim (Result-cases (validate_caller l control)) [
    | inr (e, h) ↦ rw (h, authorize_launch) (stay refl)
    | inl (u, h) ↦ elim (enforce_deadlines_cases l now) [
      | inl (x, q) ↦ rw (h, q, authorize_launch) (stay refl)
      | inr (inl (p, d, q)) ↦
          rw (h, q, authorize_launch) (after_tick crates l _ now p d (launch_move _ control policy))
      | inr (inr (s, p, d, q)) ↦ rw (h, q, authorize_launch) (move (lapse now s p d refl))
    ]
  ]
