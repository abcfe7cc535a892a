-- ===== src/Lease/Moves/Activation.antt =====
-- The moves of a refusal and of an activation.
use aictx.Base.{◌≡◌, refl, none, inl, inr, ok, Result-cases, Bool-cases, ◌==◌, text_eq}
use aictx.Contracts.Types.{LeaseStatus, RefusalCode}
use aictx.Contracts.Request.{Crates}
use aictx.Policy.Types.{EffectivePolicy}
use aictx.Lease.Clock.{ClockSample}
use aictx.Lease.State.{LeaseResolution, LeaseState, Lease}
use aictx.Lease.Checks.{require_status}
use aictx.Lease.Operations.{due, refuse}
use aictx.Lease.Activation.{activate_prepared, PreparedActivation, preparation, activate}
use aictx.Lease.Move.{
  tick, refusal, activation, Moves, stay, move, requested_state, AtMostOne, after_tick,
  prepare_activation_cases,
}

module _ (crates : Crates) where
  pub refuse-Moves : (l : Lease) (code : RefusalCode) → Moves crates l (refuse l code).0
  unfolding refuse
  refuse-Moves l code = elim (Result-cases (require_status l LeaseStatus.requested)) [
    | inr (e, h) ↦ rw (h, refuse) (stay refl)
    | inl (u, h) ↦ rw (h, refuse) (move (refusal code (requested_state l l.state refl h) refl))
  ]

  activate_prepared_move :
      (policy : EffectivePolicy) (resolution : LeaseResolution) (now : ClockSample) (m : Lease)
      (p : PreparedActivation)
      → m.state ≡ LeaseState.requested
      → m.last_monotonic ≡ now.monotonic
      → preparation crates m policy resolution now ≡ ok p
      → AtMostOne crates m (activate_prepared m p).0
  unfolding activate_prepared
  activate_prepared_move policy resolution now m p e h q =
      elim (Result-cases (require_status m LeaseStatus.requested)) [
        | inr (x, k) ↦ rw (k, activate_prepared) (inl refl)
        | inl (u, k) ↦ elim (Bool-cases (m.binding.lease_id == p.lease_id)) [
          | inr f ↦ rw (k, f, activate_prepared) (inl refl)
          | inl t ↦
              rw (k, t, activate_prepared) (inr (activation policy resolution now p e h q refl))
        ]
      ]

  pub activate-Moves :
      (l : Lease) (policy : EffectivePolicy) (resolution : LeaseResolution) (now : ClockSample)
      → Moves crates l (activate crates l policy resolution now).0
  unfolding activate
  activate-Moves l policy resolution now =
      elim (prepare_activation_cases crates l policy resolution now) [
        | inl (x, h) ↦ rw (h, activate) (stay refl)
        | inr (e, p, h) ↦
            elim (Result-cases (
              preparation crates (record l { last_monotonic = now.monotonic }) policy resolution
                now)) [
                  | inr (x, k) ↦ rw (h, activate) (rw k (move (tick now p (not_due e) refl)))
                  | inl (a, k) ↦
                      rw (h, activate)
                        (rw k (
                          after_tick crates l _ now p (not_due e)
                            (activate_prepared_move policy resolution now _ a e refl k)))
                ]
      ]
    where
      not_due : l.state ≡ LeaseState.requested → due l.state now ≡ none
      not_due e = rw e (unfold due in refl)
