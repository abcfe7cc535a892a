-- ===== src/Lease/Move.antt =====
-- The transition relation of a lease, and the cases of the operations that read a clock.
use aictx.Base.{
  ℕ, ◌≤◌, ◌≡◌, refl, true, false, none, some, ◌⊎◌, inl, inr, arith, ok, err, Result-cases,
  Option-cases, ◌>>◌, refuse_if, text_eq,
}
use aictx.Contracts.Types.{LeaseStatus, LeaseReasonCode, RefusalCode}
use aictx.Contracts.Temporal.{UtcTimestamp, is_before}
use aictx.Contracts.Request.{Crates}
use aictx.Policy.Types.{EffectivePolicy}
use aictx.Lease.Error.{LeaseDomainError}
use aictx.Lease.Clock.{ClockSample}
use aictx.Lease.State.{
  LeaseResolution, ResolvedAuthority, LeaseState, Lease, status_of, authority_of,
}
use aictx.Lease.Checks.{
  require_status, is_active_or_renewing, is_live, revocation_reason, closing_reason, error_reason,
}
use aictx.Lease.Operations.{
  clock_guard, monotonic_guard, observe_activation_clock, due, enforce_deadlines,
}
use aictx.Lease.Renewal.{Renewal, renewal}
use aictx.Lease.Activation.{prepare_activation, PreparedActivation, preparation}

pub data Move (crates : Crates) (l u : Lease) : Type 0 where
  -- Time passes and no deadline is reached.
  tick :
      (now : ClockSample)
      → l.last_monotonic ≤ now.monotonic
      → due l.state now ≡ none
      → u ≡ record l { last_monotonic = now.monotonic }
      → Move crates l u
  -- A deadline is reached.
  lapse :
      (now : ClockSample) (s : LeaseState)
      → l.last_monotonic ≤ now.monotonic
      → due l.state now ≡ some s
      → u ≡ record l { last_monotonic = now.monotonic; state = s }
      → Move crates l u
  refusal :
      (code : RefusalCode)
      → l.state ≡ LeaseState.requested
      → u ≡ record l { state = LeaseState.refused code }
      → Move crates l u
  activation :
      (policy : EffectivePolicy) (resolution : LeaseResolution) (now : ClockSample)
      (p : PreparedActivation)
      → l.state ≡ LeaseState.requested
      → l.last_monotonic ≡ now.monotonic
      → preparation crates l policy resolution now ≡ ok p
      → u ≡ record l { state = LeaseState.active p.authority }
      → Move crates l u
  renewing :
      (policy : EffectivePolicy) (now : ClockSample) (r : Renewal)
      → l.last_monotonic ≡ now.monotonic
      → renewal crates l policy now ≡ ok r
      → u ≡ record l {
        state =
            LeaseState.renewing r.authority r.acknowledgement_deadline
              r.monotonic_acknowledgement_deadline;
      }
      → Move crates l u
  settling :
      (a : ResolvedAuthority) (w : UtcTimestamp) (m : ℕ)
      → l.state ≡ LeaseState.renewing a w m
      → u ≡ record l { state = LeaseState.active a }
      → Move crates l u
  closing :
      (a : ResolvedAuthority) (reason : LeaseReasonCode)
      → is_active_or_renewing (status_of l.state) ≡ true
      → authority_of l.state ≡ some a
      → closing_reason reason ≡ true
      → u ≡ record l { state = LeaseState.closed a reason }
      → Move crates l u
  revocation :
      (a : ResolvedAuthority) (reason : LeaseReasonCode)
      → is_live (status_of l.state) ≡ true
      → authority_of l.state ≡ some a
      → revocation_reason reason ≡ true
      → u ≡ record l { state = LeaseState.revoked a reason }
      → Move crates l u
  failure :
      (a : ResolvedAuthority) (reason : LeaseReasonCode)
      → is_active_or_renewing (status_of l.state) ≡ true
      → authority_of l.state ≡ some a
      → error_reason reason ≡ true
      → u ≡ record l { state = LeaseState.error a reason }
      → Move crates l u

-- The moves of one call: none, one, or time passing without a deadline and then one.
pub data Moves (crates : Crates) (l u : Lease) : Type 0 where
  stay : u ≡ l → Moves crates l u
  move : Move crates l u → Moves crates l u
  later_move :
      (now : ClockSample)
      → l.last_monotonic ≤ now.monotonic
      → due l.state now ≡ none
      → Move crates (record l { last_monotonic = now.monotonic }) u
      → Moves crates l u

-- The three ways in which the deadlines are enforced.
pub enforce_deadlines_cases :
    (l : Lease) (now : ClockSample)
    → ((e : LeaseDomainError) × (enforce_deadlines l now ≡ (l, err e)))
      ⊎ ((l.last_monotonic ≤ now.monotonic)
          × (due l.state now ≡ none)
          × (enforce_deadlines l now ≡ (record l { last_monotonic = now.monotonic }, ok false)))
      ⊎ ((s : LeaseState) × (l.last_monotonic ≤ now.monotonic)
          × (due l.state now ≡ some s)
          × (enforce_deadlines l now
              ≡ (record l { last_monotonic = now.monotonic; state = s }, ok true)))
unfolding enforce_deadlines
enforce_deadlines_cases l now = elim (Result-cases (clock_guard l now >> monotonic_guard l now)) [
  | inr (e, h) ↦ inl (e, ground arith)
  | inl (u, h) ↦ elim (Option-cases (due l.state now)) [
    | inl d ↦ inr (inl (ground arith, d, ground arith))
    | inr (s, d) ↦ inr (inr (s, ground arith, d, ground arith))
  ]
]

-- An activation records the sample, or fails and changes nothing.
pub observe_activation_clock_cases :
    (l : Lease) (now : ClockSample)
    → ((e : LeaseDomainError) × (observe_activation_clock l now ≡ (l, err e)))
      ⊎ ((l.last_monotonic ≤ now.monotonic)
          × (observe_activation_clock l now ≡ (record l { last_monotonic = now.monotonic }, ok tt)))
unfolding observe_activation_clock
observe_activation_clock_cases l now =
    elim (Result-cases (
      clock_guard l now
      >> refuse_if (is_before now.wall l.issuance_clock.wall) LeaseDomainError.clock_before_issuance
      >> monotonic_guard l now)) [
        | inr (e, h) ↦ inl (e, ground arith)
        | inl (u, h) ↦ inr (ground arith, ground arith)
      ]

pub requested_state :
    (l : Lease) (s : LeaseState) {u : Unit {0}}
    → l.state ≡ s
    → require_status l LeaseStatus.requested ≡ ok u
    → l.state ≡ LeaseState.requested
unfolding require_status
requested_state l LeaseState.requested e h = e
requested_state l s e h = absurd (ground arith)

module _ (crates : Crates) where
  abbrev pub AtMostOne : Lease → Lease → Type 0
  AtMostOne l u = (u ≡ l) ⊎ Move crates l u

  pub at_most_one : {l u : Lease} → AtMostOne l u → Moves crates l u
  at_most_one (inl e) = stay e
  at_most_one (inr m) = move m

  pub after_tick :
      (l u : Lease) (now : ClockSample)
      → l.last_monotonic ≤ now.monotonic
      → due l.state now ≡ none
      → AtMostOne (record l { last_monotonic = now.monotonic }) u
      → Moves crates l u
  after_tick l u now h d (inl e) = move (tick now h d e)
  after_tick l u now h d (inr m) = later_move now h d m

  -- A preparation fails before the clock has been recorded, or answers at the recorded sample.
  pub prepare_activation_cases :
      (l : Lease) (policy : EffectivePolicy) (resolution : LeaseResolution) (now : ClockSample)
      → ((e : LeaseDomainError) × (prepare_activation crates l policy resolution now ≡ (l, err e)))
        ⊎ ((l.state ≡ LeaseState.requested)
            × (l.last_monotonic ≤ now.monotonic)
            × (prepare_activation crates l policy resolution now ≡ (
              record l { last_monotonic = now.monotonic },
              preparation crates
                  (record l { last_monotonic = now.monotonic })
                  policy
                  resolution
                  now,
            )))
  unfolding prepare_activation
  prepare_activation_cases l policy resolution now =
      elim (Result-cases (require_status l LeaseStatus.requested)) [
        | inr (e, h) ↦ inl (e, rw (h, prepare_activation) refl)
        | inl (u, h) ↦ elim (observe_activation_clock_cases l now) [
          | inl (x, q) ↦ inl (x, rw (h, q, prepare_activation) refl)
          | inr (p, q) ↦
              inr (requested_state l l.state refl h, p, rw (h, q, prepare_activation) refl)
        ]
      ]
