-- ===== src/Lease/Authority.antt =====
-- What a successful activation and a successful renewal guarantee of the new authority.
use aictx.Base.{ℕ, ◌+◌, ◌≤◌, ◌<◌, ◌≡◌, subst, inl, inr, arith, ok, Result-cases, >>=-eq-ok, min}
use aictx.Contracts.Temporal.{UtcTimestamp, maximum_generation}
use aictx.Contracts.Temporal
use aictx.Contracts.Request.{Crates}
use aictx.Policy.Types.{EffectivePolicy}
use aictx.Policy.Digest.{digest}
use aictx.Lease.Clock.{ClockSample, checked_add_seconds}
use aictx.Lease.State.{LeaseResolution, ResolvedAuthority, LeaseState, Lease}
use aictx.Lease.Checks.{validate_policy_binding, limits_match}
use aictx.Lease.Renewal.{
  Renewal, renewal, Ceiling, renewed_authority, renewal_ceiling, acknowledgement, active_authority,
  next_generation,
}
use aictx.Lease.Activation.{PreparedActivation, preparation, first_authority}

-- The authority of a first activation, relative to the policy and the clock of issuance.
pub record FirstFacts (l : Lease) (policy : EffectivePolicy) (now : ClockSample)
    (a : ResolvedAuthority) : Type 0 where
  pub generation : a.fencing_generation ≡ 1
  pub after_issuance : l.issuance_clock.wall.instant < a.expires_at.instant
  pub within_maximum : a.expires_at.instant ≤ a.maximum_expires_at.instant
  pub within_signed : a.maximum_expires_at.instant ≤ policy.signed_expires_at.instant
  pub pending : now.monotonic < a.monotonic_deadline
  pub monotonic_within : a.monotonic_deadline ≤ a.monotonic_maximum_deadline
  pub anchor : a.interval_anchor_monotonic ≡ l.issuance_clock.monotonic

first_authority-FirstFacts :
    (crates : Crates) (l : Lease) (policy : EffectivePolicy) (resolution : LeaseResolution)
    (now : ClockSample) {a : ResolvedAuthority}
    → first_authority crates l policy resolution now ≡ ok a
    → FirstFacts l policy now a
unfolding first_authority Temporal.fencing_generation
first_authority-FirstFacts crates l policy resolution now h = ground arith

-- The limits of a policy that a binding admits.
pub record BoundFacts (l : Lease) (policy : EffectivePolicy) : Type 0 where
  pub signed : policy.signed_expires_at ≡ l.binding.signed_authorization_expires_at
  pub ttl : policy.maximum_ttl_seconds ≤ l.binding.signed_maximum_ttl_seconds
  pub session : policy.maximum_session_seconds ≤ l.binding.signed_maximum_session_seconds
  pub requested_ttl : policy.requested_ttl_seconds ≤ policy.maximum_ttl_seconds
  pub requested_session : policy.requested_ttl_seconds ≤ policy.maximum_session_seconds

pub validate_policy_binding-BoundFacts :
    (crates : Crates) (l : Lease) (policy : EffectivePolicy) {u : Unit {0}}
    → validate_policy_binding crates l policy ≡ ok u
    → BoundFacts l policy
unfolding validate_policy_binding limits_match
validate_policy_binding-BoundFacts crates l policy h = ground arith

pub preparation-facts :
    (crates : Crates) (l : Lease) (policy : EffectivePolicy) (resolution : LeaseResolution)
    (now : ClockSample) {p : PreparedActivation}
    → preparation crates l policy resolution now ≡ ok p
    → BoundFacts l policy × FirstFacts l policy now p.authority
unfolding preparation
preparation-facts crates l policy resolution now {p} h =
    let (u, bound, rest) = >>=-eq-ok (validate_policy_binding crates l policy) _ h in
    (
      validate_policy_binding-BoundFacts crates l policy bound,
      elim (Result-cases (first_authority crates l policy resolution now)) [
        | inr (e, k) ↦ absurd (ground arith)
        | inl (a, k) ↦
            subst (FirstFacts l policy now) (ground arith)
              (first_authority-FirstFacts crates l policy resolution now k)
      ],
    )

-- The authority of a renewal, relative to the one that it replaces.
pub record RenewedFacts (crates : Crates) (policy : EffectivePolicy) (now : ClockSample)
    (old : ResolvedAuthority) (r : Renewal) : Type 0 where
  pub generation : r.authority.fencing_generation ≡ old.fencing_generation + 1
  pub generation_bounded : r.authority.fencing_generation ≤ maximum_generation
  pub extends : old.expires_at.instant < r.authority.expires_at.instant
  pub monotonic_extends : old.monotonic_deadline < r.authority.monotonic_deadline
  pub within_maximum : r.authority.expires_at.instant ≤ r.authority.maximum_expires_at.instant
  pub monotonic_within : r.authority.monotonic_deadline ≤ r.authority.monotonic_maximum_deadline
  pub maximum_narrows : r.authority.maximum_expires_at.instant ≤ old.maximum_expires_at.instant
  pub monotonic_maximum_narrows :
      r.authority.monotonic_maximum_deadline ≤ old.monotonic_maximum_deadline
  pub within_signed : r.authority.maximum_expires_at.instant ≤ policy.signed_expires_at.instant
  pub anchor : r.authority.interval_anchor_monotonic ≡ now.monotonic
  pub resolution : r.authority.resolution ≡ old.resolution
  pub acknowledged_within : r.acknowledgement_deadline.instant ≤ r.authority.expires_at.instant
  pub monotonic_acknowledged_within :
      r.monotonic_acknowledgement_deadline ≤ r.authority.monotonic_deadline
  pub acknowledged :
      r.monotonic_acknowledgement_deadline
      ≡ min (now.monotonic + 30000000000) r.authority.monotonic_deadline
  pub policy_digest : digest crates policy ≡ r.authority.effective_policy_digest

next_generation-eq-ok :
    (g : ℕ) {n : ℕ} → next_generation g ≡ ok n → (n ≡ g + 1) × (n ≤ maximum_generation)
unfolding next_generation Temporal.fencing_generation
next_generation-eq-ok g h = ground arith

renewal_ceiling-facts :
    (crates : Crates) (l : Lease) (old : ResolvedAuthority) (policy : EffectivePolicy) {c : Ceiling}
    → renewal_ceiling crates l old policy ≡ ok c
    → (c.wall.instant ≤ old.maximum_expires_at.instant)
      × (c.wall.instant ≤ policy.signed_expires_at.instant)
      × (c.monotonic ≤ old.monotonic_maximum_deadline)
unfolding renewal_ceiling
renewal_ceiling-facts crates l old policy h = ground arith

renewed_authority-facts :
    (crates : Crates) (l : Lease) (old : ResolvedAuthority) (policy : EffectivePolicy)
    (now : ClockSample) {a : ResolvedAuthority}
    → renewed_authority crates l old policy now ≡ ok a
    → (c : Ceiling) × (renewal_ceiling crates l old policy ≡ ok c)
      × (next_generation old.fencing_generation ≡ ok a.fencing_generation)
      × (old.expires_at.instant < a.expires_at.instant)
      × (old.monotonic_deadline < a.monotonic_deadline)
      × (a.expires_at.instant ≤ c.wall.instant)
      × (a.monotonic_deadline ≤ c.monotonic)
      × (a.maximum_expires_at ≡ c.wall)
      × (a.monotonic_maximum_deadline ≡ c.monotonic)
      × (a.interval_anchor_monotonic ≡ now.monotonic)
      × (a.interval_anchor_wall ≡ now.wall)
      × (a.resolution ≡ old.resolution)
      × (a.effective_policy_digest ≡ digest crates policy)
unfolding renewed_authority
renewed_authority-facts crates l old policy now h =
    elim (Result-cases (renewal_ceiling crates l old policy)) [
      | inr (e, k) ↦ absurd (ground arith)
      | inl (c, k) ↦ (
        c,
        k,
        ground arith,
        ground arith,
        ground arith,
        ground arith,
        ground arith,
        ground arith,
        ground arith,
        ground arith,
        ground arith,
        ground arith,
        ground arith,
      )
    ]

acknowledgement-facts :
    (crates : Crates) (renewed : ResolvedAuthority) (now : ClockSample) {r : Renewal}
    → acknowledgement crates renewed now ≡ ok r
    → (r.authority ≡ renewed)
      × (r.acknowledgement_deadline.instant ≤ renewed.expires_at.instant)
      × (r.monotonic_acknowledgement_deadline
          ≡ min (now.monotonic + 30000000000) renewed.monotonic_deadline)
unfolding acknowledgement checked_add_seconds
acknowledgement-facts crates renewed now h = ground arith

renewed-RenewedFacts :
    (crates : Crates) (l : Lease) (old renewed : ResolvedAuthority) (policy : EffectivePolicy)
    (now : ClockSample) {r : Renewal}
    → renewed_authority crates l old policy now ≡ ok renewed
    → acknowledgement crates renewed now ≡ ok r
    → RenewedFacts crates policy now old r
renewed-RenewedFacts crates l old renewed policy now {r} h k =
    let facts = renewed_authority-facts crates l old policy now h in
    ground (
      arith,
      renewed_authority-facts crates l old policy now h,
      renewal_ceiling-facts crates l old policy facts.1,
      next_generation-eq-ok old.fencing_generation facts.2,
      acknowledgement-facts crates renewed now k,
    )

active_authority-eq-ok :
    (crates : Crates) (s : LeaseState) {a : ResolvedAuthority}
    → active_authority crates s ≡ ok a
    → s ≡ LeaseState.active a
unfolding active_authority
active_authority-eq-ok crates (LeaseState.active a) h = ground arith
active_authority-eq-ok crates s h = absurd (ground arith)

-- A renewal starts from an active authority that the policy still binds.
pub renewal-facts :
    (crates : Crates) (l : Lease) (policy : EffectivePolicy) (now : ClockSample) {r : Renewal}
    → renewal crates l policy now ≡ ok r
    → (old : ResolvedAuthority) × (l.state ≡ LeaseState.active old)
      × BoundFacts l policy
      × RenewedFacts crates policy now old r
unfolding renewal
renewal-facts crates l policy now {r} h = elim (Result-cases (active_authority crates l.state)) [
  | inr (e, k) ↦ absurd (ground arith)
  | inl (old, k) ↦ elim (Result-cases (renewed_authority crates l old policy now)) [
    | inr (e, q) ↦ absurd (ground arith)
    | inl (renewed, q) ↦ (
      old,
      active_authority-eq-ok crates l.state k,
      bound,
      renewed-RenewedFacts crates l old renewed policy now q (ground arith),
    )
  ]
]
  where
    bound : BoundFacts l policy
    bound = elim (Result-cases (validate_policy_binding crates l policy)) [
      | inr (e, k) ↦ absurd (ground arith)
      | inl (u, k) ↦ validate_policy_binding-BoundFacts crates l policy k
    ]
