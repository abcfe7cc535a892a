-- ===== src/Lease/Launch.antt =====
-- When a worker may start: `authorize_launch` of src/automation/lease.rs.
use aictx.Base.{
  ◌≤◌, ◌<◌, ◌≡◌, refl, sym, ap, subst, ◌∙◌, ◌↔◌, Bool, false, none, some, Text, inl, inr, arith, ok,
  Result-cases, text_eq,
}
use aictx.Contracts.Types.{LeaseStatus}
use aictx.Contracts.Request.{Crates}
use aictx.Policy.Types.{EffectivePolicy}
use aictx.Policy.Digest.{digest}
use aictx.Lease.Clock.{ClockSample}
use aictx.Lease.State.{
  LeaseControl, ResolvedAuthority, LeaseState, Lease, status_of, authority_of, fencing_generation,
}
use aictx.Lease.Checks.{
  validate_caller, validate_policy_binding, require_status, identities_match, limits_match,
  capacity_matches,
}
use aictx.Lease.Operations.{due, enforce_deadlines}
use aictx.Lease.Renewal.{launch, launch_checks, authorize_launch}
use aictx.Lease.Move.{enforce_deadlines_cases}
use aictx.Lease.Control.{ControlMatches, validate_control_iff}

-- An authority whose deadlines lie ahead on both clocks.
pub record InTime (a : ResolvedAuthority) (now : ClockSample) : Type 0 where
  pub wall : now.wall.instant < a.expires_at.instant
  pub wall_maximum : now.wall.instant < a.maximum_expires_at.instant
  pub monotonic : now.monotonic < a.monotonic_deadline
  pub monotonic_maximum : now.monotonic < a.monotonic_maximum_deadline

-- What a launch requires.
pub record MayLaunch (crates : Crates) (l : Lease) (control : LeaseControl)
    (policy : EffectivePolicy) (now : ClockSample) (a : ResolvedAuthority) : Type 0 where
  pub active : l.state ≡ LeaseState.active a
  pub matches : ControlMatches l control
  pub service : now.service_generation ≡ l.issuance_clock.service_generation
  pub observed : l.last_monotonic ≤ now.monotonic
  pub in_time : InTime a now
  pub bound : validate_policy_binding crates l policy ≡ ok tt
  pub same_policy : a.effective_policy_digest ≡ digest crates policy

due-InTime :
    (a : ResolvedAuthority) (now : ClockSample)
    → (due (LeaseState.active a) now ≡ none) ↔ InTime a now
unfolding due
due-InTime a now = ((λ h. ground arith), (λ v. ground arith))

enforce_deadlines-service :
    (l : Lease) (now : ClockSample) {u : Lease} {b : Bool}
    → enforce_deadlines l now ≡ (u, ok b)
    → now.service_generation ≡ l.issuance_clock.service_generation
unfolding enforce_deadlines
enforce_deadlines-service l now h = ground arith

enforce_deadlines_pass :
    (l : Lease) (now : ClockSample)
    → now.service_generation ≡ l.issuance_clock.service_generation
    → l.last_monotonic ≤ now.monotonic
    → due l.state now ≡ none
    → enforce_deadlines l now ≡ (record l { last_monotonic = now.monotonic }, ok false)
unfolding enforce_deadlines
enforce_deadlines_pass l now s o d = ground arith

active_state :
    (l : Lease) (s : LeaseState) {u : Unit {0}} {a : ResolvedAuthority}
    → l.state ≡ s
    → require_status l LeaseStatus.active ≡ ok u
    → authority_of l.state ≡ some a
    → l.state ≡ LeaseState.active a
unfolding require_status authority_of status_of
active_state l (LeaseState.active b) e h k = ground arith
active_state l s e h k = absurd (ground arith)

module _ (crates : Crates) (l : Lease) (control : LeaseControl) (policy : EffectivePolicy) where
  -- The four checks of a launch, and no others.
  launch_checks_iff :
      (a : ResolvedAuthority)
      → (launch_checks crates l control policy ≡ ok a) ↔ (
          (l.state ≡ LeaseState.active a)
          × ControlMatches l control
          × (validate_policy_binding crates l policy ≡ ok tt))
  unfolding launch_checks
  launch_checks_iff a = (there, back)
    where
      there :
          launch_checks crates l control policy ≡ ok a
          → (l.state ≡ LeaseState.active a)
            × ControlMatches l control
            × (validate_policy_binding crates l policy ≡ ok tt)
      there h = elim (Result-cases (require_status l LeaseStatus.active)) [
        | inr (e, r) ↦ absurd (ground arith)
        | inl (u, r) ↦ (
          active_state l l.state refl r (ground arith),
          (validate_control_iff l control).0 (ground arith),
          ground arith,
        )
      ]

      back :
          (l.state ≡ LeaseState.active a)
            × ControlMatches l control
            × (validate_policy_binding crates l policy ≡ ok tt)
          → launch_checks crates l control policy ≡ ok a
      back (s, m, b) =
          let v = (validate_control_iff l control).1 m in
          unfold require_status authority_of status_of in ground arith

launch_iff :
    (crates : Crates) (m : Lease) (control : LeaseControl) (policy : EffectivePolicy)
    (handle : Text)
    → ((launch crates m control policy).1 ≡ ok handle) ↔ (
        (a : ResolvedAuthority) × (launch_checks crates m control policy ≡ ok a)
        × (a.effective_policy_digest ≡ digest crates policy)
        × (handle ≡ a.resolution.execution_handle))
unfolding launch
launch_iff crates m control policy handle = (
  (λ h. elim (Result-cases (launch_checks crates m control policy)) [
    | inr (e, k) ↦ absurd (ground arith)
    | inl (a, k) ↦ (a, k, ground arith, ground arith)
  ]),
  (λ (a, k, d, e). ground arith),
)

-- A launch that passes the caller's check and the deadlines.
authorize_launch_passes :
    (crates : Crates) (l : Lease) (control : LeaseControl) (policy : EffectivePolicy)
    (now : ClockSample)
    → validate_caller l control ≡ ok tt
    → enforce_deadlines l now ≡ (record l { last_monotonic = now.monotonic }, ok false)
    → authorize_launch crates l control policy now
      ≡ launch crates (record l { last_monotonic = now.monotonic }) control policy
unfolding authorize_launch
authorize_launch_passes crates l control policy now c q = rw (c, q, authorize_launch)

-- A launch that returned a handle passed them.
authorize_launch_passed :
    (crates : Crates) (l : Lease) (control : LeaseControl) (policy : EffectivePolicy)
    (now : ClockSample) {handle : Text}
    → (authorize_launch crates l control policy now).1 ≡ ok handle
    → (validate_caller l control ≡ ok tt)
      × (l.last_monotonic ≤ now.monotonic)
      × (due l.state now ≡ none)
      × (enforce_deadlines l now ≡ (record l { last_monotonic = now.monotonic }, ok false))
unfolding authorize_launch
authorize_launch_passed crates l control policy now h =
    elim (Result-cases (validate_caller l control)) [
      | inr (e, c) ↦ absurd (ground arith)
      | inl (u, c) ↦ elim (enforce_deadlines_cases l now) [
        | inl (e, q) ↦ absurd (ground arith)
        | inr (inl (p, d, q)) ↦ (c, p, d, q)
        | inr (inr (s, p, d, q)) ↦ absurd (ground arith)
      ]
    ]

-- The lease with the sample recorded.
abbrev observed : Lease → ClockSample → Lease
observed l now = record l { last_monotonic = now.monotonic }

launch-MayLaunch :
    (crates : Crates) (l : Lease) (control : LeaseControl) (policy : EffectivePolicy)
    (now : ClockSample) (handle : Text)
    → (authorize_launch crates l control policy now).1 ≡ ok handle
    → (a : ResolvedAuthority) × MayLaunch crates l control policy now a
      × (handle ≡ a.resolution.execution_handle)
unfolding fencing_generation validate_policy_binding identities_match limits_match capacity_matches
launch-MayLaunch crates l control policy now handle h =
    let (c, p, d, q) = authorize_launch_passed crates l control policy now h in
    let (a, k, same, e) =
      (launch_iff crates (observed l now) control policy handle).0
        (sym (ap (λ r. r.1) (authorize_launch_passes crates l control policy now c q)) ∙ h) in
    let (s, m, b) = (launch_checks_iff crates (observed l now) control policy a).0 k in
    (
      a,
      record {
        active = s;
        matches = record {
          caller = m.caller;
          tenant = m.tenant;
          run = m.run;
          role = m.role;
          host = m.host;
          generation = m.generation;
        };
        service = enforce_deadlines-service l now q;
        observed = p;
        in_time = (due-InTime a now).0 (subst (λ t. due t now ≡ none) s d);
        bound = b;
        same_policy = same;
      },
      e,
    )

MayLaunch-launch :
    (crates : Crates) (l : Lease) (control : LeaseControl) (policy : EffectivePolicy)
    (now : ClockSample) (handle : Text) (a : ResolvedAuthority)
    → MayLaunch crates l control policy now a
    → handle ≡ a.resolution.execution_handle
    → (authorize_launch crates l control policy now).1 ≡ ok handle
unfolding fencing_generation validate_policy_binding validate_caller identities_match limits_match
    capacity_matches
MayLaunch-launch crates l control policy now handle a v e =
    ap (λ r. r.1) (authorize_launch_passes crates l control policy now caller passes)
    ∙ (launch_iff crates (observed l now) control policy handle).1 (
      a,
      (launch_checks_iff crates (observed l now) control policy a).1 (v.active, matches, v.bound),
      v.same_policy,
      e,
    )
  where
    caller : validate_caller l control ≡ ok tt
    caller = let c = v.matches.caller in ground arith

    passes : enforce_deadlines l now ≡ (observed l now, ok false)
    passes =
        enforce_deadlines_pass l now v.service v.observed
          (subst (λ t. due t now ≡ none) (sym v.active) ((due-InTime a now).1 v.in_time))

    matches : ControlMatches (observed l now) control
    matches = record {
      caller = v.matches.caller;
      tenant = v.matches.tenant;
      run = v.matches.run;
      role = v.matches.role;
      host = v.matches.host;
      generation = v.matches.generation;
    }

-- A launch is authorized, and returns the lease's execution handle, exactly when the lease is
-- active, the control matches it, the clock is of the lease's service generation and has not gone
-- back, every deadline lies ahead on both clocks, and the policy is bound to the lease and is the
-- one that its authority was resolved under.
pub authorize_launch_iff :
    (crates : Crates) (l : Lease) (control : LeaseControl) (policy : EffectivePolicy)
    (now : ClockSample) (handle : Text)
    → ((authorize_launch crates l control policy now).1 ≡ ok handle) ↔ (
        (a : ResolvedAuthority) × MayLaunch crates l control policy now a
        × (handle ≡ a.resolution.execution_handle))
authorize_launch_iff crates l control policy now handle = (
  launch-MayLaunch crates l control policy now handle,
  λ (a, v, e). MayLaunch-launch crates l control policy now handle a v e,
)
