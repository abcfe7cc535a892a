-- ===== src/Lease/Fencing.antt =====
-- What a successful renewal does: src/automation/lease.rs, `begin_renewal`.
use aictx.Base.{
  ℕ, ◌+◌, ◌≤◌, ◌≡◌, sym, ◌∙◌, false, none, some, inl, inr, List, arith, Option-cases, ok,
  Result-cases,
}
use aictx.Contracts.Types.{LeaseStatus, LeaseReasonCode}
use aictx.Contracts.Request.{Crates}
use aictx.Policy.Types.{EffectivePolicy}
use aictx.Lease.Clock.{ClockSample}
use aictx.Lease.State.{
  LeaseControl, ResolvedAuthority, LeaseState, Lease, status_of, authority_of, fencing_generation,
  status, execution_handle,
}
use aictx.Lease.Checks.{validate_caller, validate_control}
use aictx.Lease.Operations.{due, enforce_deadlines}
use aictx.Lease.Renewal.{Renewal, renewal, start_renewing, begin_renewal}
use aictx.Lease.Move.{enforce_deadlines_cases}
use aictx.Lease.Authority.{BoundFacts, RenewedFacts, renewal-facts}
use aictx.Lease.History.{Call, run}
use aictx.Lease.Lifecycle.{run-Keeps}
use aictx.Lease.Control.{ControlMatches, validate_control_iff, AllFail, mismatch-AllFail}

-- The renewing state of a renewal.
abbrev pub pending : Renewal → LeaseState
pending r =
    LeaseState.renewing r.authority r.acknowledgement_deadline r.monotonic_acknowledgement_deadline

-- A renewal that returned a generation.
pub record Renewed (crates : Crates) (l : Lease) (control : LeaseControl) (policy : EffectivePolicy)
    (now : ClockSample) (u : Lease) (g : ℕ) (old : ResolvedAuthority) (r : Renewal) : Type 0 where
  pub matches : ControlMatches l control
  pub observed : l.last_monotonic ≤ now.monotonic
  pub before : l.state ≡ LeaseState.active old
  pub not_due : due l.state now ≡ none
  pub after : u ≡ record l { last_monotonic = now.monotonic; state = pending r }
  pub returned : g ≡ r.authority.fencing_generation
  pub bound : BoundFacts l policy
  pub facts : RenewedFacts crates policy now old r

-- Past its guards `begin_renewal` is `start_renewing`.
begin_renewal_started :
    (crates : Crates) (l : Lease) (control : LeaseControl) (policy : EffectivePolicy)
    (now : ClockSample) {x y : Unit {0}}
    → validate_caller l control ≡ ok x
    → validate_control l control ≡ ok y
    → enforce_deadlines l now ≡ (record l { last_monotonic = now.monotonic }, ok false)
    → begin_renewal crates l control policy now
      ≡ start_renewing crates (record l { last_monotonic = now.monotonic }) policy now
unfolding begin_renewal
begin_renewal_started crates l control policy now c v q = rw (c, v, q, begin_renewal)

module _ (crates : Crates) (l : Lease) (control : LeaseControl) (policy : EffectivePolicy)
    (now : ClockSample) {u : Lease} {g : ℕ} where
  started :
      l.last_monotonic ≤ now.monotonic
      → due l.state now ≡ none
      → validate_control l control ≡ ok tt
      → start_renewing crates (record l { last_monotonic = now.monotonic }) policy now ≡ (u, ok g)
      → (old : ResolvedAuthority) × (r : Renewal) × Renewed crates l control policy now u g old r
  unfolding start_renewing
  started p d v h =
      elim (Result-cases
        (renewal crates (record l { last_monotonic = now.monotonic }) policy now)) [
          | inr (e, k) ↦ absurd (ground arith)
          | inl (r, k) ↦
              let (old, s, bound, facts) =
                renewal-facts crates (record l { last_monotonic = now.monotonic }) policy now k in
              (
                old,
                r,
                record {
                  matches = (validate_control_iff l control).0 v;
                  observed = p;
                  before = s;
                  not_due = d;
                  after = ground arith;
                  returned = ground arith;
                  bound = ground arith;
                  facts = facts;
                },
              )
        ]

  -- `begin_renewal` succeeds only on an active lease, for a matching control, before every deadline.
  pub begin_renewal-Renewed :
      begin_renewal crates l control policy now ≡ (u, ok g)
      → (old : ResolvedAuthority) × (r : Renewal) × Renewed crates l control policy now u g old r
  unfolding begin_renewal
  begin_renewal-Renewed h = elim (Result-cases (validate_caller l control)) [
    | inr (e, c) ↦ absurd (ground arith)
    | inl (_, c) ↦ elim (Result-cases (validate_control l control)) [
      | inr (e, v) ↦ absurd (ground arith)
      | inl (_, v) ↦ elim (enforce_deadlines_cases l now) [
        | inl (e, q) ↦ absurd (ground arith)
        | inr (inl (p, d, q)) ↦
            started p d v (sym (begin_renewal_started crates l control policy now c v q) ∙ h)
        | inr (inr (s, p, d, q)) ↦ absurd (ground arith)
      ]
    ]
  ]

-- The lease after a renewal that returned `g`, relative to the lease and the control before it.
pub record Fenced (l : Lease) (control : LeaseControl) (u : Lease) (g : ℕ) : Type 0 where
  pub advances : g ≡ control.fencing_generation + 1
  pub current : fencing_generation u ≡ some g
  pub renewing : status u ≡ LeaseStatus.renewing
  pub same_binding : u.binding ≡ l.binding
  pub same_handle : execution_handle u ≡ execution_handle l

-- However the lease goes on, it accepts none of the controls of the older generation.
old_control_differs :
    (crates : Crates) (l u : Lease) (control : LeaseControl) (g : ℕ) (cs : List Call)
    → Fenced l control u g
    → ¬ ControlMatches (run crates u cs) control
unfolding fencing_generation
old_control_differs crates l u control g cs fenced m = elim (Option-cases (authority_of u.state)) [
  | inl h ↦ absurd (ground (arith, fenced))
  | inr (a, h) ↦
      let (b, k, n) = run-Keeps crates u cs a h in absurd (ground (arith, fenced, m.generation, n))
]

-- A renewal that returns a generation returns the control's generation plus one, which is the
-- generation of the lease afterwards; the lease is renewing, for the same binding and the same
-- execution handle. From then on, after any further calls, all five controlled operations fail for
-- the control that asked for the renewal.
pub begin_renewal-Fenced :
    (crates : Crates) (l : Lease) (control : LeaseControl) (policy : EffectivePolicy)
    (now : ClockSample) (u : Lease) (g : ℕ)
    → begin_renewal crates l control policy now ≡ (u, ok g)
    → Fenced l control u g
      × ((cs : List Call) (next_policy : EffectivePolicy) (reason : LeaseReasonCode)
            (later : ClockSample)
          → AllFail crates (run crates u cs) control next_policy reason later)
unfolding fencing_generation authority_of status_of execution_handle
begin_renewal-Fenced crates l control policy now u g h =
    let (old, r, v) = begin_renewal-Renewed crates l control policy now h in
    let fenced : Fenced l control u g = record {
      advances = ground (arith, v.matches, v.facts);
      current = ground (arith, v.matches, v.facts);
      renewing = ground (arith, v.matches, v.facts);
      same_binding = ground (arith, v.matches, v.facts);
      same_handle = ground (arith, v.matches, v.facts);
    } in
    (
      fenced,
      λ cs next_policy reason later.
          mismatch-AllFail crates (run crates u cs) control next_policy reason later
            (old_control_differs crates l u control g cs fenced),
    )
