-- ===== src/Lease/Deadlines.antt =====
-- Expiry on either clock: `enforce_deadlines` of src/automation/lease.rs.
use aictx.Base.{◌<◌, ◌≡◌, refl, sym, subst, ◌∙◌, Bool, true, false, none, some, inl, inr, arith, ok}
use aictx.Lease.Clock.{ClockSample}
use aictx.Lease.State.{LeaseState, Lease, status_of, authority_of}
use aictx.Lease.Checks.{is_live}
use aictx.Lease.Operations.{Outcome, due, enforce_deadlines}
use aictx.Lease.Move.{enforce_deadlines_cases}
use aictx.Lease.Launch.{InTime}

-- A state whose deadlines all lie ahead, as far as it is live.
abbrev pub Current : LeaseState → ClockSample → Type 0
Current (LeaseState.active a) now = InTime a now
Current (LeaseState.renewing a wall monotonic) now =
    InTime a now × (now.wall.instant < wall.instant) × (now.monotonic < monotonic)
Current (LeaseState.error a reason) now = InTime a now
Current s now = Unit

due-none-Current : (s : LeaseState) (now : ClockSample) → due s now ≡ none → Current s now
unfolding due
due-none-Current LeaseState.requested now h = tt
due-none-Current (LeaseState.active a) now h = ground arith
due-none-Current (LeaseState.renewing a w m) now h = ground arith
due-none-Current (LeaseState.error a r) now h = ground arith
due-none-Current (LeaseState.closed a r) now h = tt
due-none-Current (LeaseState.revoked a r) now h = tt
due-none-Current (LeaseState.expired a r) now h = tt
due-none-Current (LeaseState.refused code) now h = tt

Current-due-none : (s : LeaseState) (now : ClockSample) → Current s now → due s now ≡ none
unfolding due
Current-due-none LeaseState.requested now h = refl
Current-due-none (LeaseState.active a) now h = ground arith
Current-due-none (LeaseState.renewing a w m) now h = ground arith
Current-due-none (LeaseState.error a r) now h = ground arith
Current-due-none (LeaseState.closed a r) now h = refl
Current-due-none (LeaseState.revoked a r) now h = refl
Current-due-none (LeaseState.expired a r) now h = refl
Current-due-none (LeaseState.refused code) now h = refl

due-some :
    (s : LeaseState) (now : ClockSample) {t : LeaseState}
    → due s now ≡ some t
    → (is_live (status_of s) ≡ true)
      × (is_live (status_of t) ≡ false)
      × (authority_of t ≡ authority_of s)
unfolding due status_of authority_of
due-some (LeaseState.active a) now h = (refl, ground arith, ground arith)
due-some (LeaseState.renewing a w m) now h = (refl, ground arith, ground arith)
due-some (LeaseState.error a r) now h = (refl, ground arith, ground arith)
due-some s now h = absurd (ground arith)

-- What a successful enforcement did.
pub data Enforced (l : Lease) (now : ClockSample) : Lease → Bool → Type 0 where
  kept : Current l.state now → Enforced l now (record l { last_monotonic = now.monotonic }) false
  ended :
      (t : LeaseState)
      → ¬ Current l.state now
      → is_live (status_of l.state) ≡ true
      → is_live (status_of t) ≡ false
      → authority_of t ≡ authority_of l.state
      → Enforced l now (record l { last_monotonic = now.monotonic; state = t }) true

same_outcome :
    {m u : Lease} {b c : Bool} → ◌≡◌ {A = Outcome Bool} (m, ok b) (u, ok c) → (m ≡ u) × (b ≡ c)
same_outcome h = (cc, cc)

-- Deadlines that are enforced without an error at an observation record it, and keep the state
-- exactly if all its deadlines lie ahead on both clocks, those of a pending renewal included;
-- otherwise a live lease is ended, with its authority kept, and the result says so.
pub enforce_deadlines-Enforced :
    (l : Lease) (now : ClockSample) (u : Lease) (moved : Bool)
    → enforce_deadlines l now ≡ (u, ok moved)
    → Enforced l now u moved
enforce_deadlines-Enforced l now u moved h = elim (enforce_deadlines_cases l now) [
  | inl (e, q) ↦ absurd (ground arith)
  | inr (inl (p, d, q)) ↦
      let (m, b) = same_outcome (sym q ∙ h) in enforced m b (kept (due-none-Current l.state now d))
  | inr (inr (s, p, d, q)) ↦
      let (m, b) = same_outcome (sym q ∙ h) in
      let (live, dead, kept_authority) = due-some l.state now d in
      enforced m b
        (ended s (λ c. ground (arith, Current-due-none l.state now c)) live dead kept_authority)
]
  where
    enforced : {v w : Lease} {b c : Bool} → v ≡ w → b ≡ c → Enforced l now v b → Enforced l now w c
    enforced {v} {w} {b} {c} m e x =
        subst (λ k. Enforced l now w k) e (subst (λ k. Enforced l now k b) m x)
