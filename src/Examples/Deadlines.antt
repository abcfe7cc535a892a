-- ===== src/Examples/Deadlines.antt =====
-- Deadlines enforced at a concrete time: src/automation/lease.rs.
use aictx.Base.{◌≡◌, refl, true, ok, codes, ℕ_discrete}
use aictx.Contracts.Types.{LeaseReasonCode}
use aictx.Lease.Clock.{ClockSample}
use aictx.Lease.State.{LeaseState, Lease}
use aictx.Lease.Operations.{due, enforce_deadlines, observe_runtime_clock}
use aictx.Lease.Deadlines.{Enforced, enforce_deadlines-Enforced}
use aictx.Examples.Crates.{at}
use aictx.Examples.Authority.{authority, active}

-- A quarter of an hour after issuance the first interval is over.
abbrev quarter_past : ClockSample
quarter_past = record {
  wall = at (codes "2026-01-01T10:15:00Z");
  monotonic = 905000000000;
  service_generation = 1;
}

abbrev ended : Lease
ended = record active {
  last_monotonic = 905000000000;
  state = LeaseState.expired authority LeaseReasonCode.lease_expired;
}

ends : enforce_deadlines active quarter_past ≡ (ended, ok true)
unfolding enforce_deadlines due observe_runtime_clock ℕ_discrete
ends = refl

enforce_deadlines-Enforced_example : Enforced active quarter_past ended true
enforce_deadlines-Enforced_example = enforce_deadlines-Enforced active quarter_past ended true ends
