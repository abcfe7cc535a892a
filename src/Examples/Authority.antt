-- ===== src/Examples/Authority.antt =====
-- The authorities and leases of one run: activated at ten o'clock, renewed ten minutes later.
use aictx.Base.{codes}
use aictx.Policy.Digest.{digest}
use aictx.Lease.State.{ResolvedAuthority, LeaseState, Lease}
use aictx.Examples.Crates.{crates, at, ten_o_clock, ten_past}
use aictx.Examples.Data.{policy, resolution, binding, issued}

abbrev pub authority : ResolvedAuthority
authority = record {
  resolution = resolution;
  effective_policy_digest = digest crates policy;
  fencing_generation = 1;
  expires_at = at (codes "2026-01-01T10:15:00Z");
  maximum_expires_at = at (codes "2026-01-01T11:00:00Z");
  interval_anchor_wall = ten_o_clock;
  interval_anchor_monotonic = 5000000000;
  monotonic_deadline = 905000000000;
  monotonic_maximum_deadline = 3605000000000;
}

abbrev pub renewed : ResolvedAuthority
renewed = record {
  resolution = resolution;
  effective_policy_digest = digest crates policy;
  fencing_generation = 2;
  expires_at = at (codes "2026-01-01T10:25:00Z");
  maximum_expires_at = at (codes "2026-01-01T11:00:00Z");
  interval_anchor_wall = ten_past;
  interval_anchor_monotonic = 605000000000;
  monotonic_deadline = 1505000000000;
  monotonic_maximum_deadline = 3605000000000;
}

abbrev pub active : Lease
active = record {
  binding = binding;
  issuance_clock = issued;
  last_monotonic = 5000000000;
  state = LeaseState.active authority;
}

abbrev pub renewing : Lease
renewing = record {
  binding = binding;
  issuance_clock = issued;
  last_monotonic = 605000000000;
  state = LeaseState.renewing renewed (at (codes "2026-01-01T10:10:30Z")) 635000000000;
}
