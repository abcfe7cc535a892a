-- ===== src/Lease/Recovery.antt =====
-- What a restored lease is: src/automation/lease/snapshot.rs.
use aictx.Base.{ℕ, ◌≤◌, ◌≡◌, refl, subst, List, inl, inr, arith, Result, ok, Result-cases}
use aictx.Contracts.Temporal.{TimeCrate, maximum_generation}
use aictx.Contracts.Request.{Crates}
use aictx.Contracts.Response.{IdentityLeaseResponse}
use aictx.Lease.Clock.{ClockSample}
use aictx.Lease.Replay.{LeaseBinding}
use aictx.Lease.State.{LeaseState, Lease}
use aictx.Lease.Snapshot.{
  PersistedResolvedAuthority, into_domain, PersistedLeaseState, LeaseSnapshot, require_reason,
  validate_live_high_water, misplaced, validate_authority, restored_state,
}
use aictx.Lease.Restore.{restore, persisted, snapshot, identity_response}
use aictx.Lease.Invariant.{AuthorityInv, LiveInv, StateInv, Inv, run-Inv}
use aictx.Lease.History.{Call, run}

ok_eq : {A E : Type 0} {x y : A} → ◌≡◌ {A = Result E A} (ok x) (ok y) → x ≡ y
ok_eq h = cc

-- The generation of a snapshot is a contract generation, as its type says.
abbrev pub InRange : PersistedResolvedAuthority → Type 0
InRange a = (1 ≤ a.fencing_generation) × (a.fencing_generation ≤ maximum_generation)

abbrev pub Representable : PersistedLeaseState → Type 0
Representable PersistedLeaseState.requested = Unit
Representable (PersistedLeaseState.active a) = InRange a
Representable (PersistedLeaseState.renewing a w m) = InRange a
Representable (PersistedLeaseState.error a r) = InRange a
Representable (PersistedLeaseState.closed a r) = InRange a
Representable (PersistedLeaseState.revoked a r) = InRange a
Representable (PersistedLeaseState.expired a r) = InRange a
Representable (PersistedLeaseState.refused code) = Unit

module _ (time : TimeCrate) where
  persisted-restored_state :
      (b : LeaseBinding) (c : ClockSample) (n : ℕ) (p : PersistedLeaseState) {s : LeaseState}
      → restored_state time b c n p ≡ ok s
      → persisted s ≡ p
  unfolding restored_state persisted
  persisted-restored_state b c n PersistedLeaseState.requested h = ground arith
  persisted-restored_state b c n (PersistedLeaseState.active a) h = ground arith
  persisted-restored_state b c n (PersistedLeaseState.renewing a w m) h = ground arith
  persisted-restored_state b c n (PersistedLeaseState.error a r) h = ground arith
  persisted-restored_state b c n (PersistedLeaseState.closed a r) h = ground arith
  persisted-restored_state b c n (PersistedLeaseState.revoked a r) h = ground arith
  persisted-restored_state b c n (PersistedLeaseState.expired a r) h = ground arith
  persisted-restored_state b c n (PersistedLeaseState.refused code) h = ground arith

  validate_authority-AuthorityInv :
      (a : PersistedResolvedAuthority) (b : LeaseBinding) (c : ClockSample) (n : ℕ)
      → InRange a
      → validate_authority time a b c n ≡ ok tt
      → AuthorityInv b c n (into_domain a)
  unfolding validate_authority misplaced
  validate_authority-AuthorityInv a b c n g h = ground arith

  live-LiveInv :
      (a : PersistedResolvedAuthority) (b : LeaseBinding) (c : ClockSample) (n : ℕ)
      → InRange a
      → validate_authority time a b c n ≡ ok tt
      → validate_live_high_water a n ≡ ok tt
      → LiveInv b c n (into_domain a)
  unfolding validate_live_high_water
  live-LiveInv a b c n g h k = let v = validate_authority-AuthorityInv a b c n g h in ground arith

  restored_state-StateInv :
      (b : LeaseBinding) (c : ClockSample) (n : ℕ) (p : PersistedLeaseState) {s : LeaseState}
      → Representable p
      → restored_state time b c n p ≡ ok s
      → StateInv b c n s
  unfolding restored_state require_reason
  restored_state-StateInv b c n PersistedLeaseState.requested {s} g h =
      subst (StateInv b c n) (ok_eq h) tt
  restored_state-StateInv b c n (PersistedLeaseState.active a) {s} g h =
      let e : LeaseState.active (into_domain a) ≡ s = ground arith in
      subst (StateInv b c n) e (live-LiveInv a b c n g (ground arith) (ground arith))
  restored_state-StateInv b c n (PersistedLeaseState.renewing a w m) {s} g h =
      let e : LeaseState.renewing (into_domain a) w m ≡ s = ground arith in
      let live = live-LiveInv a b c n g (ground arith) (ground arith) in
      subst (StateInv b c n) e (record {
        live = live;
        renewed = ground arith;
        wall_within = ground arith;
        monotonic_within = ground arith;
        pending = ground arith;
      })
  restored_state-StateInv b c n (PersistedLeaseState.error a r) {s} g h =
      let e : LeaseState.error (into_domain a) r ≡ s = ground arith in
      subst (StateInv b c n) e (live-LiveInv a b c n g (ground arith) (ground arith), ground arith)
  restored_state-StateInv b c n (PersistedLeaseState.closed a r) {s} g h =
      let e : LeaseState.closed (into_domain a) r ≡ s = ground arith in
      subst (StateInv b c n) e
        (validate_authority-AuthorityInv a b c n g (ground arith), ground arith)
  restored_state-StateInv b c n (PersistedLeaseState.revoked a r) {s} g h =
      let e : LeaseState.revoked (into_domain a) r ≡ s = ground arith in
      subst (StateInv b c n) e
        (validate_authority-AuthorityInv a b c n g (ground arith), ground arith)
  restored_state-StateInv b c n (PersistedLeaseState.expired a r) {s} g h =
      let e : LeaseState.expired (into_domain a) r ≡ s = ground arith in
      subst (StateInv b c n) e
        (validate_authority-AuthorityInv a b c n g (ground arith), ground arith)
  restored_state-StateInv b c n (PersistedLeaseState.refused code) g h =
      subst (StateInv b c n) (ok_eq h) tt

  -- The parts of a restored lease.
  pub record Restored (s : LeaseSnapshot) (l : Lease) : Type 0 where
    pub clock : s.issuance_clock.monotonic ≤ s.monotonic_high_water
    pub state :
        restored_state time s.binding s.issuance_clock s.monotonic_high_water s.state ≡ ok l.state
    pub binding : l.binding ≡ s.binding
    pub issuance : l.issuance_clock ≡ s.issuance_clock
    pub high_water : l.last_monotonic ≡ s.monotonic_high_water
    pub response : (r : IdentityLeaseResponse) × (identity_response l ≡ ok r)

  restore-Restored : (s : LeaseSnapshot) {l : Lease} → restore time s ≡ ok l → Restored s l
  unfolding restore
  restore-Restored s {l} h =
      elim (Result-cases
        (restored_state time s.binding s.issuance_clock s.monotonic_high_water s.state)) [
          | inr (e, k) ↦ absurd (ground arith)
          | inl (state, k) ↦
              let lease : Lease = record {
                binding = s.binding;
                issuance_clock = s.issuance_clock;
                last_monotonic = s.monotonic_high_water;
                state = state;
              } in
              elim (Result-cases (identity_response lease)) [
                | inr (e, q) ↦ absurd (ground arith)
                | inl (r, q) ↦
                    let e : lease ≡ l = ground arith in
                    subst (Restored s) e (record {
                      clock = ground arith;
                      state = k;
                      binding = refl;
                      issuance = refl;
                      high_water = refl;
                      response = (r, q);
                    })
              ]
        ]

  restore-Inv :
      (s : LeaseSnapshot) {l : Lease} → Representable s.state → restore time s ≡ ok l → Inv l
  restore-Inv s g h =
      let v = restore-Restored s h in
      record {
        clock = ground (arith, v.clock, v.issuance, v.high_water);
        state =
            rw (v.binding, v.issuance, v.high_water)
              (restored_state-StateInv s.binding s.issuance_clock s.monotonic_high_water s.state g
                v.state);
      }

  -- A lease that is restored from a snapshot has that snapshot: nothing is lost or changed.
  pub snapshot-restore : (s : LeaseSnapshot) (l : Lease) → restore time s ≡ ok l → snapshot l ≡ s
  unfolding snapshot
  snapshot-restore s l h =
      let v = restore-Restored s h in
      let p =
        persisted-restored_state s.binding s.issuance_clock s.monotonic_high_water s.state
          v.state in
      rw (v.binding, v.issuance, v.high_water, p) refl

-- A restored lease, whose generation is a contract generation, satisfies the invariant of leases, has
-- a valid public response, and keeps the invariant whatever calls are made on it.
pub restore-run-Inv :
    (crates : Crates) (s : LeaseSnapshot) (l : Lease) (cs : List Call)
    → Representable s.state
    → restore crates.time s ≡ ok l
    → Inv (run crates l cs) × ((r : IdentityLeaseResponse) × (identity_response l ≡ ok r))
restore-run-Inv crates s l cs g h = (
  run-Inv crates l cs (restore-Inv crates.time s g h),
  (restore-Restored crates.time s h).response,
)
