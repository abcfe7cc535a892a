-- ===== src/Lease/Invariant.antt =====
-- What holds of a lease between two calls of its operations.
use native.Mathlib.Nat.{le_refl}
use aictx.Base.{
  ℕ, ◌≤◌, ◌<◌, ◌≡◌, refl, sym, subst, Bool, true, false, none, some, List, [], ◌∷◌, arith,
}
use aictx.Contracts.Types.{LeaseReasonCode}
use aictx.Contracts.Temporal.{UtcTimestamp, maximum_generation}
use aictx.Contracts.Request.{Crates}
use aictx.Policy.Types.{EffectivePolicy}
use aictx.Lease.Clock.{ClockSample}
use aictx.Lease.Replay.{LeaseBinding}
use aictx.Lease.State.{ResolvedAuthority, LeaseState, Lease, status_of, authority_of, new_requested}
use aictx.Lease.Checks.{is_active_or_renewing, revocation_reason, closing_reason, error_reason}
use aictx.Lease.Operations.{due}
use aictx.Lease.Renewal.{Renewal}
use aictx.Lease.Move.{
  Move, tick, lapse, refusal, activation, renewing, settling, closing, revocation, failure, Moves,
  stay, move, later_move,
}
use aictx.Lease.Moves.{step-Moves}
use aictx.Lease.Authority.{BoundFacts, FirstFacts, RenewedFacts, preparation-facts, renewal-facts}
use aictx.Lease.History.{Call, step, run}

-- The deadlines of an authority are ordered on both clocks and stay within the signed
-- authorization, its generation is a contract generation, and its interval began between the
-- issuance of the lease and the last observed moment.
pub record AuthorityInv (b : LeaseBinding) (c : ClockSample) (n : ℕ) (a : ResolvedAuthority)
    : Type 0 where
  pub generation_positive : 1 ≤ a.fencing_generation
  pub generation_bounded : a.fencing_generation ≤ maximum_generation
  pub after_issuance : c.wall.instant < a.expires_at.instant
  pub within_maximum : a.expires_at.instant ≤ a.maximum_expires_at.instant
  pub within_signed : a.maximum_expires_at.instant ≤ b.signed_authorization_expires_at.instant
  pub monotonic_after : c.monotonic < a.monotonic_deadline
  pub monotonic_within : a.monotonic_deadline ≤ a.monotonic_maximum_deadline
  pub anchored_after : c.monotonic ≤ a.interval_anchor_monotonic
  pub anchored_before : a.interval_anchor_monotonic ≤ n

-- A live authority has not reached its monotonic deadline.
pub record LiveInv (b : LeaseBinding) (c : ClockSample) (n : ℕ) (a : ResolvedAuthority)
    : Type 0 where
  pub authority : AuthorityInv b c n a
  pub live : n < a.monotonic_deadline

pub record RenewingInv (b : LeaseBinding) (c : ClockSample) (n : ℕ) (a : ResolvedAuthority)
    (w : UtcTimestamp) (m : ℕ) : Type 0 where
  pub live : LiveInv b c n a
  pub renewed : 2 ≤ a.fencing_generation
  pub wall_within : w.instant ≤ a.expires_at.instant
  pub monotonic_within : m ≤ a.monotonic_deadline
  pub pending : n < m

abbrev pub expiry_reason : LeaseReasonCode → Bool
expiry_reason LeaseReasonCode.lease_expired = true
expiry_reason LeaseReasonCode.maximum_lifetime_reached = true
expiry_reason _ = false

abbrev pub StateInv : LeaseBinding → ClockSample → ℕ → LeaseState → Type 0
StateInv b c n LeaseState.requested = Unit
StateInv b c n (LeaseState.active a) = LiveInv b c n a
StateInv b c n (LeaseState.renewing a w m) = RenewingInv b c n a w m
StateInv b c n (LeaseState.error a r) = LiveInv b c n a × (error_reason r ≡ true)
StateInv b c n (LeaseState.closed a r) = AuthorityInv b c n a × (closing_reason r ≡ true)
StateInv b c n (LeaseState.revoked a r) = AuthorityInv b c n a × (revocation_reason r ≡ true)
StateInv b c n (LeaseState.expired a r) = AuthorityInv b c n a × (expiry_reason r ≡ true)
StateInv b c n (LeaseState.refused code) = Unit

pub record Inv (l : Lease) : Type 0 where
  pub clock : l.issuance_clock.monotonic ≤ l.last_monotonic
  pub state : StateInv l.binding l.issuance_clock l.last_monotonic l.state

abbrev lease : LeaseBinding → ClockSample → ℕ → LeaseState → Lease
lease b c n s = record { binding = b; issuance_clock = c; last_monotonic = n; state = s }

-- Every state keeps its authority in order.
StateInv-authority :
    (b : LeaseBinding) (c : ClockSample) (n : ℕ) (s : LeaseState) {a : ResolvedAuthority}
    → StateInv b c n s
    → authority_of s ≡ some a
    → AuthorityInv b c n a
unfolding authority_of
StateInv-authority b c n LeaseState.requested v h = absurd (ground arith)
StateInv-authority b c n (LeaseState.active a) v h = ground arith
StateInv-authority b c n (LeaseState.renewing a w m) v h = ground arith
StateInv-authority b c n (LeaseState.error a r) v h = ground arith
StateInv-authority b c n (LeaseState.closed a r) v h = ground arith
StateInv-authority b c n (LeaseState.revoked a r) v h = ground arith
StateInv-authority b c n (LeaseState.expired a r) v h = ground arith
StateInv-authority b c n (LeaseState.refused code) v h = absurd (ground arith)

-- Time passes for an authority.
AuthorityInv-later :
    {b : LeaseBinding} {c : ClockSample} {n m : ℕ} {a : ResolvedAuthority}
    → AuthorityInv b c n a
    → n ≤ m
    → AuthorityInv b c m a
AuthorityInv-later v h = ground arith

-- What the deadlines leave of a state at a sample that is not older.
due_state :
    (b : LeaseBinding) (c now : ClockSample) (n : ℕ) (s : LeaseState)
    → c.monotonic ≤ n
    → n ≤ now.monotonic
    → StateInv b c n s
    → Inv
        (elim (due s now) [ none ↦ lease b c now.monotonic s | some t ↦ lease b c now.monotonic t ])
unfolding due revocation_reason
due_state b c now n LeaseState.requested p q v = ground arith
due_state b c now n (LeaseState.active a) p q v = ground arith
due_state b c now n (LeaseState.renewing a w m) p q v = ground arith
due_state b c now n (LeaseState.error a r) p q v = ground arith
due_state b c now n (LeaseState.closed a r) p q v = ground arith
due_state b c now n (LeaseState.revoked a r) p q v = ground arith
due_state b c now n (LeaseState.expired a r) p q v = ground arith
due_state b c now n (LeaseState.refused code) p q v = ground arith

-- The state of a lease that has an authority, given its status.
active_or_renewing_state :
    (b : LeaseBinding) (c : ClockSample) (n : ℕ) (s : LeaseState) {a : ResolvedAuthority}
    → is_active_or_renewing (status_of s) ≡ true
    → authority_of s ≡ some a
    → StateInv b c n s
    → LiveInv b c n a
unfolding status_of authority_of
active_or_renewing_state b c n (LeaseState.active a) h e v = ground arith
active_or_renewing_state b c n (LeaseState.renewing a w m) h e v = ground arith
active_or_renewing_state b c n s h e v = absurd (ground arith)

activated-LiveInv :
    (l : Lease) (policy : EffectivePolicy) (now : ClockSample) (a : ResolvedAuthority)
    → l.issuance_clock.monotonic ≤ l.last_monotonic
    → l.last_monotonic ≡ now.monotonic
    → BoundFacts l policy
    → FirstFacts l policy now a
    → LiveInv l.binding l.issuance_clock l.last_monotonic a
activated-LiveInv l policy now a h e bound first = ground arith

renewed-RenewingInv :
    (crates : Crates) (l : Lease) (policy : EffectivePolicy) (now : ClockSample)
    (old : ResolvedAuthority) (r : Renewal)
    → Inv l
    → l.last_monotonic ≡ now.monotonic
    → l.state ≡ LeaseState.active old
    → BoundFacts l policy
    → RenewedFacts crates policy now old r
    → RenewingInv l.binding l.issuance_clock l.last_monotonic r.authority r.acknowledgement_deadline
        r.monotonic_acknowledgement_deadline
renewed-RenewingInv crates l policy now old r v e s bound facts =
    let live : LiveInv l.binding l.issuance_clock l.last_monotonic old =
      subst (StateInv l.binding l.issuance_clock l.last_monotonic) s v.state in
    ground (arith, v.clock)

module _ (crates : Crates) where
  with_state :
      {l u : Lease} (s : LeaseState)
      → Inv l
      → u ≡ record l { state = s }
      → StateInv l.binding l.issuance_clock l.last_monotonic s
      → Inv u
  with_state s v e h = subst Inv (sym e) (record { clock = v.clock; state = h })

  pub Move-Inv : {l u : Lease} → Inv l → Move crates l u → Inv u
  Move-Inv {l} v (tick now p d e) = subst Inv (sym e) (
      rw d at (due_state l.binding l.issuance_clock now l.last_monotonic l.state v.clock p v.state))
  Move-Inv {l} v (lapse now s p d e) = subst Inv (sym e) (
      rw d at (due_state l.binding l.issuance_clock now l.last_monotonic l.state v.clock p v.state))
  Move-Inv v (refusal code s e) = with_state _ v e tt
  Move-Inv {l} v (activation policy resolution now p s q k e) =
      let (bound, first) = preparation-facts crates l policy resolution now k in
      with_state _ v e (activated-LiveInv l policy now p.authority v.clock q bound first)
  Move-Inv {l} v (renewing policy now r q k e) =
      let (old, s, bound, facts) = renewal-facts crates l policy now k in
      with_state _ v e (renewed-RenewingInv crates l policy now old r v q s bound facts)
  Move-Inv {l} v (settling a w m s e) =
      let pending : RenewingInv l.binding l.issuance_clock l.last_monotonic a w m =
        subst (StateInv l.binding l.issuance_clock l.last_monotonic) s v.state in
      with_state _ v e pending.live
  Move-Inv {l} v (closing a reason h s r e) =
      with_state _ v e ((active_or_renewing_state _ _ _ l.state h s v.state).authority, r)
  Move-Inv {l} v (revocation a reason h s r e) =
      with_state _ v e (StateInv-authority _ _ _ l.state v.state s, r)
  Move-Inv {l} v (failure a reason h s r e) =
      with_state _ v e (active_or_renewing_state _ _ _ l.state h s v.state, r)

  pub Moves-Inv : {l u : Lease} → Inv l → Moves crates l u → Inv u
  Moves-Inv v (stay e) = subst Inv (sym e) v
  Moves-Inv v (move m) = Move-Inv v m
  Moves-Inv v (later_move now p d m) = Move-Inv (Move-Inv v (tick now p d refl)) m

  pub step-Inv : (l : Lease) (c : Call) → Inv l → Inv (step crates l c)
  step-Inv l c v = Moves-Inv v (step-Moves crates l c)

  pub run-Inv : (l : Lease) (cs : List Call) → Inv l → Inv (run crates l cs)
  unfolding run
  run-Inv l [] v = v
  run-Inv l (c ∷ cs) v = run-Inv (step crates l c) cs (step-Inv l c v)

  -- A requested lease keeps the invariant under every history.
  pub run-new_requested-Inv :
      (binding : LeaseBinding) (clock : ClockSample) (cs : List Call)
      → Inv (run crates (new_requested binding clock) cs)
  unfolding new_requested
  run-new_requested-Inv binding clock cs =
      run-Inv _ cs (record { clock = le_refl clock.monotonic; state = tt })
