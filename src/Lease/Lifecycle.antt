-- ===== src/Lease/Lifecycle.antt =====
-- The life of a lease over any history of calls: its transition graph, its final states, and what
-- an activation fixes for good.
use native.Mathlib.Nat.{le_refl}
use aictx.Base.{
  ◌≤◌, ◌≡◌, refl, sym, subst, ◌∙◌, Bool, true, false, some, ◌⊎◌, inl, inr, List, [], ◌∷◌, arith,
}
use aictx.Contracts.Types.{LeaseStatus}
use aictx.Contracts.Request.{Crates}
use aictx.Lease.Clock.{ClockSample}
use aictx.Lease.State.{ResolvedAuthority, LeaseState, Lease, status_of, authority_of}
use aictx.Lease.Checks.{is_active_or_renewing, is_live}
use aictx.Lease.Operations.{due}
use aictx.Lease.Renewal.{Renewal}
use aictx.Lease.Move.{
  Move, tick, lapse, refusal, activation, renewing, settling, closing, revocation, failure, Moves,
  stay, move, later_move,
}
use aictx.Lease.Moves.{step-Moves}
use aictx.Lease.Authority.{renewal-facts}
use aictx.Lease.History.{Call, step, run}

-- The v1 transition graph.
pub data Edge : LeaseStatus → LeaseStatus → Type 0 where
  same : {s : LeaseStatus} → Edge s s
  activates : Edge LeaseStatus.requested LeaseStatus.active
  refuses : Edge LeaseStatus.requested LeaseStatus.refused
  begins_renewal : Edge LeaseStatus.active LeaseStatus.renewing
  acknowledges : Edge LeaseStatus.renewing LeaseStatus.active
  closes : {s : LeaseStatus} → is_active_or_renewing s ≡ true → Edge s LeaseStatus.closed
  fails : {s : LeaseStatus} → is_active_or_renewing s ≡ true → Edge s LeaseStatus.error
  is_revoked : {s : LeaseStatus} → is_live s ≡ true → Edge s LeaseStatus.revoked
  expires : {s : LeaseStatus} → is_live s ≡ true → Edge s LeaseStatus.expired

due-Edge :
    (s : LeaseState) (now : ClockSample) {t : LeaseState}
    → due s now ≡ some t
    → (is_live (status_of s) ≡ true)
      × ((status_of t ≡ LeaseStatus.revoked) ⊎ (status_of t ≡ LeaseStatus.expired))
unfolding due status_of
due-Edge (LeaseState.active a) now h = ground arith
due-Edge (LeaseState.renewing a w m) now h = ground arith
due-Edge (LeaseState.error a r) now h = ground arith
due-Edge s now h = absurd (ground arith)

-- A deadline keeps the authority.
pub due-authority :
    (s : LeaseState) (now : ClockSample) {t : LeaseState}
    → due s now ≡ some t
    → authority_of t ≡ authority_of s
unfolding due authority_of
due-authority (LeaseState.active a) now h = ground arith
due-authority (LeaseState.renewing a w m) now h = ground arith
due-authority (LeaseState.error a r) now h = ground arith
due-authority s now h = absurd (ground arith)

-- What never changes once a lease has an authority, and what may only shrink or grow.
pub record Narrows (a b : ResolvedAuthority) : Type 0 where
  pub resolution : b.resolution ≡ a.resolution
  pub generation : a.fencing_generation ≤ b.fencing_generation
  pub maximum : b.maximum_expires_at.instant ≤ a.maximum_expires_at.instant
  pub monotonic_maximum : b.monotonic_maximum_deadline ≤ a.monotonic_maximum_deadline

Narrows-refl : (a : ResolvedAuthority) → Narrows a a
Narrows-refl a = ground (arith, le_refl a.fencing_generation)

Narrows-trans : {a b c : ResolvedAuthority} → Narrows a b → Narrows b c → Narrows a c
Narrows-trans f g = ground arith

-- The authority of the second lease, if the first has one.
abbrev pub Keeps : Lease → Lease → Type 0
Keeps l u =
    (a : ResolvedAuthority)
    → authority_of l.state ≡ some a
    → (b : ResolvedAuthority) × (authority_of u.state ≡ some b) × Narrows a b

abbrev pub is_terminal : LeaseStatus → Bool
is_terminal LeaseStatus.closed = true
is_terminal LeaseStatus.revoked = true
is_terminal LeaseStatus.expired = true
is_terminal LeaseStatus.refused = true
is_terminal _ = false

module _ (crates : Crates) where
  Move-Edge : {l u : Lease} → Move crates l u → Edge (status_of l.state) (status_of u.state)
  Move-Edge (tick now p d e) = rw e same
  Move-Edge {l} (lapse now s p d e) = elim (due-Edge l.state now d).1 [
    | inl r ↦ rw (e, r) (is_revoked (due-Edge l.state now d).0)
    | inr x ↦ rw (e, x) (expires (due-Edge l.state now d).0)
  ]
  Move-Edge (refusal code s e) = rw (e, s) (unfold status_of in refuses)
  Move-Edge (activation policy resolution now p s q k e) = rw (e, s) (unfold status_of in activates)
  Move-Edge {l} (renewing policy now r q k e) =
      let (old, s, bound, facts) = renewal-facts crates l policy now k in
      rw (e, s) (unfold status_of in begins_renewal)
  Move-Edge (settling a w m s e) = rw (e, s) (unfold status_of in acknowledges)
  Move-Edge (closing a reason h s r e) = rw e (unfold status_of in closes h)
  Move-Edge (revocation a reason h s r e) = rw e (unfold status_of in is_revoked h)
  Move-Edge (failure a reason h s r e) = rw e (unfold status_of in fails h)

  -- Every call, whether it succeeds or fails, follows at most one edge of the transition graph.
  pub step-Edge :
      (l : Lease) (c : Call) → Edge (status_of l.state) (status_of (step crates l c).state)
  step-Edge l c = go (step-Moves crates l c)
    where
      go : {u : Lease} → Moves crates l u → Edge (status_of l.state) (status_of u.state)
      go (stay e) = rw e same
      go (move m) = Move-Edge m
      go (later_move now p d m) = Move-Edge m

  -- A move to a state that has the same authority.
  Keeps-authority :
      (l u : Lease) (s : LeaseState)
      → u ≡ record l { state = s }
      → authority_of s ≡ authority_of l.state
      → Keeps l u
  Keeps-authority l u s e h a q = (a, rw e (h ∙ q), Narrows-refl a)

  requested-Keeps : (l u : Lease) → l.state ≡ LeaseState.requested → Keeps l u
  unfolding authority_of
  requested-Keeps l u s a h = absurd (ground arith)

  renewing-Keeps :
      (l u : Lease) (old : ResolvedAuthority) (r : Renewal)
      → l.state ≡ LeaseState.active old
      → Narrows old r.authority
      → u ≡ record l {
        state =
            LeaseState.renewing r.authority r.acknowledgement_deadline
              r.monotonic_acknowledgement_deadline;
      }
      → Keeps l u
  unfolding authority_of
  renewing-Keeps l u old r s n e a h =
      (r.authority, rw e refl, subst (λ x. Narrows x r.authority) (ground arith) n)

  pub Move-Keeps : (l u : Lease) → Move crates l u → Keeps l u
  unfolding authority_of
  Move-Keeps l u (tick now p d e) = λ a h. (a, rw e h, Narrows-refl a)
  Move-Keeps l u (lapse now s p d e) =
      λ a h. (a, rw e (due-authority l.state now d ∙ h), Narrows-refl a)
  Move-Keeps l u (refusal code s e) = requested-Keeps l u s
  Move-Keeps l u (activation policy resolution now p s q k e) = requested-Keeps l u s
  Move-Keeps l u (renewing policy now r q k e) =
      let (old, s, bound, facts) = renewal-facts crates l policy now k in
      renewing-Keeps l u old r s (ground arith) e
  Move-Keeps l u (settling b w m s e) = Keeps-authority l u _ e (rw s refl)
  Move-Keeps l u (closing b reason t s r e) = Keeps-authority l u _ e (sym s)
  Move-Keeps l u (revocation b reason t s r e) = Keeps-authority l u _ e (sym s)
  Move-Keeps l u (failure b reason t s r e) = Keeps-authority l u _ e (sym s)

  step-Keeps : (l : Lease) (c : Call) → Keeps l (step crates l c)
  step-Keeps l c = go _ (step-Moves crates l c)
    where
      go : (u : Lease) → Moves crates l u → Keeps l u
      go u (stay e) = λ a h. (a, rw e h, Narrows-refl a)
      go u (move m) = Move-Keeps l u m
      go u (later_move now p d m) = Move-Keeps _ u m

  -- From its activation on, whatever calls are made: the resolved identity of a lease (its execution
  -- handle, worker, principal, workspace, authentication and isolation) never changes, its fencing
  -- generation never falls, and its maximum deadlines on both clocks never move out.
  pub run-Keeps :
      (l : Lease) (cs : List Call) (a : ResolvedAuthority)
      → authority_of l.state ≡ some a
      → (b : ResolvedAuthority) × (authority_of (run crates l cs).state ≡ some b) × Narrows a b
  unfolding run
  run-Keeps l [] a h = (a, h, Narrows-refl a)
  run-Keeps l (c ∷ cs) a h =
      let (b, hb, n) = step-Keeps l c a h in
      let (d, hd, k) = run-Keeps (step crates l c) cs b hb in (d, hd, Narrows-trans n k)

  terminal_move :
      (l u : Lease) → is_terminal (status_of l.state) ≡ true → Move crates l u → u.state ≡ l.state
  unfolding status_of
  terminal_move l u t (tick now p d e) = rw e
  terminal_move l u t (lapse now s p d e) = absurd (ground (arith, due-Edge l.state now d))
  terminal_move l u t (refusal code s e) = absurd (ground arith)
  terminal_move l u t (activation policy resolution now p s q k e) = absurd (ground arith)
  terminal_move l u t (renewing policy now r q k e) =
      let (old, s, bound, facts) = renewal-facts crates l policy now k in absurd (ground arith)
  terminal_move l u t (settling b w m s e) = absurd (ground arith)
  terminal_move l u t (closing b reason h s r e) = absurd (ground arith)
  terminal_move l u t (revocation b reason h s r e) = absurd (ground arith)
  terminal_move l u t (failure b reason h s r e) = absurd (ground arith)

  step-terminal :
      (l : Lease) (c : Call)
      → is_terminal (status_of l.state) ≡ true
      → (step crates l c).state ≡ l.state
  step-terminal l c t = go _ (step-Moves crates l c)
    where
      go : (u : Lease) → Moves crates l u → u.state ≡ l.state
      go u (stay e) = rw e
      go u (move m) = terminal_move l u t m
      go u (later_move now p d m) = terminal_move _ u t m

  -- A closed, revoked, expired or refused lease keeps its state under every history of calls.
  pub run-terminal :
      (l : Lease) (cs : List Call)
      → is_terminal (status_of l.state) ≡ true
      → (run crates l cs).state ≡ l.state
  unfolding run
  run-terminal l [] t = refl
  run-terminal l (c ∷ cs) t =
      run-terminal (step crates l c) cs (rw (step-terminal l c t) t) ∙ step-terminal l c t
