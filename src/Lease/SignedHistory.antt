-- ===== src/Lease/SignedHistory.antt =====
-- Whatever is called, the lease stays within its signed authorization on both clocks:
-- src/automation/lease.rs.
use aictx.Base.{
  ℕ, ◌+◌, ◌-◌, ◌≤◌, ◌≡◌, refl, sym, ap, ◌∙◌, subst, none, some, List, [], ◌∷◌, inl, inr,
  Option-cases, Result-cases, ok, arith,
}
use aictx.Contracts.Temporal.{UtcTimestamp}
use aictx.Contracts.Request.{Crates}
use aictx.Policy.Types.{EffectivePolicy}
use aictx.Lease.Clock.{ClockSample}
use aictx.Lease.Replay.{LeaseBinding}
use aictx.Lease.State.{LeaseResolution, ResolvedAuthority, Lease, authority_of, new_requested}
use aictx.Lease.Activation.{PreparedActivation, preparation, first_authority}
use aictx.Lease.Authority.{preparation-facts, renewal-facts}
use aictx.Lease.SignedLifetime.{Reads, first_authority-lifetime}
use aictx.Lease.Move.{
  Move, tick, lapse, refusal, activation, renewing, settling, closing, revocation, failure, Moves,
  stay, move, later_move,
}
use aictx.Lease.Moves.{step-Moves}
use aictx.Lease.Lifecycle.{due-authority, Move-Keeps}
use aictx.Lease.History.{Call, step, run}
use aictx.Lease.Invariant.{Inv, run-new_requested-Inv}

-- The monotonic moment at which the signed authorization of a lease ends: as long after the sample
-- of its issuance as its expiry is on the wall clock.
abbrev pub signed_moment : LeaseBinding → ClockSample → ℕ
signed_moment b c = c.monotonic + (b.signed_authorization_expires_at.instant - c.wall.instant)

-- A lease of this binding and issuance whose authority, if any, is within that moment.
pub record Signed (b : LeaseBinding) (c : ClockSample) (l : Lease) : Type 0 where
  pub binding : l.binding ≡ b
  pub issuance : l.issuance_clock ≡ c
  pub bounded :
      (a : ResolvedAuthority)
      → authority_of l.state ≡ some a
      → a.monotonic_maximum_deadline ≤ signed_moment b c

module _ (crates : Crates) (b : LeaseBinding) (c : ClockSample) (start : Reads crates c.wall)
    (end : Reads crates b.signed_authorization_expires_at) where
  fixed :
      {l u : Lease}
      → Move crates l u
      → (u.binding ≡ l.binding) × (u.issuance_clock ≡ l.issuance_clock)
  fixed (tick now p d e) = rw e (refl, refl)
  fixed (lapse now s p d e) = rw e (refl, refl)
  fixed (refusal code s e) = rw e (refl, refl)
  fixed (activation policy resolution now p s q k e) = rw e (refl, refl)
  fixed (renewing policy now r q k e) = rw e (refl, refl)
  fixed (settling a w m s e) = rw e (refl, refl)
  fixed (closing a reason h s r e) = rw e (refl, refl)
  fixed (revocation a reason h s r e) = rw e (refl, refl)
  fixed (failure a reason h s r e) = rw e (refl, refl)

  prepared :
      (l : Lease) (policy : EffectivePolicy) (resolution : LeaseResolution) (now : ClockSample)
      (p : PreparedActivation)
      → Signed b c l
      → preparation crates l policy resolution now ≡ ok p
      → p.authority.monotonic_maximum_deadline ≤ signed_moment b c
  unfolding preparation
  prepared l policy resolution now p v k =
      let (bound, first) = preparation-facts crates l policy resolution now k in
      let signed =
        bound.signed ∙ ap (λ (x : LeaseBinding). x.signed_authorization_expires_at) v.binding in
      let made : first_authority crates l policy resolution now ≡ ok p.authority =
        ground (arith, Result-cases (first_authority crates l policy resolution now)) in
      let lifetime =
        first_authority-lifetime crates l policy resolution now
          (subst (λ (x : ClockSample). Reads crates x.wall) (sym v.issuance) start)
          (subst (Reads crates) (sym signed) end) made in
      let here =
        subst
          (λ (t : UtcTimestamp).
            p.authority.monotonic_maximum_deadline
            ≤ l.issuance_clock.monotonic + (t.instant - l.issuance_clock.wall.instant))
          signed lifetime in
      subst
        (λ (x : ClockSample).
          p.authority.monotonic_maximum_deadline
          ≤ x.monotonic + (b.signed_authorization_expires_at.instant - x.wall.instant))
        v.issuance here

  -- Without an authority, only an activation gives one.
  first :
      (l u : Lease)
      → Signed b c l
      → authority_of l.state ≡ none
      → Move crates l u
      → (a : ResolvedAuthority) → authority_of u.state ≡ some a
      → a.monotonic_maximum_deadline ≤ signed_moment b c
  unfolding authority_of
  first l u v n (tick now p d e) a h = absurd (ground arith)
  first l u v n (lapse now s p d e) a h = absurd (ground (arith, due-authority l.state now d))
  first l u v n (refusal code s e) a h = absurd (ground arith)
  first l u v n (activation policy resolution now p s q k e) a h =
      let same : p.authority ≡ a = ground arith in
      subst (λ (x : ResolvedAuthority). x.monotonic_maximum_deadline ≤ signed_moment b c) same
        (prepared l policy resolution now p v k)
  first l u v n (renewing policy now r q k e) a h =
      let (old, s, bound, facts) = renewal-facts crates l policy now k in absurd (ground arith)
  first l u v n (settling x w m s e) a h = absurd (ground arith)
  first l u v n (closing x reason t s r e) a h = absurd (ground arith)
  first l u v n (revocation x reason t s r e) a h = absurd (ground arith)
  first l u v n (failure x reason t s r e) a h = absurd (ground arith)

  Move-Signed : (l u : Lease) → Signed b c l → Move crates l u → Signed b c u
  Move-Signed l u v m =
      let (one, two) = fixed m in
      record {
        binding = one ∙ v.binding;
        issuance = two ∙ v.issuance;
        bounded = elim (Option-cases (authority_of l.state)) [
          | inl n ↦ first l u v n m
          | inr (old, k) ↦
              let (new, held, narrows) = Move-Keeps crates l u m old k in
              λ a h.
                let same : new ≡ a = ground arith in
                let before = v.bounded old k in
                let after : new.monotonic_maximum_deadline ≤ old.monotonic_maximum_deadline =
                  narrows.monotonic_maximum in
                subst (λ (x : ResolvedAuthority). x.monotonic_maximum_deadline ≤ signed_moment b c)
                  same (omega (arith, before, after))
        ];
      }

  step-Signed : (l : Lease) (call : Call) → Signed b c l → Signed b c (step crates l call)
  step-Signed l call v = go _ (step-Moves crates l call)
    where
      go : (u : Lease) → Moves crates l u → Signed b c u
      go u (stay e) = subst (Signed b c) (sym e) v
      go u (move m) = Move-Signed l u v m
      go u (later_move now p d m) = Move-Signed _ u (Move-Signed l _ v (tick now p d refl)) m

  run-Signed : (l : Lease) (calls : List Call) → Signed b c l → Signed b c (run crates l calls)
  unfolding run
  run-Signed l [] v = v
  run-Signed l (call ∷ calls) v = run-Signed (step crates l call) calls (step-Signed l call v)

  -- Whatever calls of the ten operations of a history are made on a requested lease, and whether
  -- they succeed or fail, if the texts of its issuance and of its signed expiry read as their
  -- instants: the deadlines of its authority lie after issuance and within its maximum, the maximum
  -- is within the signed authorization on the wall clock and, measured from issuance, on the
  -- monotonic clock, its generation is a contract generation, a live lease has not reached a
  -- monotonic deadline that it has observed, and an ended one has a reason of its status.
  pub run-requested-Inv :
      (calls : List Call)
      → Inv (run crates (new_requested b c) calls)
        × Signed b c (run crates (new_requested b c) calls)
  unfolding new_requested authority_of
  run-requested-Inv calls = (
    run-new_requested-Inv crates b c calls,
    run-Signed _ calls
        (record { binding = refl; issuance = refl; bounded = λ a h. absurd (ground arith) }),
  )
