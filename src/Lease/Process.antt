-- ===== src/Lease/Process.antt =====
-- Evidence of a worker process against a lease: `validate_process_binding` of
-- src/automation/lease/snapshot.rs.
use aictx.Base.{◌≡◌, refl, ◌∙◌, some, List, [], ◌∷◌, arith, ok}
use aictx.Contracts.Request.{Crates}
use aictx.Lease.State.{ResolvedAuthority, LeaseState, Lease, authority_of}
use aictx.Lease.Snapshot.{from_domain}
use aictx.Lease.Restore.{snapshot, persisted, validate_process_binding, persisted_authority}
use aictx.Lease.Move.{
  Move, tick, lapse, refusal, activation, renewing, settling, closing, revocation, failure, Moves,
  stay, move, later_move,
}
use aictx.Lease.Moves.{step-Moves}
use aictx.Lease.History.{Call, step, run}
use aictx.Lease.Lifecycle.{run-Keeps}

-- The binding and the issuance of a lease are fixed.
abbrev pub Fixed : Lease → Lease → Type 0
Fixed l u = (u.binding ≡ l.binding) × (u.issuance_clock ≡ l.issuance_clock)

module _ (crates : Crates) where
  Move-Fixed : {l u : Lease} → Move crates l u → Fixed l u
  Move-Fixed (tick now p d e) = (rw e, rw e)
  Move-Fixed (lapse now s p d e) = (rw e, rw e)
  Move-Fixed (refusal code s e) = (rw e, rw e)
  Move-Fixed (activation policy resolution now p s q k e) = (rw e, rw e)
  Move-Fixed (renewing policy now r q k e) = (rw e, rw e)
  Move-Fixed (settling a w m s e) = (rw e, rw e)
  Move-Fixed (closing a reason h s r e) = (rw e, rw e)
  Move-Fixed (revocation a reason h s r e) = (rw e, rw e)
  Move-Fixed (failure a reason h s r e) = (rw e, rw e)

  Moves-Fixed : {l u : Lease} → Moves crates l u → Fixed l u
  Moves-Fixed (stay e) = (rw e, rw e)
  Moves-Fixed (move m) = Move-Fixed m
  Moves-Fixed (later_move now p d m) = Move-Fixed m

  run-Fixed : (l : Lease) (cs : List Call) → Fixed l (run crates l cs)
  unfolding run
  run-Fixed l [] = (refl, refl)
  run-Fixed l (c ∷ cs) =
      let (b, i) = Moves-Fixed (step-Moves crates l c) in
      let (d, j) = run-Fixed (step crates l c) cs in (d ∙ b, j ∙ i)

persisted_authority-persisted :
    (s : LeaseState) {a : ResolvedAuthority}
    → authority_of s ≡ some a
    → persisted_authority (persisted s) ≡ ok (from_domain a)
unfolding persisted_authority persisted authority_of
persisted_authority-persisted LeaseState.requested h = absurd (ground arith)
persisted_authority-persisted (LeaseState.active a) h = ground arith
persisted_authority-persisted (LeaseState.renewing a w m) h = ground arith
persisted_authority-persisted (LeaseState.error a r) h = ground arith
persisted_authority-persisted (LeaseState.closed a r) h = ground arith
persisted_authority-persisted (LeaseState.revoked a r) h = ground arith
persisted_authority-persisted (LeaseState.expired a r) h = ground arith
persisted_authority-persisted (LeaseState.refused code) h = absurd (ground arith)

-- A process that was observed under an authority of a lease still matches the snapshot of that lease
-- after any calls, renewals and terminal states included: the same service generation, handle and
-- worker are accepted, with a fencing generation that has only grown since.
pub run-process :
    (crates : Crates) (l : Lease) (cs : List Call) (a : ResolvedAuthority)
    → authority_of l.state ≡ some a
    → validate_process_binding
        (snapshot (run crates l cs))
        l.issuance_clock.service_generation
        a.resolution.execution_handle
        a.resolution.worker_identity
        a.fencing_generation
      ≡ ok tt
unfolding validate_process_binding snapshot
run-process crates l cs a h =
    let (b, k, n) = run-Keeps crates l cs a h in
    let p = persisted_authority-persisted (run crates l cs).state k in
    let i = (run-Fixed crates l cs).1 in ground (arith, n)
