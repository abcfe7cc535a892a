-- ===== src/Lease/ReplayLaws.antt =====
-- Idempotency: src/automation/lease/replay.rs.

use aictx.Base.{
  ◌≡◌, ◌↔◌, ap, sym, ◌∙◌, ==_iff, ◌≤◌, ◌≢◌, ◌⊎◌, inl, inr, ◌&&◌, ◌==◌, Text, ok, arith, text_eq,
  Result-cases, Bool-cases,
}
use aictx.Contracts.Temporal.{UtcTimestamp}
use aictx.Contracts.ErrorContract.{AutomationErrorCode}
use aictx.Contracts.Request.{Crates, IdentityLeaseRequest, authority_digest}
use aictx.Lease.Replay.{
  ReplayBinding, unrelated_key, exact_retry, conflict, compare, retention_deadline, from_request,
}
use aictx.Lease.State.{replay_binding, new_requested}
use aictx.Lease.Clock.{ClockSample}
use aictx.Lease.Replay.{LeaseBinding}

-- The same authority for the same caller on the same host.
pub record SameAuthority (a b : ReplayBinding) : Type 0 where
  pub digest : a.authority_digest ≡ b.authority_digest
  pub caller : a.caller_subject ≡ b.caller_subject
  pub host : a.host_identity ≡ b.host_identity

-- The three dispositions of a candidate and when each is given.
pub data Disposed (a b : ReplayBinding) : Type 0 where
  unrelated : compare a b ≡ unrelated_key → a.client_request_id ≢ b.client_request_id → Disposed a b
  retry :
      compare a b ≡ exact_retry a.lease_id
      → a.client_request_id ≡ b.client_request_id
      → SameAuthority a b
      → Disposed a b
  conflicting :
      compare a b ≡ conflict AutomationErrorCode.idempotency_conflict
      → a.client_request_id ≡ b.client_request_id
      → ¬ SameAuthority a b
      → Disposed a b

-- A candidate with another key is unrelated; with the same key it is a retry, answered with the
-- first lease, exactly when its digest, caller and host are the same, and otherwise a conflict.
pub compare-Disposed : (a b : ReplayBinding) → Disposed a b
unfolding compare
compare-Disposed a b = elim (Bool-cases (a.client_request_id == b.client_request_id)) [
  | inr h ↦ unrelated (ground arith) (λ e. ground arith)
  | inl h ↦
      elim (Bool-cases (
        a.authority_digest == b.authority_digest
        && a.caller_subject == b.caller_subject
        && a.host_identity == b.host_identity)) [
          | inl q ↦
              retry (ground arith) (ground arith)
                (record { digest = ground arith; caller = ground arith; host = ground arith })
          | inr q ↦ conflicting (ground arith) (ground arith) (λ s. ground arith)
        ]
]

-- Of two leases bound to requests, the second is a retry of the first, answered with the first's
-- id, exactly when the requests have the same client request id and the same authority digest and
-- come from the same caller on the same host. Ids and clocks play no part.
pub from_request-retry :
    (crates : Crates) (r q : IdentityLeaseRequest) (caller host first caller' host' second : Text)
    (b c : LeaseBinding) (one two : ClockSample)
    → from_request crates first r caller host ≡ ok b
    → from_request crates second q caller' host' ≡ ok c
    → (compare (replay_binding (new_requested b one)) (replay_binding (new_requested c two))
        ≡ exact_retry first)
      ↔ ((r.client_request_id ≡ q.client_request_id)
          × (authority_digest crates r ≡ authority_digest crates q)
          × (caller ≡ caller')
          × (host ≡ host'))
unfolding from_request compare replay_binding new_requested
from_request-retry crates r q caller host first caller' host' second b c one two h k =
    elim (Result-cases (authority_digest crates r)) [
      | inr (e, d) ↦ absurd (ground arith)
      | inl (digest, d) ↦ elim (Result-cases (authority_digest crates q)) [
        | inr (e, f) ↦ absurd (ground arith)
        | inl (digest', f) ↦
            let same = ==_iff r.client_request_id q.client_request_id in
            let digests = ==_iff digest digest' in
            let callers = ==_iff caller caller' in
            let hosts = ==_iff host host' in
            (
              λ retried.
                  let equal : digest ≡ digest' = ground (arith, digests) in
                  (
                    ground (arith, same),
                    d ∙ ap ok equal ∙ sym f,
                    ground (arith, callers),
                    ground (arith, hosts),
                  ),
              λ (ids, authority, one_caller, one_host).
                  let equal : digest ≡ digest' = ground arith in
                  ground
                    (arith, same.1 ids, digests.1 equal, callers.1 one_caller, hosts.1 one_host),
            )
      ]
    ]

-- A binding is kept at least until its signed authorization and the local horizon have both passed,
-- and no longer than the later of the two.
pub retention_deadline-bounds :
    (b : ReplayBinding) (horizon : UtcTimestamp)
    → (b.signed_authorization_expires_at.instant ≤ (retention_deadline b horizon).instant)
      × (horizon.instant ≤ (retention_deadline b horizon).instant)
      × ((retention_deadline b horizon ≡ b.signed_authorization_expires_at)
          ⊎ (retention_deadline b horizon ≡ horizon))
unfolding retention_deadline
retention_deadline-bounds b horizon = (ground arith, ground arith, ground arith)
