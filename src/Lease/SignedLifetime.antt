-- ===== src/Lease/SignedLifetime.antt =====
-- The monotonic maximum of an authority is within the signed authorization, measured from the
-- issuance of the lease: `first_authority` and `renewed_authority` of src/automation/lease.rs and
-- src/automation/lease/activation.rs, over any history.
use aictx.Base.{
  ℕ, ◌+◌, ◌-◌, ◌*◌, Text, ◌≤◌, ◌≡◌, sym, ap, inl, inr, Bool-cases, Option-cases, Result-cases, ok,
  arith,
}
use aictx.Contracts.Temporal.{UtcTimestamp, is_before, parse_timestamp, nanos_per_second}
use aictx.Contracts.Request.{Crates}
use aictx.Policy.Types.{EffectivePolicy}
use aictx.Lease.Clock.{
  ClockSample, add_seconds, parse_wall, wall_nanoseconds_between, checked_add_nanoseconds, earlier,
  canonical_utc,
}
use aictx.Lease.State.{LeaseResolution, ResolvedAuthority, Lease}
use aictx.Lease.Activation.{first_authority}

module _ (crates : Crates) where
  -- The instant of a timestamp is the one that its text has, as for every timestamp that was parsed.
  abbrev pub Reads : UtcTimestamp → Type 0
  Reads t = parse_wall crates.time t ≡ ok t.instant

  parse_timestamp-Reads :
      (wire : Text) {t : UtcTimestamp} → parse_timestamp crates.time wire ≡ ok t → Reads t
  unfolding parse_timestamp parse_wall
  parse_timestamp-Reads wire {t} h = elim (Option-cases (crates.time.parse wire)) [
    | inl none_read ↦ absurd (ground arith)
    | inr (parsed, k) ↦
        let same : t.wire ≡ wire = ground arith in
        let instant : t.instant ≡ parsed.0 = ground arith in rw (same, k) (ap ok (sym instant))
  ]

  add_seconds-Reads :
      (value : UtcTimestamp) (seconds : ℕ) {t : UtcTimestamp}
      → add_seconds crates.time value seconds ≡ ok t
      → Reads t
  unfolding add_seconds
  add_seconds-Reads value seconds {t} h = elim (Result-cases (parse_wall crates.time value)) [
    | inr (e, k) ↦ absurd (ground arith)
    | inl (start, k) ↦
        let wire = canonical_utc (crates.time.civil (start + seconds * nanos_per_second)) in
        let parsed : parse_timestamp crates.time wire ≡ ok t =
          ground (arith, Result-cases (parse_timestamp crates.time wire)) in
        parse_timestamp-Reads wire parsed
  ]

  between-Reads :
      (start end : UtcTimestamp) {d : ℕ}
      → Reads start
      → Reads end
      → wall_nanoseconds_between crates.time start end ≡ ok d
      → d ≡ end.instant - start.instant
  unfolding wall_nanoseconds_between
  between-Reads start end s e h = ground (arith, s, e, h)

  earlier-Reads :
      (a b : UtcTimestamp)
      → Reads a
      → Reads b
      → Reads (earlier a b) × ((earlier a b).instant ≤ a.instant)
  earlier-Reads a b h k = elim (Bool-cases (is_before a b)) [
    | inl first ↦ let same : earlier a b ≡ a = ground arith in rw same (h, omega arith)
    | inr second ↦ let same : earlier a b ≡ b = ground arith in rw same (k, ground arith)
  ]

  pub first_authority-lifetime :
      (l : Lease) (policy : EffectivePolicy) (resolution : LeaseResolution) (now : ClockSample)
      {a : ResolvedAuthority}
      → Reads l.issuance_clock.wall
      → Reads policy.signed_expires_at
      → first_authority crates l policy resolution now ≡ ok a
      → a.monotonic_maximum_deadline
        ≤ l.issuance_clock.monotonic
          + (policy.signed_expires_at.instant - l.issuance_clock.wall.instant)
  unfolding first_authority checked_add_nanoseconds
  first_authority-lifetime l policy resolution now {a} start signed h =
      let issued = l.issuance_clock in
      let session = add_seconds crates.time issued.wall policy.maximum_session_seconds in
      elim (Result-cases session) [
        | inr (e, k) ↦ absurd (ground arith)
        | inl (by_session, k) ↦
            let maximum = earlier policy.signed_expires_at by_session in
            let (reads, bound) =
              earlier-Reads policy.signed_expires_at by_session signed
                (add_seconds-Reads issued.wall policy.maximum_session_seconds k) in
            elim (Result-cases (wall_nanoseconds_between crates.time issued.wall maximum)) [
              | inr (e, q) ↦ absurd (ground arith)
              | inl (runtime, q) ↦
                  let exact = between-Reads issued.wall maximum start reads q in
                  let value : a.monotonic_maximum_deadline ≡ issued.monotonic + runtime =
                    ground arith in
                  omega (arith, value, exact, bound)
            ]
      ]
