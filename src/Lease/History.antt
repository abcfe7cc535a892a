-- ===== src/Lease/History.antt =====
-- Histories of a lease: the calls of its public operations, and the lease that a sequence of calls
-- leaves behind. An operation that fails may still have moved the lease. Activation is the call
-- `activate`; its two halves, which the store also calls one after the other, are no calls of their
-- own.
use aictx.Base.{List, [], ◌∷◌}
use aictx.Contracts.Types.{LeaseReasonCode, RefusalCode}
use aictx.Contracts.Request.{Crates}
use aictx.Policy.Types.{EffectivePolicy}
use aictx.Lease.Clock.{ClockSample}
use aictx.Lease.State.{LeaseResolution, LeaseControl, Lease}
use aictx.Lease.Operations
use aictx.Lease.Renewal
use aictx.Lease.Activation

pub data Call : Type 0 where
  refuses : RefusalCode → Call
  activates : EffectivePolicy → LeaseResolution → ClockSample → Call
  begins_renewal : LeaseControl → EffectivePolicy → ClockSample → Call
  acknowledges_renewal : LeaseControl → ClockSample → Call
  closes : LeaseControl → LeaseReasonCode → ClockSample → Call
  revokes : LeaseReasonCode → Call
  revokes_controlled : LeaseControl → ClockSample → Call
  marks_error : LeaseReasonCode → Call
  enforces_deadlines : ClockSample → Call
  authorizes_launch : LeaseControl → EffectivePolicy → ClockSample → Call

unfoldable pub step : Crates → Lease → Call → Lease
step crates l (refuses code) = (Operations.refuse l code).0
step crates l (activates policy resolution now) =
    (Activation.activate crates l policy resolution now).0
step crates l (begins_renewal control policy now) =
    (Renewal.begin_renewal crates l control policy now).0
step crates l (acknowledges_renewal control now) = (Operations.acknowledge_renewal l control now).0
step crates l (closes control reason now) = (Operations.close l control reason now).0
step crates l (revokes reason) = (Operations.revoke l reason).0
step crates l (revokes_controlled control now) = (Operations.revoke_controlled l control now).0
step crates l (marks_error reason) = (Operations.mark_error l reason).0
step crates l (enforces_deadlines now) = (Operations.enforce_deadlines l now).0
step crates l (authorizes_launch control policy now) =
    (Renewal.authorize_launch crates l control policy now).0

unfoldable pub run : Crates → Lease → List Call → Lease
unfolding step
run crates l [] = l
run crates l (c ∷ cs) = run crates (step crates l c) cs
