-- ===== src/Contracts/Admission.antt =====
-- Which requests a signed authorization covers: `validate_authorization` of
-- src/automation/contracts/request.rs.
use aictx.Base.{ℕ, ◌+◌, ◌*◌, ◌≤◌, ◌<◌, ◌≡◌, ◌↔◌, false, arith, ok, text_eq}
use aictx.Contracts.Types.{provider_eq, role_eq, profile_ref_eq}
use aictx.Contracts.Temporal.{UtcTimestamp, seconds_until}
use aictx.Contracts.Authorization.{WorkOrderAuthorization, exceeds}
use aictx.Contracts.Authorization
use aictx.Contracts.Request.{
  IdentityLeaseRequest, validate_structure, require_signed_fields, validate_authorization_binding,
  validate_authorization,
}

-- A number of whole seconds fits between two moments.
abbrev pub Fits : ℕ → UtcTimestamp → UtcTimestamp → Type 0
Fits seconds a b = a.instant + seconds * 1000000000 ≤ b.instant

-- The request repeats every signed field.
pub record Repeats (r : IdentityLeaseRequest) (a : WorkOrderAuthorization) : Type 0 where
  pub client_request_id : r.client_request_id ≡ a.client_request_id
  pub tenant_id : r.tenant_id ≡ a.tenant_id
  pub work_order_id : r.work_order_id ≡ a.work_order_id
  pub work_order_digest : r.work_order_digest ≡ a.work_order_digest
  pub run_id : r.run_id ≡ a.run_id
  pub attempt_id : r.attempt_id ≡ a.attempt_id
  pub role : r.role ≡ a.role
  pub provider : r.provider ≡ a.provider
  pub profile_ref : r.profile_ref ≡ a.profile_ref
  pub profile_uid : r.profile_uid ≡ a.profile_uid
  pub repository : r.repository ≡ a.repository
  pub workspace_id : r.workspace_id ≡ a.workspace_id
  pub environment : r.environment ≡ a.environment

-- An authorization that is in order by itself.
pub record Sound (a : WorkOrderAuthorization) : Type 0 where
  pub provider : a.provider ≡ a.profile_ref.provider
  pub window : a.not_before.instant < a.expires_at.instant
  pub limits : a.maximum_ttl_seconds ≤ a.maximum_session_seconds
  pub session_fits : Fits a.maximum_session_seconds a.not_before a.expires_at

-- A request that its authorization covers at a moment.
pub record Covered (r : IdentityLeaseRequest) (now : UtcTimestamp) : Type 0 where
  pub sound : Sound r.work_order_authorization
  pub provider : r.provider ≡ r.profile_ref.provider
  pub repeats : Repeats r r.work_order_authorization
  pub ttl : r.requested_ttl_seconds ≤ r.work_order_authorization.maximum_ttl_seconds
  pub session : r.requested_ttl_seconds ≤ r.work_order_authorization.maximum_session_seconds
  pub begun : r.work_order_authorization.not_before.instant ≤ now.instant
  pub current : now.instant < r.work_order_authorization.expires_at.instant
  pub ttl_fits : Fits r.requested_ttl_seconds now r.work_order_authorization.expires_at

-- Between ordered moments the count of whole seconds decides whether a duration fits.
seconds_until-Fits :
    (a b : UtcTimestamp) (n : ℕ)
    → a.instant < b.instant
    → (exceeds (seconds_until a b) n ≡ false) ↔ Fits n a b
unfolding seconds_until
seconds_until-Fits a b n p = ((λ h. ground arith), (λ h. ground arith))

Authorization_validate_iff :
    (a : WorkOrderAuthorization) → (Authorization.validate a ≡ ok tt) ↔ Sound a
unfolding Authorization.validate Authorization.validate_structure
Authorization_validate_iff a = (
  (λ h. record {
    provider = ground arith;
    window = ground arith;
    limits = ground arith;
    session_fits =
        let w : a.not_before.instant < a.expires_at.instant = ground arith in
        (seconds_until-Fits a.not_before a.expires_at a.maximum_session_seconds w).0 (ground arith);
  }),
  (λ s.
      let k =
        (seconds_until-Fits a.not_before a.expires_at a.maximum_session_seconds s.window).1
          s.session_fits in
      ground (arith, s.provider, s.window, s.limits)),
)

require_signed_fields_iff :
    (r : IdentityLeaseRequest)
    → (require_signed_fields r ≡ ok tt) ↔ Repeats r r.work_order_authorization
unfolding require_signed_fields
require_signed_fields_iff r = ((λ h. ground arith), (λ s. ground arith))

validate_structure_iff :
    (r : IdentityLeaseRequest)
    → (validate_structure r ≡ ok tt) ↔ (
        (r.provider ≡ r.profile_ref.provider)
        × (r.work_order_authorization.provider ≡ r.work_order_authorization.profile_ref.provider))
unfolding validate_structure Authorization.validate_structure
validate_structure_iff r = ((λ h. ground arith), (λ s. ground arith))

-- What an authorization binds, apart from the moment of use.
pub record Bound (r : IdentityLeaseRequest) : Type 0 where
  pub sound : Sound r.work_order_authorization
  pub provider : r.provider ≡ r.profile_ref.provider
  pub repeats : Repeats r r.work_order_authorization
  pub ttl : r.requested_ttl_seconds ≤ r.work_order_authorization.maximum_ttl_seconds
  pub session : r.requested_ttl_seconds ≤ r.work_order_authorization.maximum_session_seconds

validate_authorization_binding_iff :
    (r : IdentityLeaseRequest) → (validate_authorization_binding r ≡ ok tt) ↔ Bound r
unfolding validate_authorization_binding
validate_authorization_binding_iff r = (
  (λ h. record {
    sound = (Authorization_validate_iff r.work_order_authorization).0 (ground arith);
    provider = ((validate_structure_iff r).0 (ground arith)).0;
    repeats = (require_signed_fields_iff r).0 (ground arith);
    ttl = ground arith;
    session = ground arith;
  }),
  (λ b.
      let s = (Authorization_validate_iff r.work_order_authorization).1 b.sound in
      let p = (validate_structure_iff r).1 (b.provider, b.sound.provider) in
      let f = (require_signed_fields_iff r).1 b.repeats in ground (arith, b.ttl, b.session)),
)

-- A request is accepted at a moment exactly when its signed authorization is in order by itself
-- (providers agree, the window is not empty, the session fits in it and is no shorter than a
-- lease), all thirteen signed fields are repeated, the requested time is within both signed
-- limits, the moment lies in the window, and the requested time, in nanoseconds, ends in it.
pub validate_authorization_iff :
    (r : IdentityLeaseRequest) (now : UtcTimestamp)
    → (validate_authorization r now ≡ ok tt) ↔ Covered r now
unfolding validate_authorization
validate_authorization_iff r now = (
  (λ h.
      let b : Bound r = (validate_authorization_binding_iff r).0 (ground arith) in
      let w : now.instant < r.work_order_authorization.expires_at.instant = ground arith in
      record {
        sound = b.sound;
        provider = b.provider;
        repeats = b.repeats;
        ttl = b.ttl;
        session = b.session;
        begun = ground arith;
        current = w;
        ttl_fits =
            (seconds_until-Fits now r.work_order_authorization.expires_at r.requested_ttl_seconds
                w).0
              (ground arith);
      }),
  (λ c.
      let b = (validate_authorization_binding_iff r).1 (record {
        sound = c.sound;
        provider = c.provider;
        repeats = c.repeats;
        ttl = c.ttl;
        session = c.session;
      }) in
      let k =
        (seconds_until-Fits now r.work_order_authorization.expires_at r.requested_ttl_seconds
            c.current).1
          c.ttl_fits in
      ground (arith, c.begun, c.current)),
)
