-- ===== src/Policy/Extraction.antt =====
-- A valid configuration always yields the policies of its profiles: `ProfilePolicy::from_config` of
-- src/automation/policy.rs accepts what src/model/validation.rs accepts.
use aictx.Base.{
  ◌≡◌, ◌≢◌, refl, sym, subst, Bool, true, false, some, List, [], ◌∷◌, ◌++◌, map, Text, codes, ◌==◌,
  all, contains, strip_prefix, split_once-append, ok, arith, text_eq, nat_eq, ==_iff, Option-cases,
  inl, inr, Bool-cases,
}
use aictx.Contracts.Types.{Provider, AutomationAuthMode, auth_mode_eq, provider_eq}
use aictx.Contracts.Identifiers.{
  Parsed, bounded_word, valid_safe_id, parse_safe_id, valid_parts, parse_reference,
  parse_caller_subject, is_profile_character, reference_provider, parse_profile_ref,
}
use aictx.Contracts.Temporal.{maximum_ttl_seconds, duration_seconds}
use aictx.Policy.Digest.{provider_label}
use aictx.Policy.Types.{ProfilePolicy}
use aictx.Policy.FromConfig.{profile_auth_mode, contract_role, collect, from_profile, from_config}
use aictx.Resolver.Context.{ProfileId, get, profile_id_eq}
use aictx.Model.Name.{colon, valid_name, display_profile_id}
use aictx.Model.NameLaws.{provider_label-Free}
use aictx.Model.Automation.{
  AutomationPolicy, validate_label, valid_environment_label, valid_suffix, is_suffix_character,
  validate_caller_subject, validate_each, validate_automation,
}
use aictx.Model.CanonicalUid.{strip_prefix-eq}
use aictx.Model.Wif.{Encoder}
use aictx.Model.Profile.{
  Profile, profile_provider, profile_uid_of, automation_of, uses_wif, validate_profile,
}
use aictx.Model.Config.{Config, ConfigAuthority, validate_config}
use aictx.Model.ConfigLaws.{All, Entry, SoundEntry}
use aictx.Model.SoundConfig.{validate_each-All, validate_config-SoundConfig}

validate_label-parse :
    (value : Text) → validate_label value ≡ ok tt → parse_safe_id value ≡ ok value
unfolding validate_label valid_environment_label parse_safe_id valid_safe_id bounded_word
validate_label-parse value h = ground arith

suffix-Free : (s : Text) → all is_suffix_character s ≡ true → contains s colon ≡ false
suffix-Free [] h = refl
suffix-Free (c ∷ s) h = ground (arith, suffix-Free s)

caller_parts :
    (suffix : Text)
    → valid_suffix suffix ≡ true
    → valid_parts (some (codes "caller", suffix)) (codes "caller" ∷ []) ≡ true
unfolding valid_suffix valid_parts bounded_word
caller_parts suffix valid =
    ground (arith, suffix-Free suffix, ==_iff (codes "caller") (codes "caller"))

validate_caller_subject-parse :
    (value : Text) → validate_caller_subject value ≡ ok tt → parse_caller_subject value ≡ ok value
unfolding validate_caller_subject parse_caller_subject parse_reference
validate_caller_subject-parse value h = elim (Option-cases (strip_prefix value (codes "caller:"))) [
  | inl missing ↦ absurd (ground arith)
  | inr (suffix, found) ↦
      let whole : value ≡ codes "caller" ++ colon ∷ suffix =
        strip_prefix-eq value (codes "caller:") suffix found in
      let split = split_once-append colon (codes "caller") suffix (omega arith) in
      rw whole (ground (arith, split, caller_parts suffix))
]

collect-All :
    (parse : Text → Parsed Text) (values : List Text)
    → All (λ v. parse v ≡ ok v) values
    → collect parse values ≡ ok values
unfolding collect
collect-All parse [] every = refl
collect-All parse (v ∷ rest) (first, others) = ground (arith, first, collect-All parse rest others)

reference_provider_label :
    (provider : Provider) → reference_provider (provider_label provider) ≡ some provider
unfolding reference_provider provider_label
reference_provider_label Provider.claude = ground (arith, ==_iff (codes "claude") (codes "claude"))
reference_provider_label Provider.codex =
    ground (arith, ==_iff (codes "codex") (codes "codex"), ==_iff (codes "codex") (codes "claude"))

valid_name-bounded_word :
    (name : Text) → valid_name name ≡ true → bounded_word is_profile_character 64 name ≡ true
unfolding valid_name bounded_word
valid_name-bounded_word name valid = ground arith

parse_profile_ref-display :
    (id : ProfileId)
    → valid_name id.name ≡ true
    → parse_profile_ref (display_profile_id id)
      ≡ ok (record { provider = id.provider; value = display_profile_id id })
unfolding parse_profile_ref display_profile_id
parse_profile_ref-display id valid = ground (
  arith,
  split_once-append colon (provider_label id.provider) id.name (provider_label-Free id.provider),
  reference_provider_label id.provider,
  valid_name-bounded_word id.name,
)

-- What `from_profile` needs of the automation policy.
record Extractable (p : AutomationPolicy) : Type 0 where
  environments : All (λ v. parse_safe_id v ≡ ok v) p.environments
  caller_subjects : All (λ v. parse_caller_subject v ≡ ok v) p.caller_subjects
  ttl : maximum_ttl_seconds p.lease_ttl_seconds ≡ ok p.lease_ttl_seconds
  session : duration_seconds p.max_session_seconds ≡ ok p.max_session_seconds
  leases : p.max_concurrent_leases ≢ 0

validate_automation-Extractable :
    (p : AutomationPolicy) (is_wif : Bool) → validate_automation p is_wif ≡ ok tt → Extractable p
unfolding validate_automation maximum_ttl_seconds duration_seconds
validate_automation-Extractable p is_wif h =
    let labels : validate_each validate_label p.environments ≡ ok tt = ground arith in
    let callers : validate_each validate_caller_subject p.caller_subjects ≡ ok tt = ground arith in
    record {
      environments =
          validate_each-All (λ v. parse_safe_id v ≡ ok v) _ p.environments validate_label-parse
            labels;
      caller_subjects =
          validate_each-All (λ v. parse_caller_subject v ≡ ok v) _ p.caller_subjects
            validate_caller_subject-parse callers;
      ttl = ground arith;
      session = ground arith;
      leases = ground arith;
    }

auth_mode-uses_wif :
    (profile : Profile) → (profile_auth_mode profile == AutomationAuthMode.wif) ≡ uses_wif profile
unfolding profile_auth_mode uses_wif
auth_mode-uses_wif (Profile.claude p) = ground arith
auth_mode-uses_wif (Profile.codex p) = ground arith

-- The policy is the profile's own.
pub record ExtractedFrom (id : ProfileId) (profile : Profile) (policy : ProfilePolicy)
    : Type 0 where
  pub profile_uid : policy.profile_uid ≡ profile_uid_of profile
  pub reference :
      policy.profile_ref ≡ record { provider = id.provider; value = display_profile_id id }
  pub provider : policy.provider ≡ id.provider
  pub auth_mode : policy.auth_mode ≡ profile_auth_mode profile
  pub eligible : policy.eligible ≡ (automation_of profile).eligible
  pub environments : policy.environments ≡ (automation_of profile).environments
  pub roles : policy.roles ≡ map contract_role (automation_of profile).roles
  pub caller_subjects : policy.caller_subjects ≡ (automation_of profile).caller_subjects
  pub ttl : policy.maximum_ttl_seconds ≡ (automation_of profile).lease_ttl_seconds
  pub session : policy.maximum_session_seconds ≡ (automation_of profile).max_session_seconds
  pub leases : policy.maximum_concurrent_leases ≡ (automation_of profile).max_concurrent_leases
  pub concurrency : policy.concurrency_mode ≡ (automation_of profile).concurrency_mode
  pub shared_state :
      policy.shared_state_isolation_requirement
      ≡ (automation_of profile).shared_state_isolation_requirement
  pub workload_identity :
      policy.requirements.workload_identity ≡ (automation_of profile).require_workload_identity
  pub authentication_exception :
      policy.requirements.authentication_exception
      ≡ (automation_of profile).authentication_exception_acknowledged
  pub isolation_exception :
      policy.requirements.isolation_exception
      ≡ (automation_of profile).isolation_exception_acknowledged

abbrev policy_of : ProfileId → Profile → ProfilePolicy
policy_of id profile =
    let p = automation_of profile in
    record {
      profile_uid = profile_uid_of profile;
      profile_ref = record { provider = id.provider; value = display_profile_id id };
      provider = profile_provider profile;
      auth_mode = profile_auth_mode profile;
      eligible = p.eligible;
      environments = p.environments;
      roles = map contract_role p.roles;
      caller_subjects = p.caller_subjects;
      maximum_ttl_seconds = p.lease_ttl_seconds;
      maximum_session_seconds = p.max_session_seconds;
      maximum_concurrent_leases = p.max_concurrent_leases;
      concurrency_mode = p.concurrency_mode;
      shared_state_isolation_requirement = p.shared_state_isolation_requirement;
      requirements = record {
        workload_identity = p.require_workload_identity;
        authentication_exception = p.authentication_exception_acknowledged;
        isolation_exception = p.isolation_exception_acknowledged;
      };
    }

from_profile_total :
    (id : ProfileId) (profile : Profile)
    → id.provider ≡ profile_provider profile
    → valid_name id.name ≡ true
    → validate_automation (automation_of profile) (uses_wif profile) ≡ ok tt
    → (policy : ProfilePolicy) × (from_profile id profile ≡ ok policy)
      × ExtractedFrom id profile policy
unfolding from_profile
from_profile_total id profile provider valid automation =
    let p = automation_of profile in
    let e = validate_automation-Extractable p (uses_wif profile) automation in
    let checked : validate_automation p (profile_auth_mode profile == AutomationAuthMode.wif)
        ≡ ok tt =
      subst (λ w. validate_automation p w ≡ ok tt) (sym (auth_mode-uses_wif profile)) automation in
    (
      policy_of id profile,
      ground (
        arith,
        checked,
        ==_iff id.provider (profile_provider profile),
        collect-All parse_safe_id p.environments e.environments,
        collect-All parse_caller_subject p.caller_subjects e.caller_subjects,
        parse_profile_ref-display id valid,
        e.ttl,
        e.session,
        e.leases,
      ),
      record {
        profile_uid = refl;
        reference = refl;
        provider = sym provider;
        auth_mode = refl;
        eligible = refl;
        environments = refl;
        roles = refl;
        caller_subjects = refl;
        ttl = refl;
        session = refl;
        leases = refl;
        concurrency = refl;
        shared_state = refl;
        workload_identity = refl;
        authentication_exception = refl;
        isolation_exception = refl;
      },
    )

get-All {κ} :
    (P : Entry → Type κ) (entries : List Entry) (id : ProfileId) (profile : Profile)
    → All P entries
    → get entries id ≡ some profile
    → P (id, profile)
get-All P [] id profile every found = cc
get-All P ((key, value) ∷ rest) id profile (first, others) found = elim (Bool-cases (key == id)) [
  | inl same ↦
      let k : key ≡ id = (==_iff key id).0 same in
      let v : value ≡ profile = ground arith in
      let pair : (key, value) ≡ (id, profile) = λ i. (k i, v i) in subst P pair first
  | inr differs ↦ get-All P rest id profile others (ground arith)
]

validate_profile-automation :
    (encode : Encoder) (profile : Profile)
    → validate_profile encode profile ≡ ok tt
    → validate_automation (automation_of profile) (uses_wif profile) ≡ ok tt
unfolding validate_profile
validate_profile-automation encode profile h = ground arith

-- A persisted configuration that validates yields the policy of every profile that it holds under a
-- valid name: no identifier, limit or reference that the configuration accepts is refused by the
-- contracts, and the policy repeats the profile's own values.
pub from_config_total :
    (sha256 : Text → Text) (encode : Encoder) (config : Config) (id : ProfileId) (profile : Profile)
    → config.authority ≡ ConfigAuthority.persisted
    → validate_config sha256 encode config ≡ ok tt
    → get config.profiles id ≡ some profile
    → valid_name id.name ≡ true
    → (policy : ProfilePolicy) × (from_config sha256 encode config id ≡ ok policy)
      × ExtractedFrom id profile policy
unfolding from_config
from_config_total sha256 encode config id profile persisted valid held named =
    let sound = validate_config-SoundConfig sha256 encode config valid in
    let entry =
      get-All (SoundEntry sha256 encode config) config.profiles id profile sound.entries held in
    let (policy, extracted, from) =
      from_profile_total id profile entry.provider named
        (validate_profile-automation encode profile entry.profile) in
    (policy, ground arith, from)
