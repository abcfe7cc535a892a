-- ===== src/Model/Automation.antt =====
-- The operator's limits for unattended use of a profile: src/model/automation.rs. A set is the list
-- of its elements, and an error stands without its message.
use aictx.Base.{
  ℕ, Bool, true, false, not, ◌&&◌, ◌||◌, Option, none, List, [], ◌∷◌, Text, Eq, codes, ◌==◌, length,
  all, leb, ltb, is_ascii_alphanumeric, byte_length, starts_alphanumeric, strip_prefix, Result, ok,
  ok_or, ◌>>=◌, ◌>>◌, refuse_if, if◌then◌else◌, nat_eq, text_eq,
}
use aictx.Policy.Types.{AutomationConcurrencyMode, SharedStateIsolationRequirement, is_none}
use aictx.Model.Name.{ModelError}

abbrev pub max_ttl_seconds : ℕ
max_ttl_seconds = 86_400

abbrev pub max_session_seconds : ℕ
max_session_seconds = 604_800

abbrev pub max_concurrent_leases : ℕ
max_concurrent_leases = 64

abbrev pub max_environments : ℕ
max_environments = 32

abbrev pub max_caller_subjects : ℕ
max_caller_subjects = 64

pub data AutomationRole : Type 0 where
  implementer local_reviewer pr_reviewer : AutomationRole

unfoldable pub AutomationRole-discrete : Discrete AutomationRole
AutomationRole-discrete = hlevel

instance abbrev pub automation_role_eq : Eq AutomationRole
automation_role_eq = record { dec = AutomationRole-discrete }

pub record AutomationPolicy : Type 0 where
  pub eligible : Bool
  pub environments : List Text
  pub roles : List AutomationRole
  pub caller_subjects : List Text
  pub lease_ttl_seconds : ℕ
  pub max_session_seconds : ℕ
  pub max_concurrent_leases : ℕ
  pub concurrency_mode : AutomationConcurrencyMode
  pub shared_state_isolation_requirement : Option SharedStateIsolationRequirement
  pub require_workload_identity : Bool
  pub authentication_exception_acknowledged : Bool
  pub isolation_exception_acknowledged : Bool

abbrev pub default_policy : AutomationPolicy
default_policy = record {
  eligible = false;
  environments = [];
  roles = [];
  caller_subjects = [];
  lease_ttl_seconds = 900;
  max_session_seconds = 14_400;
  max_concurrent_leases = 1;
  concurrency_mode = AutomationConcurrencyMode.exclusive;
  shared_state_isolation_requirement = none;
  require_workload_identity = true;
  authentication_exception_acknowledged = false;
  isolation_exception_acknowledged = false;
}

abbrev pub Validation : Type 0
Validation = Result ModelError (Unit {0})

abbrev pub is_label_character : ℕ → Bool
is_label_character c =
    is_ascii_alphanumeric c
    || c == b'-'
    || c == b'_'
    || c == b'.'
    || c == b':'
    || c == b'@'
    || c == b'+'

unfoldable pub valid_environment_label : Text → Bool
valid_environment_label value =
    leb 1 (byte_length value)
    && leb (byte_length value) 128
    && starts_alphanumeric value
    && all is_label_character value

unfoldable pub validate_label : Text → Validation
unfolding valid_environment_label
validate_label value = refuse_if (not (valid_environment_label value)) ModelError.invalid_config

abbrev pub is_suffix_character : ℕ → Bool
is_suffix_character c = is_ascii_alphanumeric c || c == b'-' || c == b'_' || c == b'.'

unfoldable pub valid_suffix : Text → Bool
valid_suffix suffix =
    leb 1 (byte_length suffix)
    && leb (byte_length suffix) 128
    && starts_alphanumeric suffix
    && all is_suffix_character suffix

unfoldable pub validate_caller_subject : Text → Validation
unfolding valid_suffix
validate_caller_subject value = do
  suffix ← ok_or (strip_prefix value (codes "caller:")) ModelError.invalid_config
  refuse_if (not (valid_suffix suffix)) ModelError.invalid_config

-- `for value in values { validate(value)?; }`.
unfoldable pub validate_each {ℓ} : {A : Type ℓ} → (A → Validation) → List A → Validation
validate_each validate [] = ok tt
validate_each validate (value ∷ rest) = do validate value; validate_each validate rest

-- The match on the concurrency mode.
unfoldable pub validate_concurrency :
    AutomationConcurrencyMode → ℕ → Option SharedStateIsolationRequirement → Validation
validate_concurrency AutomationConcurrencyMode.exclusive leases requirement =
    refuse_if (not (leases == 1) || not (is_none requirement)) ModelError.invalid_config
validate_concurrency AutomationConcurrencyMode.shared leases requirement =
    refuse_if (ltb leases 2 || is_none requirement) ModelError.invalid_config

unfoldable pub any {ℓ} : {A : Type ℓ} → (A → Bool) → List A → Bool
any test [] = false
any test (x ∷ xs) = test x || any test xs

abbrev pub is_empty {ℓ} : {A : Type ℓ} → List A → Bool
is_empty [] = true
is_empty (x ∷ xs) = false

unfoldable pub has_nonlocal_environment : AutomationPolicy → Bool
unfolding any
has_nonlocal_environment p = any (λ (e : Text). not (e == codes "local-development")) p.environments

unfoldable pub has_nonreview_role : AutomationPolicy → Bool
unfolding any
has_nonreview_role p = any (λ r. not (r == AutomationRole.pr_reviewer)) p.roles

-- The checks of an eligible policy.
unfoldable pub validate_eligible : AutomationPolicy → Bool → Validation
unfolding has_nonlocal_environment
validate_eligible p is_wif = do
  refuse_if (is_empty p.environments || is_empty p.roles || is_empty p.caller_subjects)
      ModelError.invalid_config
  refuse_if (p.require_workload_identity && not is_wif) ModelError.invalid_config
  refuse_if
      (not is_wif && has_nonlocal_environment p && not p.authentication_exception_acknowledged)
      ModelError.invalid_config

-- `AutomationPolicy::validate`.
unfoldable pub validate_automation : AutomationPolicy → Bool → Validation
unfolding validate_label validate_caller_subject validate_each validate_concurrency
    has_nonlocal_environment has_nonreview_role validate_eligible
validate_automation p is_wif = do
  refuse_if (ltb p.lease_ttl_seconds 1 || ltb max_ttl_seconds p.lease_ttl_seconds)
      ModelError.invalid_config
  refuse_if
      (ltb p.max_session_seconds p.lease_ttl_seconds
        || ltb max_session_seconds p.max_session_seconds)
      ModelError.invalid_config
  refuse_if (ltb p.max_concurrent_leases 1 || ltb max_concurrent_leases p.max_concurrent_leases)
      ModelError.invalid_config
  refuse_if (ltb max_environments (length p.environments)) ModelError.invalid_config
  refuse_if (ltb max_caller_subjects (length p.caller_subjects)) ModelError.invalid_config
  validate_each validate_label p.environments
  validate_each validate_caller_subject p.caller_subjects
  validate_concurrency p.concurrency_mode p.max_concurrent_leases
      p.shared_state_isolation_requirement
  refuse_if (is_wif && p.authentication_exception_acknowledged) ModelError.invalid_config
  refuse_if (p.require_workload_identity && p.authentication_exception_acknowledged)
      ModelError.invalid_config
  refuse_if
      (p.isolation_exception_acknowledged && has_nonlocal_environment p && has_nonreview_role p)
      ModelError.invalid_config
  let eligible = validate_eligible p is_wif
  if not p.eligible then ok tt else eligible
