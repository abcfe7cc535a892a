-- ===== src/Model/Profile.antt =====
-- Profiles and the checks of one profile: `Profile` of src/model.rs, and `validate_profile` of
-- src/model/validation.rs.
use aictx.Base.{
  Bool, true, false, not, ◌||◌, Option, none, some, Text, Eq, codes, ◌==◌, contains, has_control,
  split_once, strip_prefix, ok, ok_or, ◌>>=◌, ◌>>◌, refuse_if, nat_eq, text_eq,
}
use aictx.Contracts.Types.{Provider, option_text_eq}
use aictx.Policy.Types.{is_none}
use aictx.Model.Name.{ModelError}
use aictx.Model.FilePath.{FilePath}
use aictx.Model.Automation.{AutomationPolicy, Validation, validate_automation, is_empty}
use aictx.Model.Wif.{
  ClaudeWifConfig, CodexWifConfig, Encoder, validate_metadata, validate_optional,
  validate_claude_wif, validate_codex_wif,
}

pub data ClaudeAuth : Type 0 where
  subscription_token api_key wif : ClaudeAuth

pub data CodexAuth : Type 0 where
  wif chatgpt_oauth api_key access_token : CodexAuth

pub data BillingDomain : Type 0 where
  claude_subscription anthropic_api chatgpt_subscription openai_api : BillingDomain

pub data CodexCredentialStore : Type 0 where
  file keyring auto : CodexCredentialStore

unfoldable pub BillingDomain-discrete : Discrete BillingDomain
BillingDomain-discrete = hlevel

unfoldable pub CodexCredentialStore-discrete : Discrete CodexCredentialStore
CodexCredentialStore-discrete = hlevel

instance abbrev pub billing_eq : Eq BillingDomain
billing_eq = record { dec = BillingDomain-discrete }

instance abbrev pub credential_store_eq : Eq CodexCredentialStore
credential_store_eq = record { dec = CodexCredentialStore-discrete }

-- The variants of `Profile`.
pub record ClaudeProfile : Type 0 where
  pub profile_uid : Text
  pub billing_domain : BillingDomain
  pub auth : ClaudeAuth
  pub state_dir : FilePath
  pub secret_ref : Option Text
  pub account_hint : Option Text
  pub expected_organization : Option Text
  pub wif : Option ClaudeWifConfig
  pub automation : AutomationPolicy

pub record CodexProfile : Type 0 where
  pub profile_uid : Text
  pub billing_domain : BillingDomain
  pub auth : CodexAuth
  pub state_dir : FilePath
  pub secret_ref : Option Text
  pub account_hint : Option Text
  pub expected_workspace_id : Option Text
  pub credential_store : CodexCredentialStore
  pub trusted_runners_only : Bool
  pub wif : Option CodexWifConfig
  pub automation : AutomationPolicy

pub data Profile : Type 0 where
  claude : ClaudeProfile → Profile
  codex : CodexProfile → Profile

unfoldable pub profile_provider : Profile → Provider
profile_provider (Profile.claude p) = Provider.claude
profile_provider (Profile.codex p) = Provider.codex

unfoldable pub profile_uid_of : Profile → Text
profile_uid_of (Profile.claude p) = p.profile_uid
profile_uid_of (Profile.codex p) = p.profile_uid

unfoldable pub state_dir_of : Profile → FilePath
state_dir_of (Profile.claude p) = p.state_dir
state_dir_of (Profile.codex p) = p.state_dir

unfoldable pub automation_of : Profile → AutomationPolicy
automation_of (Profile.claude p) = p.automation
automation_of (Profile.codex p) = p.automation

-- `profile.auth_label() == "wif"`.
unfoldable pub uses_wif : Profile → Bool
uses_wif (Profile.claude p) = elim p.auth [ ClaudeAuth.wif ↦ true | _ ↦ false ]
uses_wif (Profile.codex p) = elim p.auth [ CodexAuth.wif ↦ true | _ ↦ false ]

abbrev pub reject : Bool → Validation
reject bad = refuse_if bad ModelError.invalid_config

-- `keyring://service/account`.
unfoldable pub valid_keyring : Option (Text × Text) → Bool
valid_keyring none = false
valid_keyring (some (service, account)) =
    not (is_empty service || is_empty account || contains account b'/')

unfoldable pub validate_secret_ref : Option Text → Validation
unfolding valid_keyring
validate_secret_ref secret_ref = do
  secret ← ok_or secret_ref ModelError.invalid_config
  reject (has_control secret)
  rest ← ok_or (strip_prefix secret (codes "keyring://")) ModelError.invalid_config
  reject (not (valid_keyring (split_once b'/' rest)))

unfoldable pub claude_billing : ClaudeAuth → BillingDomain
claude_billing ClaudeAuth.subscription_token = BillingDomain.claude_subscription
claude_billing _ = BillingDomain.anthropic_api

unfoldable pub codex_billing : CodexAuth → BillingDomain
codex_billing CodexAuth.api_key = BillingDomain.openai_api
codex_billing _ = BillingDomain.chatgpt_subscription

unfoldable pub validate_claude_auth : ClaudeAuth → ClaudeProfile → Validation
unfolding validate_secret_ref validate_claude_wif
validate_claude_auth ClaudeAuth.wif p = do
  reject (not (is_none p.secret_ref))
  metadata ← ok_or p.wif ModelError.invalid_config
  validate_claude_wif metadata
validate_claude_auth _ p = do validate_secret_ref p.secret_ref; reject (not (is_none p.wif))

unfoldable pub validate_codex_auth : Encoder → CodexAuth → CodexProfile → Validation
unfolding validate_secret_ref validate_codex_wif
validate_codex_auth encode CodexAuth.chatgpt_oauth p = do
  reject (not (is_none p.secret_ref))
  reject (not (is_none p.wif))
validate_codex_auth encode CodexAuth.wif p = do
  reject (not (is_none p.secret_ref))
  metadata ← ok_or p.wif ModelError.invalid_config
  reject (not (is_none p.expected_workspace_id))
  reject (not (p.credential_store == CodexCredentialStore.file) || p.trusted_runners_only)
  validate_codex_wif encode metadata
validate_codex_auth encode _ p = do validate_secret_ref p.secret_ref; reject (not (is_none p.wif))

-- `expected_workspace_id.as_deref().is_none_or(str::is_empty)`.
abbrev pub is_none_or_empty : Option Text → Bool
is_none_or_empty none = true
is_none_or_empty (some text) = is_empty text

unfoldable pub validate_codex_workspace : CodexAuth → CodexProfile → Validation
validate_codex_workspace CodexAuth.access_token p = do
  reject (is_none_or_empty p.expected_workspace_id)
  reject (not p.trusted_runners_only)
validate_codex_workspace CodexAuth.api_key p = reject (not (is_none p.expected_workspace_id))
validate_codex_workspace _ p = ok tt

unfoldable pub validate_profile_kind : Encoder → Profile → Validation
unfolding claude_billing codex_billing validate_claude_auth validate_codex_auth
    validate_codex_workspace validate_metadata
validate_profile_kind encode (Profile.claude p) = do
  validate_optional validate_metadata p.account_hint
  validate_optional validate_metadata p.expected_organization
  reject (not (p.billing_domain == claude_billing p.auth))
  validate_claude_auth p.auth p
validate_profile_kind encode (Profile.codex p) = do
  validate_optional validate_metadata p.account_hint
  validate_optional validate_metadata p.expected_workspace_id
  reject (not (p.billing_domain == codex_billing p.auth))
  validate_codex_auth encode p.auth p
  validate_codex_workspace p.auth p

-- `validate_profile`.
unfoldable pub validate_profile : Encoder → Profile → Validation
unfolding automation_of uses_wif validate_automation validate_profile_kind
validate_profile encode profile = do
  validate_automation (automation_of profile) (uses_wif profile)
  validate_profile_kind encode profile
