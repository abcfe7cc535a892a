-- ===== src/Model/Config.antt =====
-- The configuration and its validation: `Config` of src/model.rs and `Config::validate` of
-- src/model/validation.rs. A map is the list of its entries in the order of its keys, and a set the
-- list of its elements; SHA-256 and the encoder of `serde_json` are arguments.
use aictx.Base.{
  ℕ, ℕ_discrete, Bool, not, ◌&&◌, ◌||◌, Option, List, [], ◌∷◌, Text, Eq, ◌==◌, contains, length,
  has_control, Result, ok, ◌>>=◌, ◌>>◌, nat_eq, text_eq, if◌then◌else◌,
}
use aictx.Contracts.Types.{Provider, provider_eq}
use aictx.Policy.Types.{is_none}
use aictx.Resolver.Context.{ProfileId, Context, profile_id_eq, get, contains_key, ascii_lowercase}
use aictx.Model.Name.{ModelError}
use aictx.Model.FilePath.{
  FilePath, Component, components_eq, is_utf8, is_absolute, components, any_relative,
}
use aictx.Model.ProfileUid.{for_state_dir}
use aictx.Model.Automation.{Validation, validate_each, is_empty}
use aictx.Model.Wif.{Encoder, validate_optional}
use aictx.Model.Profile.{
  Profile, profile_provider, profile_uid_of, state_dir_of, reject, validate_profile,
}

abbrev pub config_schema_version : ℕ
config_schema_version = 2

pub record PathBinding : Type 0 where
  pub path : FilePath
  pub context : Text

pub data ConfigAuthority : Type 0 where
  persisted projected_legacy : ConfigAuthority

pub record Settings : Type 0 where
  pub require_billing_confirmation_on_change : Bool
  pub show_run_banner : Bool
  pub telemetry : Bool

pub record BinaryConfig : Type 0 where
  pub claude : FilePath
  pub codex : FilePath

pub record Config : Type 0 where
  pub version : ℕ
  pub installation_uid : Text
  pub default_context : Option Text
  pub settings : Settings
  pub binaries : BinaryConfig
  pub profiles : List (ProfileId × Profile)
  pub retired_profile_uids : List Text
  pub contexts : List (Text × Context)
  pub bindings : List PathBinding
  pub authority : ConfigAuthority

abbrev pub FoldedName : Type 0
FoldedName = Provider × Text

unfoldable pub FoldedName-discrete : Discrete FoldedName
FoldedName-discrete = hlevel ℕ_discrete

instance abbrev pub folded_name_eq : Eq FoldedName
folded_name_eq = record { dec = FoldedName-discrete }

unfoldable pub validate_persisted_path : FilePath → Validation
validate_persisted_path path = reject (has_control path)

unfoldable pub reject_relative_components : FilePath → Validation
reject_relative_components path = reject (any_relative (components path))

unfoldable pub validate_binary : FilePath → Validation
unfolding validate_persisted_path reject_relative_components
validate_binary binary = do
  validate_persisted_path binary
  reject (is_empty binary || not (is_absolute binary) && not (length (components binary) == 1))
  if is_absolute binary then reject_relative_components binary else ok tt

-- What the loop over the profiles has seen.
pub record Seen : Type 0 where
  pub names : List FoldedName
  pub uids : List Text
  pub state_dirs : List Text

abbrev pub folded_name : ProfileId → FoldedName
folded_name id = (id.provider, ascii_lowercase id.name)

-- One round of the loop over the profiles.
unfoldable pub validate_entry :
    (Text → Text) → Encoder → Config → Seen → ProfileId × Profile → Result ModelError Seen
unfolding profile_provider profile_uid_of state_dir_of validate_persisted_path validate_profile
    for_state_dir
validate_entry sha256 encode c seen (id, profile) = do
  reject (contains seen.names (folded_name id))
  reject (not (id.provider == profile_provider profile))
  reject (not (is_absolute (state_dir_of profile)))
  validate_persisted_path (state_dir_of profile)
  reject (any_relative (components (state_dir_of profile)))
  reject (not (is_utf8 (state_dir_of profile)))
  let state_dir = ascii_lowercase (state_dir_of profile)
  reject (contains seen.state_dirs state_dir)
  expected_uid ← for_state_dir sha256 c.installation_uid id.provider (state_dir_of profile)
  reject (not (profile_uid_of profile == expected_uid))
  reject (contains seen.uids (profile_uid_of profile))
  reject (contains c.retired_profile_uids (profile_uid_of profile))
  validate_profile encode profile
  ok (record {
    names = folded_name id ∷ seen.names;
    uids = profile_uid_of profile ∷ seen.uids;
    state_dirs = state_dir ∷ seen.state_dirs;
  })

unfoldable pub validate_entries :
    (Text → Text) → Encoder → Config → Seen → List (ProfileId × Profile) → Validation
unfolding validate_entry
validate_entries sha256 encode c seen [] = ok tt
validate_entries sha256 encode c seen (entry ∷ rest) = do
  next ← validate_entry sha256 encode c seen entry
  validate_entries sha256 encode c next rest

-- `BTreeMap::contains_key` of the profiles.
abbrev pub has_profile : Config → ProfileId → Bool
has_profile c id = not (is_none (get c.profiles id))

unfoldable pub validate_slot : Config → Provider → ProfileId → Validation
validate_slot c provider id = do
  reject (not (id.provider == provider))
  reject (not (has_profile c id))

unfoldable pub validate_context_entry : Config → Text × Context → Validation
unfolding validate_slot
validate_context_entry c (name, context) = do
  reject (is_none context.claude && is_none context.codex)
  validate_optional (validate_slot c Provider.claude) context.claude
  validate_optional (validate_slot c Provider.codex) context.codex

unfoldable pub has_context : Config → Text → Bool
has_context c name = contains_key c.contexts name

abbrev pub context_exists : Config → Text → Validation
context_exists c name = reject (not (has_context c name))

-- The loop over the bindings, with the paths that it has seen.
unfoldable pub validate_bindings : Config → List (List Component) → List PathBinding → Validation
unfolding validate_persisted_path reject_relative_components has_context
validate_bindings c seen [] = ok tt
validate_bindings c seen (binding ∷ rest) = do
  validate_persisted_path binding.path
  reject (not (is_absolute binding.path))
  reject_relative_components binding.path
  reject (contains seen (components binding.path))
  context_exists c binding.context
  validate_bindings c (components binding.path ∷ seen) rest

abbrev pub nothing_seen : Seen
nothing_seen = record { names = []; uids = []; state_dirs = [] }

-- `Config::validate`.
unfoldable pub validate_config : (Text → Text) → Encoder → Config → Validation
unfolding validate_binary validate_entries validate_each validate_context_entry has_context
    validate_bindings
validate_config sha256 encode c = do
  reject (not (c.version == config_schema_version))
  reject c.settings.telemetry
  validate_binary c.binaries.claude
  validate_binary c.binaries.codex
  validate_entries sha256 encode c nothing_seen c.profiles
  validate_each (validate_context_entry c) c.contexts
  validate_optional (context_exists c) c.default_context
  validate_bindings c [] c.bindings
