-- ===== src/Examples/Model.antt =====
-- A configuration with one profile, and the theorems on the model at it: src/model.
use aictx.Base.{
  ℕ_discrete, Text-discrete, ◌≡◌, refl, true, false, some, none, [], ◌∷◌, ◌++◌, Text, codes, ok,
  arith, split_once, split_all, strip_prefix, has_control, contains, text_eq,
}
use aictx.Contracts.Types.{Provider, Provider-discrete}
use aictx.Policy.Digest.{provider_label}
use aictx.Policy.Types.{ProfilePolicy}
use aictx.Policy.FromConfig.{from_config}
use aictx.Policy.Extraction.{ExtractedFrom, from_config_total}
use aictx.Resolver.Context.{ProfileId, ProfileId-discrete, get, profile_id_eq}
use aictx.Model.Name.{valid_name, display_profile_id, parse_profile_id}
use aictx.Model.NameLaws.{parse_profile_id_iff}
use aictx.Model.FilePath.{
  FilePath, Components-discrete, slash, is_absolute, components, any_relative, file_name,
}
use aictx.Model.ProfileUid.{
  profile_prefix, encode_digits, encode_crockford, parse_uid, for_state_dir, crockford_digit,
}
use aictx.Model.CanonicalUid.{parse_uid_iff}
use aictx.Model.DerivedUid.{for_state_dir-parse_uid}
use aictx.Model.Automation.{AutomationRole, AutomationRole-discrete, default_policy}
use aictx.Model.Wif.{Encoder}
use aictx.Model.Profile.{
  ClaudeAuth, BillingDomain, Profile, BillingDomain-discrete, validate_profile,
}
use aictx.Model.Config.{
  Config, ConfigAuthority, FoldedName-discrete, validate_config, reject_relative_components,
}
use aictx.Model.SoundConfig.{SoundConfig, validate_config-SoundConfig}
use aictx.Model.PathLaws.{reject_relative_components_iff}

abbrev hash : Text → Text
hash text = codes "0123456789abcdef0123456789abcdef"

abbrev encode : Encoder
encode context = some (codes "{}")

abbrev build : ProfileId
build = record { provider = Provider.claude; name = codes "build" }

abbrev uid : Text
uid = profile_prefix ++ encode_crockford (codes "0123456789abcdef")

abbrev state_dir : FilePath
state_dir = codes "/state/build"

abbrev profile : Profile
profile = Profile.claude (record {
  profile_uid = uid;
  billing_domain = BillingDomain.anthropic_api;
  auth = ClaudeAuth.api_key;
  state_dir = state_dir;
  secret_ref = some (codes "keyring://ctxlane/build");
  account_hint = none;
  expected_organization = none;
  wif = none;
  automation = record default_policy {
    eligible = true;
    environments = codes "local-development" ∷ [];
    roles = AutomationRole.pr_reviewer ∷ [];
    caller_subjects = codes "caller:ci" ∷ [];
    require_workload_identity = false;
  };
})

abbrev config : Config
config = record {
  version = 2;
  installation_uid = codes "installation_00000000000000000000000000";
  default_context = some (codes "work");
  settings = record {
    require_billing_confirmation_on_change = true;
    show_run_banner = true;
    telemetry = false;
  };
  binaries = record { claude = codes "claude"; codex = codes "/opt/codex" };
  profiles = (build, profile) ∷ [];
  retired_profile_uids = [];
  contexts = (codes "work", record { claude = some build; codex = none }) ∷ [];
  bindings = record { path = codes "/home/work"; context = codes "work" } ∷ [];
  authority = ConfigAuthority.persisted;
}

config_validates : validate_config hash encode config ≡ ok tt
unfolding validate_config validate_profile encode_crockford crockford_digit components any_relative
    file_name is_absolute for_state_dir split_once split_all strip_prefix has_control provider_label
    Provider-discrete ProfileId-discrete Components-discrete AutomationRole-discrete
    BillingDomain-discrete FoldedName-discrete Text-discrete ℕ_discrete valid_name
config_validates = refl

validate_config-SoundConfig_example : SoundConfig hash encode config
validate_config-SoundConfig_example =
    validate_config-SoundConfig hash encode config config_validates

build_is_valid : valid_name build.name ≡ true
unfolding valid_name
build_is_valid = refl

held : get config.profiles build ≡ some profile
unfolding ProfileId-discrete ℕ_discrete
held = refl

from_config_total_example :
    (policy : ProfilePolicy) × (from_config hash encode config build ≡ ok policy)
    × ExtractedFrom build profile policy
from_config_total_example =
    from_config_total hash encode config build profile refl config_validates held build_is_valid

named : codes "claude:build" ≡ display_profile_id build
unfolding display_profile_id provider_label
named = refl

parse_profile_id_iff_example : parse_profile_id (codes "claude:build") ≡ ok build
parse_profile_id_iff_example =
    (parse_profile_id_iff (codes "claude:build") build).1 (build_is_valid, named)

parse_uid_iff_example :
    parse_uid (profile_prefix ++ encode_digits 26 77) profile_prefix
    ≡ ok (profile_prefix ++ encode_digits 26 77)
parse_uid_iff_example =
    (parse_uid_iff (profile_prefix ++ encode_digits 26 77) profile_prefix).1 (77, omega arith, refl)

derived : for_state_dir hash config.installation_uid Provider.claude state_dir ≡ ok uid
unfolding for_state_dir encode_crockford components file_name split_all valid_name provider_label
    Text-discrete ℕ_discrete
derived = refl

for_state_dir-parse_uid_example : parse_uid uid profile_prefix ≡ ok uid
for_state_dir-parse_uid_example =
    for_state_dir-parse_uid hash config.installation_uid Provider.claude state_dir uid
      (λ text. (refl, refl)) derived

dotted_absolute : is_absolute (codes "/state/./build") ≡ true
unfolding is_absolute ℕ_discrete
dotted_absolute = refl

dotted_plain : contains (split_all slash (codes "/state/./build")) (codes "..") ≡ false
unfolding split_all Text-discrete ℕ_discrete
dotted_plain = refl

-- A `.` is not refused.
reject_relative_components_iff_example : reject_relative_components (codes "/state/./build") ≡ ok tt
reject_relative_components_iff_example =
    (reject_relative_components_iff (codes "/state/./build") dotted_absolute).1 dotted_plain
