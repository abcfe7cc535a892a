-- ===== src/Model/Name.antt =====
-- Names and profile IDs: `Name` and `ProfileId` of src/model.rs. The texts are lists of characters;
-- an accepted name is ASCII, so that its characters are its bytes.
use aictx.Base.{
  split_once, byte_length, starts_alphanumeric, ℕ, Bool, not, ◌&&◌, ◌||◌, Option, none, some, ◌∷◌,
  ◌++◌, Text, codes, ◌==◌, all, contains, leb, is_ascii_alphanumeric, Result, ok, ok_or, ◌>>=◌,
  ◌>>◌, refuse_if, if◌then◌else◌, nat_eq, text_eq,
}
use aictx.Contracts.Types.{Provider}
use aictx.Policy.Digest.{provider_label}
use aictx.Resolver.Context.{ProfileId}

-- The variants of `Error` that the model returns, without their messages.
pub data ModelError : Type 0 where
  invalid_input invalid_config : ModelError

abbrev pub is_name_character : ℕ → Bool
is_name_character c = is_ascii_alphanumeric c || c == b'-' || c == b'_'

unfoldable pub valid_name : Text → Bool
valid_name value =
    leb 1 (byte_length value)
    && leb (byte_length value) 64
    && all is_name_character value
    && starts_alphanumeric value

-- `Name::parse`.
unfoldable pub parse_name : Text → Result ModelError Text
parse_name value = do refuse_if (not (valid_name value)) ModelError.invalid_input; ok value

abbrev pub colon : ℕ
colon = b':'

-- `ProfileId::fmt`.
unfoldable pub display_profile_id : ProfileId → Text
display_profile_id id = provider_label id.provider ++ colon ∷ id.name

unfoldable pub provider_of_label : Text → Option Provider
provider_of_label label =
    if label == codes "claude"
    then some Provider.claude
    else if label == codes "codex"
    then some Provider.codex
    else none

-- `ProfileId::from_str`.
unfoldable pub parse_profile_id : Text → Result ModelError ProfileId
unfolding parse_name provider_of_label split_once
parse_profile_id value = do
  parts ← ok_or (split_once colon value) ModelError.invalid_input
  refuse_if (contains parts.1 colon) ModelError.invalid_input
  provider ← ok_or (provider_of_label parts.0) ModelError.invalid_input
  name ← parse_name parts.1
  ok (record { provider = provider; name = name })
