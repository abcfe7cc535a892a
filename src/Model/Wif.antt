-- ===== src/Model/Wif.antt =====
-- Workload-identity metadata: src/model/wif.rs. The encoding by `serde_json` is an argument, and so
-- is the file system that `validate_wif_token_location` asks for `.git`.
use mathlib.Core.Option
use aictx.Base.{
  ℕ, zero, suc, ◌+◌, ◌*◌, ◌/◌, ◌%◌, ◌-◌, Bool, false, not, ◌&&◌, ◌||◌, Option, none, some, List, [],
  ◌∷◌, ◌++◌, Text, codes, ◌==◌, length, all, contains, leb, ltb, is_ascii_digit,
  is_ascii_alphanumeric, byte_length, starts_alphanumeric, has_control, split_once, split_all,
  strip_prefix, ok, ok_or, ◌>>=◌, ◌>>◌, refuse_if, if◌then◌else◌, nat_eq, text_eq,
}
use aictx.Model.Name.{ModelError}
use aictx.Model.FilePath.{FilePath, is_utf8, is_absolute, components, any_relative}
use aictx.Model.Automation.{
  Validation, valid_environment_label, is_suffix_character, valid_suffix, validate_each, any,
  is_empty,
}

pub record ClaudeWifConfig : Type 0 where
  pub organization_id : Text
  pub federation_rule_id : Text
  pub service_account_id : Text
  pub workspace_id : Option Text
  pub identity_token_file : FilePath

pub record WorkloadIdentityContext : Type 0 where
  pub instance_id : Text
  pub display_name : Option Text
  pub labels : List (Text × Text)

pub record CodexWifConfig : Type 0 where
  pub federation_rule_id : Text
  pub identity_token_file : FilePath
  pub expected_workspace : Text
  pub expected_principal : Text
  pub allowed_environments : List Text
  pub allowed_workload_labels : List (Text × Text)
  pub workload_identity_context : Option WorkloadIdentityContext
  pub minimum_codex_version : Text

-- `serde_json::to_vec` of a context: its bytes, if it can be encoded.
abbrev pub Encoder : Type 0
Encoder = WorkloadIdentityContext → Option Text

-- `char::is_whitespace`, the property White_Space.
abbrev pub is_whitespace : ℕ → Bool
is_whitespace c =
    leb 0x9 c && leb c 0xd
    || c == 0x20
    || c == 0x85
    || c == 0xa0
    || c == 0x1680
    || leb 0x2000 c && leb c 0x200a
    || c == 0x2028
    || c == 0x2029
    || c == 0x202f
    || c == 0x205f
    || c == 0x3000

abbrev pub starts_blank : Text → Bool
starts_blank [] = false
starts_blank (c ∷ s) = is_whitespace c

abbrev pub ends_blank : Text → Bool
ends_blank [] = false
ends_blank (c ∷ []) = is_whitespace c
ends_blank (c ∷ s) = ends_blank s

-- `value.trim() != value`: a text that `trim` changes starts or ends with white space.
abbrev pub is_untrimmed : Text → Bool
is_untrimmed value = starts_blank value || ends_blank value

unfoldable pub validate_metadata : Text → Validation
validate_metadata value =
    refuse_if
      (leb (byte_length value) 0
        || ltb 512 (byte_length value)
        || is_untrimmed value
        || has_control value)
      ModelError.invalid_config

unfoldable pub validate_token_path_shape : FilePath → Validation
validate_token_path_shape path =
    refuse_if
      (not (is_absolute path)
        || is_empty path
        || not (is_utf8 path)
        || any_relative (components path)
        || has_control path)
      ModelError.invalid_config

-- `validate_wif_token_location` over the answers of the file system for each ancestor.
unfoldable pub validate_wif_token_location : (FilePath → List Bool) → FilePath → Validation
validate_wif_token_location holds_git path =
    refuse_if (any (λ (found : Bool). found) (holds_git path)) ModelError.invalid_config

-- `str::parse::<u32>`: digits behind an optional `+`, at most `u32::MAX`.
abbrev u32_max : ℕ
u32_max = 4_294_967_295

unfoldable pub parse_digits : ℕ → Text → Option ℕ
parse_digits value [] = some value
parse_digits value (c ∷ s) =
    let next = value * 10 + (c - b'0') in
    let rest = parse_digits next s in
    if not (is_ascii_digit c) || ltb u32_max next then none else rest

abbrev pub without_sign : Text → Text
without_sign [] = []
without_sign (c ∷ s) = if c == b'+' then s else c ∷ s

unfoldable pub parse_u32 : Text → Option ℕ
unfolding parse_digits
parse_u32 text =
    let digits = without_sign text in if is_empty digits then none else parse_digits 0 digits

-- `u32::to_string`: ten digits are enough.
unfoldable pub print_digits : ℕ → ℕ → Text
print_digits zero n = []
print_digits (suc fuel) n =
    let front = print_digits fuel (n / 10) in
    (if ltb n 10 then [] else front) ++ (b'0' + n % 10) ∷ []

abbrev pub is_canonical : Text × ℕ → Bool
is_canonical (original, component) = print_digits 10 component == original

-- The components with their texts, if every one can be read.
unfoldable pub version_components : List Text → Option (List (Text × ℕ))
unfolding parse_u32
version_components [] = some []
version_components (text ∷ rest) = elim (parse_u32 text) [
  | none ↦ none
  | some n ↦ Option.map (λ (ns : List (Text × ℕ)). (text, n) ∷ ns) (version_components rest)
]

-- `(major, minor, patch) >= (0, 148, 0)`.
abbrev pub at_least_supported : ℕ → ℕ → ℕ → Bool
at_least_supported major minor patch = leb 1 major || leb 148 minor

unfoldable pub supported_version : Option (List (Text × ℕ)) → Bool
unfolding print_digits
supported_version (some (major ∷ minor ∷ patch ∷ [])) =
    is_canonical major
    && is_canonical minor
    && is_canonical patch
    && at_least_supported major.1 minor.1 patch.1
supported_version _ = false

unfoldable pub validate_codex_version : Text → Validation
unfolding version_components supported_version
validate_codex_version value =
    refuse_if (not (supported_version (version_components (split_all b'.' value))))
      ModelError.invalid_config

unfoldable pub validate_normalized_reference : Text → List Text → Validation
unfolding valid_suffix
validate_normalized_reference value namespaces = do
  parts ← ok_or (split_once b':' value) ModelError.invalid_config
  refuse_if
      (not (contains namespaces parts.0) || contains parts.1 b':' || not (valid_suffix parts.1))
      ModelError.invalid_config

unfoldable pub valid_context_key : Text → Bool
valid_context_key value =
    leb 1 (byte_length value)
    && leb (byte_length value) 64
    && starts_alphanumeric value
    && all is_suffix_character value

abbrev pub is_value_character : ℕ → Bool
is_value_character c =
    is_ascii_alphanumeric c
    || c == b'-'
    || c == b'_'
    || c == b'.'
    || c == b':'
    || c == b'/'
    || c == b'@'

unfoldable pub valid_context_value : Text → ℕ → Bool
valid_context_value value maximum =
    leb 1 (byte_length value)
    && leb (byte_length value) maximum
    && starts_alphanumeric value
    && all is_value_character value

unfoldable pub validate_label_entry : Text × Text → Validation
unfolding valid_context_key valid_context_value
validate_label_entry (key, value) = do
  refuse_if (not (valid_context_key key)) ModelError.invalid_config
  refuse_if (not (valid_context_value value 256)) ModelError.invalid_config

abbrev pub validate_optional {ℓ} : {A : Type ℓ} → (A → Validation) → Option A → Validation
validate_optional validate none = ok tt
validate_optional validate (some value) = validate value

abbrev pub is_rule_character : ℕ → Bool
is_rule_character c = is_ascii_alphanumeric c || c == b'_' || c == b'-'

unfoldable pub validate_federation_rule : Text → Validation
validate_federation_rule value = do
  suffix ← ok_or (strip_prefix value (codes "idpm_")) ModelError.invalid_config
  refuse_if (is_empty suffix || ltb 128 (byte_length value) || not (all is_rule_character suffix))
      ModelError.invalid_config

-- `WorkloadIdentityContext::validate`.
unfoldable pub validate_context : Encoder → WorkloadIdentityContext → Validation
unfolding valid_context_value validate_label_entry validate_each
validate_context encode c = do
  refuse_if (not (valid_context_value c.instance_id 128)) ModelError.invalid_config
  validate_optional
      (λ (name : Text). refuse_if (not (valid_context_value name 128)) ModelError.invalid_config)
      c.display_name
  refuse_if (ltb 8 (length c.labels)) ModelError.invalid_config
  validate_each validate_label_entry c.labels
  encoded ← ok_or (encode c) ModelError.invalid_config
  refuse_if (ltb 1_024 (length encoded)) ModelError.invalid_config

-- `ClaudeWifConfig::validate`.
unfoldable pub validate_claude_wif : ClaudeWifConfig → Validation
unfolding validate_metadata validate_token_path_shape
validate_claude_wif c = do
  validate_metadata c.organization_id
  validate_metadata c.federation_rule_id
  validate_metadata c.service_account_id
  validate_optional validate_metadata c.workspace_id
  validate_token_path_shape c.identity_token_file

abbrev pub environment_check : Text → Validation
environment_check e = refuse_if (not (valid_environment_label e)) ModelError.invalid_config

-- `CodexWifConfig::validate`.
unfoldable pub validate_codex_wif : Encoder → CodexWifConfig → Validation
unfolding validate_federation_rule validate_normalized_reference validate_each validate_label_entry
    validate_context validate_codex_version validate_token_path_shape valid_environment_label
validate_codex_wif encode c = do
  validate_federation_rule c.federation_rule_id
  validate_normalized_reference c.expected_workspace (codes "chatgpt-workspace" ∷ [])
  validate_normalized_reference c.expected_principal (codes "user" ∷ codes "service-account" ∷ [])
  refuse_if (is_empty c.allowed_environments || ltb 32 (length c.allowed_environments))
      ModelError.invalid_config
  validate_each environment_check c.allowed_environments
  refuse_if (ltb 32 (length c.allowed_workload_labels)) ModelError.invalid_config
  validate_each validate_label_entry c.allowed_workload_labels
  validate_optional (validate_context encode) c.workload_identity_context
  validate_codex_version c.minimum_codex_version
  validate_token_path_shape c.identity_token_file
