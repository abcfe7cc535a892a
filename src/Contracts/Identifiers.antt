-- ===== src/Contracts/Identifiers.antt =====
-- The grammars of identifiers: the parsers of src/automation/contracts/types.rs and of
-- src/automation/contracts/references.rs, on lists of characters.
use aictx.Base.{
  ℕ, Bool, false, not, ◌&&◌, ◌||◌, Option, none, some, List, [], ◌∷◌, Text, codes, ◌==◌, all,
  contains, leb, is_ascii_alphanumeric, byte_length, starts_alphanumeric, split_once, split_all,
  Result, ok, err, ok_or, ◌>>=◌, ◌>>◌, refuse_if, if◌then◌else◌, nat_eq, text_eq,
}
use aictx.Contracts.Types.{Provider, ProfileRef, ContractValidationError}

abbrev pub Parsed : Type 0 → Type 0
Parsed A = Result ContractValidationError A

-- A text of bounded length that starts with a letter or a digit and holds only such characters.
unfoldable pub bounded_word : (ℕ → Bool) → ℕ → Text → Bool
bounded_word allowed maximum value =
    leb 1 (byte_length value)
    && leb (byte_length value) maximum
    && starts_alphanumeric value
    && all allowed value

abbrev pub is_safe_character : ℕ → Bool
is_safe_character c =
    is_ascii_alphanumeric c
    || c == b'-'
    || c == b'_'
    || c == b'.'
    || c == b':'
    || c == b'@'
    || c == b'+'

unfoldable pub valid_safe_id : Text → ℕ → Bool
unfolding bounded_word
valid_safe_id value maximum = bounded_word is_safe_character maximum value

-- `$name::parse` of `safe_id!`, at the maximum of every one of its types.
unfoldable pub parse_safe_id : Text → Parsed Text
unfolding valid_safe_id
parse_safe_id value =
    if valid_safe_id value 128 then ok value else err ContractValidationError.invalid_identifier

abbrev pub is_segment_character : ℕ → Bool
is_segment_character c =
    is_ascii_alphanumeric c || c == b'-' || c == b'_' || c == b'.' || c == b'@' || c == b'+'

unfoldable pub valid_repository_segment : ℕ → Text → Bool
unfolding bounded_word
valid_repository_segment maximum value = bounded_word is_segment_character maximum value

abbrev pub is_traversal : Text → Bool
is_traversal segment = segment == [] || segment == codes "." || segment == codes ".."

unfoldable pub valid_repository : Option (Text × Text) → Bool
unfolding valid_repository_segment
valid_repository none = false
valid_repository (some (namespace, repository)) =
    valid_repository_segment 64 namespace
    && not (repository == [])
    && all (λ (s : Text). not (is_traversal s) && valid_repository_segment 128 s)
        (split_all b'/' repository)

-- `RepositoryId::parse`.
unfoldable pub parse_repository_id : Text → Parsed Text
unfolding valid_repository
parse_repository_id value =
    if leb (byte_length value) 256 && valid_repository (split_once b':' value)
    then ok value
    else err ContractValidationError.invalid_identifier

abbrev pub is_profile_character : ℕ → Bool
is_profile_character c = is_ascii_alphanumeric c || c == b'-' || c == b'_'

-- The match on the provider in `ProfileRef::parse`.
unfoldable pub reference_provider : Text → Option Provider
reference_provider label =
    if label == codes "claude"
    then some Provider.claude
    else if label == codes "codex"
    then some Provider.codex
    else none

-- `ProfileRef::parse`.
unfoldable pub parse_profile_ref : Text → Parsed ProfileRef
unfolding reference_provider bounded_word
parse_profile_ref value = do
  parts ← ok_or (split_once b':' value) ContractValidationError.invalid_identifier
  provider ← ok_or (reference_provider parts.0) ContractValidationError.invalid_identifier
  refuse_if (not (bounded_word is_profile_character 64 parts.1))
      ContractValidationError.invalid_identifier
  ok (record { provider = provider; value = value })

abbrev pub is_reference_character : ℕ → Bool
is_reference_character c = is_ascii_alphanumeric c || c == b'.' || c == b'_' || c == b'-'

unfoldable pub valid_parts : Option (Text × Text) → List Text → Bool
unfolding bounded_word
valid_parts none prefixes = false
valid_parts (some (prefix, suffix)) prefixes =
    contains prefixes prefix
    && not (contains suffix b':')
    && bounded_word is_reference_character 128 suffix

-- `$name::parse` of `typed_reference!`.
unfoldable pub parse_reference : List Text → Text → Parsed Text
unfolding valid_parts
parse_reference prefixes value =
    if valid_parts (split_once b':' value) prefixes
    then ok value
    else err ContractValidationError.invalid_identifier

-- `CallerSubject::parse`.
unfoldable pub parse_caller_subject : Text → Parsed Text
unfolding parse_reference
parse_caller_subject = parse_reference (codes "caller" ∷ [])
