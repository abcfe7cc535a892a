-- ===== src/Model/ProfileUid.antt =====
-- Installation and profile UIDs: src/model/profile_uid.rs, and the same encoding in
-- src/automation/store/ids.rs. SHA-256 and the operating system's random bytes are arguments.
use aictx.Base.{
  ℕ, zero, suc, ◌+◌, ◌*◌, ◌/◌, ◌%◌, Bool, false, not, ◌&&◌, ◌||◌, Option, none, some, [], ◌∷◌, ◌++◌,
  Text, codes, ◌==◌, length, all, get_elem?, take, leb, is_ascii_digit, Result, ok, ok_or, map_err,
  ◌>>=◌, ◌>>◌, refuse_if, nat_eq, text_eq, strip_prefix,
}
use aictx.Contracts.Types.{Provider}
use aictx.Policy.Digest.{provider_label}
use aictx.Resolver.Context.{ascii_lowercase}
use aictx.Model.Name.{ModelError, parse_name}
use aictx.Model.FilePath.{FilePath, file_name}

abbrev pub installation_prefix : Text
installation_prefix = codes "installation_"

abbrev pub profile_prefix : Text
profile_prefix = codes "profile_"

abbrev pub crockford : Text
crockford = codes "0123456789ABCDEFGHJKMNPQRSTVWXYZ"

abbrev pub derivation_domain : Text
derivation_domain = codes "ctxlane.profile-uid/v1" ++ 0 ∷ []

-- `CROCKFORD[index]`; an index is below 32, so that no other value is ever returned.
unfoldable pub crockford_digit : ℕ → ℕ
crockford_digit index = elim (get_elem? crockford index) [ none ↦ b'0' | some digit ↦ digit ]

-- `u128::from_be_bytes`.
unfoldable pub from_be_bytes : ℕ → Text → ℕ
from_be_bytes value [] = value
from_be_bytes value (byte ∷ rest) = from_be_bytes (value * 256 + byte) rest

-- The loop of `encode_crockford`, which fills the digits from the last to the first.
unfoldable pub encode_digits : ℕ → ℕ → Text
encode_digits zero value = []
encode_digits (suc digits) value =
    encode_digits digits (value / 32) ++ crockford_digit (value % 32) ∷ []

unfoldable pub encode_crockford : Text → Text
unfolding encode_digits from_be_bytes
encode_crockford bytes = encode_digits 26 (from_be_bytes 0 bytes)

-- `InstallationUid::generate` with the bytes that the operating system returned, if any.
unfoldable pub generate : Option Text → Result ModelError Text
unfolding encode_crockford
generate random = do
  bytes ← ok_or random ModelError.invalid_config
  ok (installation_prefix ++ encode_crockford bytes)

abbrev pub is_leading : ℕ → Bool
is_leading byte = leb b'0' byte && leb byte b'7'

abbrev pub is_crockford : ℕ → Bool
is_crockford byte =
    is_ascii_digit byte
    || leb b'A' byte && leb byte b'H'
    || leb b'J' byte && leb byte b'K'
    || leb b'M' byte && leb byte b'N'
    || leb b'P' byte && leb byte b'T'
    || leb b'V' byte && leb byte b'Z'

unfoldable pub valid_digits : Text → Bool
valid_digits [] = false
valid_digits (first ∷ rest) = length rest == 25 && is_leading first && all is_crockford rest

unfoldable pub parse_uid : Text → Text → Result ModelError Text
unfolding valid_digits
parse_uid value prefix = do
  encoded ← ok_or (strip_prefix value prefix) ModelError.invalid_config
  refuse_if (not (valid_digits encoded)) ModelError.invalid_config
  ok value

-- What `ProfileUid::for_state_dir` hashes.
unfoldable pub derivation : Text → Provider → Text → Text
derivation installation_uid provider state_leaf =
    derivation_domain
    ++ (installation_uid ++ (0 ∷ (provider_label provider ++ (0 ∷ ascii_lowercase state_leaf))))

unfoldable pub for_state_dir : (Text → Text) → Text → Provider → FilePath → Result ModelError Text
unfolding derivation encode_crockford parse_name
for_state_dir sha256 installation_uid provider state_dir = do
  state_leaf ← ok_or (file_name state_dir) ModelError.invalid_config
  name ← map_err (parse_name state_leaf) ModelError.invalid_config
  let digest = sha256 (derivation installation_uid provider state_leaf)
  ok (profile_prefix ++ encode_crockford (take 16 digest))
