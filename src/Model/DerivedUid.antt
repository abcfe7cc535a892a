-- ===== src/Model/DerivedUid.antt =====
-- Generated and derived UIDs are canonical: `InstallationUid::generate` and
-- `ProfileUid::for_state_dir` of src/model/profile_uid.rs.
use native.Mathlib.Omega.{pow_step}
use aictx.Base.{
  ℕ, zero, suc, ◌+◌, ◌*◌, ◌^◌, ◌≤◌, ◌<◌, ◌≡◌, refl, ap, true, [], ◌∷◌, ◌++◌, Text, length, take,
  all, leb, ok, arith, Option-cases, Result-cases, inl, inr, and_true, leb→le, subst,
}
use aictx.Contracts.Types.{Provider}
use aictx.Model.Name.{parse_name}
use aictx.Model.FilePath.{FilePath, file_name}
use aictx.Model.ProfileUid.{
  profile_prefix, from_be_bytes, encode_crockford, parse_uid, derivation, for_state_dir,
}
use aictx.Model.CanonicalUid.{parse_uid_iff}

-- A text of bytes.
abbrev pub IsBytes : Text → Type 0
IsBytes bytes = all (λ b. leb b 255) bytes ≡ true

byte_bound :
    (value byte p : ℕ) → byte < 256 → (value * 256 + byte + 1) * p ≤ (value + 1) * (256 * p)
byte_bound value byte p h = grind arith

from_be_bytes-lt :
    (value : ℕ) (bytes : Text)
    → IsBytes bytes
    → from_be_bytes value bytes < (value + 1) * 256 ^ length bytes
unfolding from_be_bytes
from_be_bytes-lt value [] h = omega arith
from_be_bytes-lt value (b ∷ bytes) h =
    let (first, rest) = and_true h in
    omega (
      arith,
      leb→le b 255 first,
      from_be_bytes-lt (value * 256 + b) bytes rest,
      byte_bound value b (256 ^ length bytes) (omega (arith, leb→le b 255 first)),
      ap (λ (t : ℕ). (value + 1) * t) (pow_step 256 (length bytes)),
    )

take-IsBytes : (n : ℕ) (bytes : Text) → IsBytes bytes → IsBytes (take n bytes)
take-IsBytes zero bytes h = refl
take-IsBytes (suc n) [] h = refl
take-IsBytes (suc n) (b ∷ bytes) h = ground (arith, take-IsBytes n bytes)

length-take : (n : ℕ) (bytes : Text) → n ≤ length bytes → length (take n bytes) ≡ n
length-take zero bytes h = refl
length-take (suc n) [] h = absurd (omega arith)
length-take (suc n) (b ∷ bytes) h = omega (arith, length-take n bytes)

pub encode_crockford-parse_uid :
    (prefix bytes : Text)
    → IsBytes bytes
    → length bytes ≡ 16
    → parse_uid (prefix ++ encode_crockford bytes) prefix ≡ ok (prefix ++ encode_crockford bytes)
unfolding encode_crockford
encode_crockford-parse_uid prefix bytes h size =
    let bound =
      subst (λ n. from_be_bytes 0 bytes < (0 + 1) * 256 ^ n) size (from_be_bytes-lt 0 bytes h) in
    (parse_uid_iff (prefix ++ encode_crockford bytes) prefix).1
      (from_be_bytes 0 bytes, omega arith, refl)

-- The documented shape of a SHA-256 digest.
abbrev pub IsSha256 : (Text → Text) → Type 0
IsSha256 sha256 = (text : Text) → IsBytes (sha256 text) × (length (sha256 text) ≡ 32)

-- With a digest of 32 bytes, the UID that is derived for a state directory is always accepted as a
-- profile UID.
pub for_state_dir-parse_uid :
    (sha256 : Text → Text) (installation_uid : Text) (provider : Provider) (state_dir : FilePath)
    (uid : Text)
    → IsSha256 sha256
    → for_state_dir sha256 installation_uid provider state_dir ≡ ok uid
    → parse_uid uid profile_prefix ≡ ok uid
unfolding for_state_dir
for_state_dir-parse_uid sha256 installation_uid provider state_dir uid digest h =
    elim (Option-cases (file_name state_dir)) [
      | inl missing ↦ absurd (ground arith)
      | inr (leaf, found) ↦
          let (bytes, size) = digest (derivation installation_uid provider leaf) in
          let hash = sha256 (derivation installation_uid provider leaf) in
          let head = take 16 hash in
          let whole : uid ≡ profile_prefix ++ encode_crockford head =
            ground (arith, Result-cases (parse_name leaf)) in
          rw whole (
            encode_crockford-parse_uid profile_prefix head (take-IsBytes 16 hash bytes)
              (length-take 16 hash (omega arith)))
    ]
