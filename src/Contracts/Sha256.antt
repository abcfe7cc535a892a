-- ===== src/Contracts/Sha256.antt =====
-- The text form of a SHA-256 digest: `Sha256Digest` in src/automation/contracts/types.rs.
use aictx.Base.{
  ℕ, ◌+◌, ◌-◌, ◌*◌, ◌/◌, ◌%◌, Bool, not, ◌&&◌, ◌||◌, Option, none, some, [], ◌∷◌, ◌++◌, Text, ◌==◌,
  codes, length, all, leb, drop, get_elem?, starts_with, if◌then◌else◌, Result, ok, ok_or, ◌>>=◌,
  ◌>>◌, refuse_if, nat_eq,
}
use aictx.Contracts.Types.{ContractValidationError, Sha256Digest}

-- `HEX[index]`; the index is below 16.
unfoldable pub hex_digit : ℕ → ℕ
hex_digit v = elim (get_elem? (codes "0123456789abcdef") v) [ none ↦ 0 | some c ↦ c ]

unfoldable pub encoded_bytes : Sha256Digest → Text
unfolding hex_digit
encoded_bytes [] = []
encoded_bytes (b ∷ bs) = hex_digit (b / 16) ∷ hex_digit (b % 16) ∷ encoded_bytes bs

unfoldable pub encoded : Sha256Digest → Text
unfolding encoded_bytes
encoded digest = codes "sha256:" ++ encoded_bytes digest

unfoldable pub decode_hex : ℕ → Option ℕ
decode_hex b =
    if leb b'0' b && leb b b'9'
    then some (b - b'0')
    else if leb b'a' b && leb b b'f'
    then some (b - b'a' + 10)
    else none

unfoldable pub is_lower_hex : ℕ → Bool
is_lower_hex b = leb b'0' b && leb b b'9' || leb b'a' b && leb b b'f'

-- The loop over `chunks_exact(2)`, which drops a last single byte.
unfoldable pub decode_pairs : Text → Result ContractValidationError Sha256Digest
unfolding decode_hex
decode_pairs [] = ok []
decode_pairs (h ∷ []) = ok []
decode_pairs (h ∷ l ∷ rest) = do
  high ← ok_or (decode_hex h) ContractValidationError.invalid_sha256_digest
  low ← ok_or (decode_hex l) ContractValidationError.invalid_sha256_digest
  bytes ← decode_pairs rest
  ok ((high * 16 + low) ∷ bytes)

-- `Sha256Digest::from_str`.
unfoldable pub from_str : Text → Result ContractValidationError Sha256Digest
unfolding is_lower_hex decode_pairs
from_str value = do
  refuse_if (not (starts_with value (codes "sha256:")))
      ContractValidationError.invalid_sha256_digest
  let hex = drop 7 value
  refuse_if (not (length hex == 64) || not (all is_lower_hex hex))
      ContractValidationError.invalid_sha256_digest
  decode_pairs hex
