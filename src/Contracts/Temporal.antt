-- ===== src/Contracts/Temporal.antt =====
-- Bounded durations, fencing generations and timestamps: src/automation/contracts/temporal.rs.
-- The `time` crate enters as the record `TimeCrate`.
use aictx.Base.{
  ℕ, ◌-◌, ◌/◌, Bool, false, not, ◌&&◌, ◌||◌, Option, none, some, Text, Eq, ◌==◌, codes, length, all,
  leb, ltb, get_elem?, take, drop, is_ascii_digit, if◌then◌else◌, Result, ok, err, ok_or, ◌>>=◌,
  ◌>>◌, refuse_if, text_eq, nat_eq, ℕ_discrete,
}
use aictx.Contracts.Types.{ContractValidationError}

abbrev pub u64_max : ℕ
u64_max = 18446744073709551615

abbrev pub u32_max : ℕ
u32_max = 4294967295

abbrev pub nanos_per_second : ℕ
nanos_per_second = 1000000000

-- `positive_seconds!`: a value from 1 to the maximum.
from_seconds : ℕ → ContractValidationError → ℕ → Result ContractValidationError ℕ
from_seconds maximum error value = if value == 0 || ltb maximum value then err error else ok value

unfoldable pub requested_ttl_seconds : ℕ → Result ContractValidationError ℕ
unfolding from_seconds
requested_ttl_seconds = from_seconds 86400 ContractValidationError.invalid_requested_ttl

unfoldable pub maximum_ttl_seconds : ℕ → Result ContractValidationError ℕ
unfolding from_seconds
maximum_ttl_seconds = from_seconds 86400 ContractValidationError.invalid_maximum_ttl

unfoldable pub duration_seconds : ℕ → Result ContractValidationError ℕ
unfolding from_seconds
duration_seconds = from_seconds u32_max ContractValidationError.invalid_duration

abbrev pub maximum_generation : ℕ
maximum_generation = 9007199254740991

-- `FencingGeneration::from_value`; a generation is its number.
unfoldable pub fencing_generation : ℕ → Result ContractValidationError ℕ
fencing_generation value =
    if value == 0 || ltb maximum_generation value
    then err ContractValidationError.invalid_fencing_generation
    else ok value

-- The civil fields of an instant, as `OffsetDateTime` returns them.
pub record Civil : Type 0 where
  pub year : ℕ
  pub month : ℕ
  pub day : ℕ
  pub hour : ℕ
  pub minute : ℕ
  pub second : ℕ
  pub nanosecond : ℕ

-- The `time` crate: an instant is its number of nanoseconds since the first one that the crate
-- represents, `last` is the last one, and `parse` is `OffsetDateTime::parse` with the RFC 3339
-- format, which returns the instant and whether the text's offset is UTC.
pub record TimeCrate : Type 0 where
  pub last : ℕ
  pub parse : Text → Option (ℕ × Bool)
  pub civil : ℕ → Civil

pub record UtcTimestamp : Type 0 where
  pub wire : Text
  pub instant : ℕ

unfoldable pub UtcTimestamp-discrete : Discrete UtcTimestamp
UtcTimestamp-discrete = hlevel ℕ_discrete

instance abbrev pub timestamp_eq : Eq UtcTimestamp
timestamp_eq = record { dec = UtcTimestamp-discrete }

-- `bytes[i] == b`; the caller has tested the length.
unfoldable pub byte_is : Text → ℕ → ℕ → Bool
byte_is bytes i b = elim (get_elem? bytes i) [ none ↦ false | some c ↦ c == b ]

-- `bytes[from..to].iter().all(u8::is_ascii_digit)`.
unfoldable pub digits_in : Text → ℕ → ℕ → Bool
digits_in bytes from to = all is_ascii_digit (take (to - from) (drop from bytes))

unfoldable pub last_is : Text → ℕ → Bool
unfolding byte_is
last_is bytes b = byte_is bytes (length bytes - 1) b

unfoldable pub fraction_shape : Text → Bool
unfolding byte_is
fraction_shape suffix =
    length suffix == 0
    || leb 2 (length suffix)
      && leb (length suffix) 10
      && byte_is suffix 0 b'.'
      && all is_ascii_digit (drop 1 suffix)

unfoldable pub canonical_utc_shape : Text → Bool
unfolding byte_is digits_in last_is fraction_shape
canonical_utc_shape bytes =
    if ltb (length bytes) 20
      || not (byte_is bytes 4 b'-')
      || not (byte_is bytes 7 b'-')
      || not (byte_is bytes 10 b'T')
      || not (byte_is bytes 13 b':')
      || not (byte_is bytes 16 b':')
      || not (last_is bytes b'Z')
      || not (digits_in bytes 0 4)
      || take 4 bytes == codes "0000"
      || not (digits_in bytes 5 7)
      || not (digits_in bytes 8 10)
      || not (digits_in bytes 11 13)
      || not (digits_in bytes 14 16)
      || not (digits_in bytes 17 19)
      || (byte_is bytes 17 b'6' && byte_is bytes 18 b'0')
    then false
    else fraction_shape (take (length bytes - 1 - 19) (drop 19 bytes))

-- `UtcTimestamp::parse`.
unfoldable pub parse_timestamp : TimeCrate → Text → Result ContractValidationError UtcTimestamp
parse_timestamp time wire = do
  refuse_if (not (canonical_utc_shape wire)) ContractValidationError.invalid_utc_timestamp
  parsed ← ok_or (time.parse wire) ContractValidationError.invalid_utc_timestamp
  refuse_if (not parsed.1) ContractValidationError.invalid_utc_timestamp
  ok (record { wire = wire; instant = parsed.0 })

abbrev pub is_before : UtcTimestamp → UtcTimestamp → Bool
is_before a b = ltb a.instant b.instant

abbrev pub is_after : UtcTimestamp → UtcTimestamp → Bool
is_after a b = ltb b.instant a.instant

-- The whole seconds of a difference that is not negative; a difference between minus one second
-- and zero has zero whole seconds. Every representable difference fits 64 bits.
unfoldable pub seconds_until : UtcTimestamp → UtcTimestamp → Option ℕ
seconds_until a b =
    if leb a.instant b.instant
    then some ((b.instant - a.instant) / nanos_per_second)
    else if ltb (a.instant - b.instant) nanos_per_second
    then some 0
    else none
