-- ===== src/Lease/Clock.antt =====
-- Service clocks and deadlines: src/automation/lease/clock.rs. A monotonic moment is its number of
-- nanoseconds, below 2 ^ 128; the name of the month is not used, only its number.
use aictx.Base.{
  ℕ, ◌+◌, ◌-◌, ◌*◌, ◌/◌, ◌%◌, Bool, not, ◌||◌, Option, none, some, [], ◌∷◌, ◌++◌, Text, ◌==◌, leb,
  ltb, if◌then◌else◌, Result, ok, ok_or, ◌>>=◌, ◌>>◌, refuse_if, map_err, nat_eq,
}
use aictx.Contracts.Temporal.{
  UtcTimestamp, TimeCrate, Civil, parse_timestamp, is_before, nanos_per_second,
}
use aictx.Lease.Error.{LeaseDomainError, clock_overflow}

abbrev pub u128_mod : ℕ
u128_mod = 340282366920938463463374607431768211456

abbrev pub i64_max : ℕ
i64_max = 9223372036854775807

pub record ClockSample : Type 0 where
  pub wall : UtcTimestamp
  pub monotonic : ℕ
  pub service_generation : ℕ

-- `MonotonicMoment::checked_add_nanoseconds`.
unfoldable pub checked_add_nanoseconds : ℕ → ℕ → Option ℕ
checked_add_nanoseconds moment value =
    if ltb (moment + value) u128_mod then some (moment + value) else none

unfoldable pub checked_add_seconds : ℕ → ℕ → Option ℕ
unfolding checked_add_nanoseconds
checked_add_seconds moment value = checked_add_nanoseconds moment (value * nanos_per_second)

unfoldable pub digit : ℕ → ℕ
digit n = b'0' + n % 10

-- `{:02}` and `{:04}` of a field in its range.
unfoldable pub two_digits : ℕ → Text
unfolding digit
two_digits n = digit (n / 10) ∷ digit n ∷ []

unfoldable pub four_digits : ℕ → Text
unfolding digit
four_digits n = digit (n / 1000) ∷ digit (n / 100) ∷ digit (n / 10) ∷ digit n ∷ []

-- `{:09}` of the nanoseconds of a second.
unfoldable pub nine_digits : ℕ → Text
unfolding digit
nine_digits n =
    digit (n / 100000000)
    ∷ digit (n / 10000000)
    ∷ digit (n / 1000000)
    ∷ digit (n / 100000)
    ∷ digit (n / 10000)
    ∷ digit (n / 1000)
    ∷ digit (n / 100)
    ∷ digit (n / 10)
    ∷ digit n
    ∷ []

unfoldable pub keep_digit : ℕ → Text → Text
keep_digit d [] = if d == b'0' then [] else d ∷ []
keep_digit d (e ∷ es) = d ∷ e ∷ es

-- `trim_end_matches('0')`.
unfoldable pub trim_zeros : Text → Text
unfolding keep_digit
trim_zeros [] = []
trim_zeros (d ∷ ds) = keep_digit d (trim_zeros ds)

unfoldable pub canonical_utc : Civil → Text
unfolding two_digits four_digits nine_digits trim_zeros
canonical_utc c =
    four_digits c.year
    ++ b'-'
      ∷ (two_digits c.month
          ++ b'-'
            ∷ (two_digits c.day
                ++ b'T'
                  ∷ (two_digits c.hour
                      ++ b':'
                        ∷ (two_digits c.minute
                            ++ b':'
                              ∷ (two_digits c.second
                                  ++ ((if c.nanosecond == 0
                                        then []
                                        else b'.' ∷ trim_zeros (nine_digits c.nanosecond))
                                      ++ b'Z' ∷ []))))))

module _ (time : TimeCrate) where
  -- `OffsetDateTime::parse` of the text of a timestamp.
  unfoldable pub parse_wall : UtcTimestamp → Result LeaseDomainError ℕ
  parse_wall value = do parsed ← ok_or (time.parse value.wire) clock_overflow; ok parsed.0

  unfoldable pub add_seconds : UtcTimestamp → ℕ → Result LeaseDomainError UtcTimestamp
  unfolding parse_wall canonical_utc
  add_seconds value seconds = do
    refuse_if (ltb i64_max seconds) clock_overflow
    start ← parse_wall value
    let instant = start + seconds * nanos_per_second
    refuse_if (ltb time.last instant) clock_overflow
    map_err (parse_timestamp time (canonical_utc (time.civil instant))) clock_overflow

  unfoldable pub wall_nanoseconds_between : UtcTimestamp → UtcTimestamp → Result LeaseDomainError ℕ
  unfolding parse_wall
  wall_nanoseconds_between earlier later = do
    end ← parse_wall later
    start ← parse_wall earlier
    refuse_if (ltb end start) clock_overflow
    ok (end - start)

abbrev pub earlier : UtcTimestamp → UtcTimestamp → UtcTimestamp
earlier left right = if is_before left right then left else right

abbrev pub later : UtcTimestamp → UtcTimestamp → UtcTimestamp
later left right = if is_before left right then right else left

abbrev pub deadline_reached : ClockSample → UtcTimestamp → ℕ → Bool
deadline_reached now wall monotonic = not (is_before now.wall wall) || leb monotonic now.monotonic
