-- ===== src/Examples/Crates.antt =====
-- Concrete instances of the third-party crates, for one day: 1 January 2026 in whole seconds.
use aictx.Base.{
  ℕ, ◌+◌, ◌-◌, ◌*◌, ◌/◌, ◌%◌, Bool, true, Option, none, some, ◌∷◌, Text, ◌==◌, codes, length, take,
  drop, nat_eq, text_eq, if◌then◌else◌, ◌&&◌,
}
use aictx.Contracts.Temporal.{Civil, TimeCrate, UtcTimestamp, nanos_per_second}
use aictx.Contracts.Request.{Crates}

abbrev day_nanoseconds : ℕ
day_nanoseconds = 86400000000000

-- The number that two digits write.
abbrev number : Text → ℕ
number (a ∷ b ∷ rest) = (a - b'0') * 10 + (b - b'0')
number _ = 0

abbrev seconds_of : Text → ℕ
seconds_of t = number (drop 11 t) * 3600 + number (drop 14 t) * 60 + number (drop 17 t)

abbrev parse : Text → Option (ℕ × Bool)
parse t =
    if take 11 t == codes "2026-01-01T" && length t == 20
    then some (seconds_of t * nanos_per_second, true)
    else none

abbrev civil : ℕ → Civil
civil n = record {
  year = 2026;
  month = 1;
  day = 1;
  hour = n / nanos_per_second / 3600;
  minute = n / nanos_per_second / 60 % 60;
  second = n / nanos_per_second % 60;
  nanosecond = n % nanos_per_second;
}

abbrev pub day_crate : TimeCrate
day_crate = record { last = day_nanoseconds - 1; parse = parse; civil = civil }

-- A stand-in for the hash: the first 32 bytes.
abbrev pub crates : Crates
crates = record {
  time = day_crate;
  sha256 = λ text. take 32 text;
  request_json = λ request. some request.client_request_id;
}

abbrev pub at : Text → UtcTimestamp
at wire = record { wire = wire; instant = seconds_of wire * nanos_per_second }

abbrev pub ten_o_clock : UtcTimestamp
ten_o_clock = at (codes "2026-01-01T10:00:00Z")

abbrev pub ten_past : UtcTimestamp
ten_past = at (codes "2026-01-01T10:10:00Z")

abbrev pub noon : UtcTimestamp
noon = at (codes "2026-01-01T12:00:00Z")
