-- ===== src/Examples/WireTime.antt =====
-- The text of a concrete instant: src/automation/lease/clock.rs.
use aictx.Base.{◌≡◌, true, arith}
use aictx.Contracts.Temporal.{Civil, canonical_utc_shape}
use aictx.Lease.Clock.{canonical_utc}
use aictx.Lease.WireTime.{InRange, canonical_utc-canonical}

-- Half a second before noon on 29 February 2024.
abbrev before_noon : Civil
before_noon = record {
  year = 2024;
  month = 2;
  day = 29;
  hour = 11;
  minute = 59;
  second = 59;
  nanosecond = 500000000;
}

in_range : InRange before_noon
in_range = record {
  year_positive = omega arith;
  year_bounded = omega arith;
  second = omega arith;
  nanosecond = omega arith;
}

canonical_utc-canonical_example : canonical_utc_shape (canonical_utc before_noon) ≡ true
canonical_utc-canonical_example = canonical_utc-canonical before_noon in_range
