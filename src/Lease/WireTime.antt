-- ===== src/Lease/WireTime.antt =====
-- The text of computed timestamps: `canonical_utc` of src/automation/lease/clock.rs.
use aictx.Base.{
  ℕ, suc, ◌/◌, ◌≤◌, ◌<◌, ◌≡◌, ◌≢◌, refl, true, [], ◌∷◌, Text, length, all, is_ascii_digit, ◌==◌,
  arith, text_eq, nat_eq, Bool-cases, inl, inr, ℕ_discrete, if◌then◌else◌,
}
use aictx.Contracts.Temporal.{Civil, canonical_utc_shape, fraction_shape, byte_is}
use aictx.Contracts.TimestampShape.{Fields, canonical_shape}
use aictx.Lease.Clock.{
  digit, two_digits, four_digits, nine_digits, keep_digit, trim_zeros, canonical_utc,
}

-- The fields of an instant, as far as their texts depend on them.
pub record InRange (c : Civil) : Type 0 where
  pub year_positive : 1 ≤ c.year
  pub year_bounded : c.year ≤ 9999
  pub second : c.second < 60
  pub nanosecond : c.nanosecond < 1000000000

length-trim_zeros : (t : Text) → length (trim_zeros t) ≤ length t
unfolding trim_zeros keep_digit
length-trim_zeros [] = omega arith
length-trim_zeros (d ∷ t) = kept (trim_zeros t) (length-trim_zeros t)
  where
    kept : (k : Text) → length k ≤ length t → length (keep_digit d k) ≤ suc (length t)
    kept [] h = ground arith
    kept (x ∷ k) h = omega arith

all-trim_zeros : (t : Text) → all is_ascii_digit t ≡ true → all is_ascii_digit (trim_zeros t) ≡ true
unfolding trim_zeros keep_digit
all-trim_zeros [] h = refl
all-trim_zeros (d ∷ t) h = kept (trim_zeros t) (ground arith) (all-trim_zeros t (ground arith))
  where
    kept :
        (k : Text)
        → is_ascii_digit d ≡ true
        → all is_ascii_digit k ≡ true
        → all is_ascii_digit (keep_digit d k) ≡ true
    kept [] a b = ground arith
    kept (x ∷ k) a b = ground arith

-- Only zeros are trimmed away altogether.
trim_zeros-nil : (t : Text) → trim_zeros t ≡ [] → all (λ d. d == b'0') t ≡ true
unfolding trim_zeros keep_digit
trim_zeros-nil [] h = refl
trim_zeros-nil (d ∷ t) h =
    let (a, b) = kept (trim_zeros t) h in let c = trim_zeros-nil t b in ground arith
  where
    kept : (k : Text) → keep_digit d k ≡ [] → ((d == b'0') ≡ true) × (k ≡ [])
    kept [] e = (ground arith, refl)
    kept (x ∷ k) e = absurd (ground arith)

zeros : (n : ℕ) → n < 1000000000 → all (λ d. d == b'0') (nine_digits n) ≡ true → n ≡ 0
unfolding nine_digits digit
zeros n h a = ground arith

is_digit : (n : ℕ) → is_ascii_digit (digit n) ≡ true
unfolding digit
is_digit n = ground arith

nine_digits-all : (n : ℕ) → all is_ascii_digit (nine_digits n) ≡ true
unfolding nine_digits
nine_digits-all n =
    rw
      (
        is_digit (n / 100000000),
        is_digit (n / 10000000),
        is_digit (n / 1000000),
        is_digit (n / 100000),
        is_digit (n / 10000),
        is_digit (n / 1000),
        is_digit (n / 100),
        is_digit (n / 10),
        is_digit n,
      )
      refl

length-nine_digits : (n : ℕ) → length (nine_digits n) ≡ 9
unfolding nine_digits
length-nine_digits n = refl

-- A fraction without its last zeros has one to nine digits.
fraction_text-shape :
    (t : Text)
    → t ≢ []
    → length t ≤ 9
    → all is_ascii_digit t ≡ true
    → fraction_shape (b'.' ∷ t) ≡ true
unfolding fraction_shape byte_is
fraction_text-shape [] e l a = absurd (e refl)
fraction_text-shape (d ∷ t) e l a = ground arith

civil-Fields :
    (c : Civil)
    → InRange c
    → Fields
        (digit (c.year / 1000))
        (digit (c.year / 100))
        (digit (c.year / 10))
        (digit c.year)
        (digit (c.month / 10))
        (digit c.month)
        (digit (c.day / 10))
        (digit c.day)
        (digit (c.hour / 10))
        (digit c.hour)
        (digit (c.minute / 10))
        (digit c.minute)
        (digit (c.second / 10))
        (digit c.second)
unfolding digit
civil-Fields c r = record {
  year = ground arith;
  month = ground arith;
  day = ground arith;
  hour = ground arith;
  minute = ground arith;
  second = ground arith;
  not_zero = ground (arith, r.year_positive, r.year_bounded);
  no_leap = ground (arith, r.second);
}

fraction_of : Civil → Text
fraction_of c = if c.nanosecond == 0 then [] else b'.' ∷ trim_zeros (nine_digits c.nanosecond)

no_fraction : fraction_shape [] ≡ true
unfolding fraction_shape ℕ_discrete
no_fraction = refl

fraction_of-shape : (c : Civil) → InRange c → fraction_shape (fraction_of c) ≡ true
unfolding fraction_of
fraction_of-shape c r = elim (Bool-cases (c.nanosecond == 0)) [
  | inl z ↦ rw z no_fraction
  | inr n ↦ rw n (
      fraction_text-shape (trim_zeros (nine_digits c.nanosecond))
        (λ e. absurd (
          ground
            (arith, zeros c.nanosecond r.nanosecond (trim_zeros-nil (nine_digits c.nanosecond) e))))
        (short c.nanosecond)
        (all-trim_zeros (nine_digits c.nanosecond) (nine_digits-all c.nanosecond)))
]
  where
    short : (n : ℕ) → length (trim_zeros (nine_digits n)) ≤ 9
    short n = omega (arith, length-trim_zeros (nine_digits n), length-nine_digits n)

-- The text of every instant from the year 1 to 9999 has the canonical wire form: four digits of the
-- year, two of every other field, no leap second, and a fraction, if any, of one to nine digits.
pub canonical_utc-canonical : (c : Civil) → InRange c → canonical_utc_shape (canonical_utc c) ≡ true
unfolding canonical_utc four_digits two_digits fraction_of
canonical_utc-canonical c r =
    canonical_shape _ _ _ _ _ _ _ _ _ _ _ _ _ _ (fraction_of c) (civil-Fields c r)
      (fraction_of-shape c r)
