-- ===== src/Contracts/Integer.antt =====
-- Whole numbers in JSON: src/automation/contracts/integer.rs. The text is the trimmed `RawValue` of
-- `serde_json`. An `i128` is its sign and its magnitude.
use aictx.Base.{
  ℕ, zero, suc, ◌+◌, ◌-◌, ◌*◌, ◌^◌, Bool, true, false, not, ◌&&◌, ◌||◌, Option, none, some, [], ◌∷◌,
  ◌++◌, Text, ◌==◌, length, take, drop, all, ltb, leb, is_ascii_digit, starts_with, codes,
  split_once, if◌then◌else◌, nat_eq,
}

abbrev pub is_exponent_mark : ℕ → Bool
is_exponent_mark c = c == b'e' || c == b'E'

-- The text before the first `e` or `E`, and the text behind it.
unfoldable pub split_exponent : Text → Text × Option Text
split_exponent [] = ([], none)
split_exponent (c ∷ s) =
    let rest = split_exponent s in if is_exponent_mark c then ([], some s) else (c ∷ rest.0, rest.1)

unfoldable pub decimal : ℕ → Text → ℕ
decimal value [] = value
decimal value (d ∷ ds) = decimal (value * 10 + (d - b'0')) ds

-- `str::parse::<i128>`: a magnitude of at least one digit, below 2 ^ 127 or, when negative, equal to it.
unfoldable pub magnitude : Bool → Text → Option (Bool × ℕ)
unfolding decimal
magnitude negative [] = none
magnitude negative (d ∷ ds) =
    let m = decimal 0 (d ∷ ds) in
    let largest = if negative then 2 ^ 127 else 2 ^ 127 - 1 in
    if all is_ascii_digit (d ∷ ds) && leb m largest then some (negative, m) else none

unfoldable pub parse_i128 : Text → Option (Bool × ℕ)
unfolding magnitude
parse_i128 [] = none
parse_i128 (c ∷ s) =
    if c == b'-'
    then magnitude true s
    else if c == b'+'
    then magnitude false s
    else magnitude false (c ∷ s)

-- The whole part, the fraction and the exponent of a numeral.
pub record Numeral : Type 0 where
  pub whole : Text
  pub fraction : Text
  pub exponent : Bool × ℕ

abbrev pub fraction_of : Option (Text × Text) → Text → Text × Text
fraction_of none mantissa = (mantissa, [])
fraction_of (some parts) mantissa = parts

abbrev pub is_empty : Text → Bool
is_empty [] = true
is_empty (c ∷ s) = false

unfoldable pub numeral : Text → Bool × ℕ → Option Numeral
unfolding split_once
numeral mantissa exponent =
    let parts = fraction_of (split_once b'.' mantissa) mantissa in
    if is_empty parts.0 || not (all is_ascii_digit parts.0) || not (all is_ascii_digit parts.1)
    then none
    else some record { whole = parts.0; fraction = parts.1; exponent = exponent }

-- The first half of `parse_unsigned_integral`, up to its digits.
unfoldable pub read_numeral : Text → Option Numeral
unfolding split_exponent parse_i128 numeral
read_numeral value =
    let parts = split_exponent value in
    if starts_with value (codes "-") then none else elim (parts.1) [
      | none ↦ numeral parts.0 (false, 0)
      | some written ↦ elim (parse_i128 written) [
        | none ↦ none
        | some exponent ↦ numeral parts.0 exponent
      ]
    ]

-- `str::trim_start_matches('0')`.
unfoldable pub trim_leading_zeros : Text → Text
trim_leading_zeros [] = []
trim_leading_zeros (d ∷ ds) = let rest = trim_leading_zeros ds in if d == b'0' then rest else d ∷ ds

-- The loop of `parse_digits`, in 64-bit arithmetic.
unfoldable pub parse_digits : ℕ → ℕ → Text → Option ℕ
parse_digits maximum value [] = some value
parse_digits maximum value (d ∷ ds) =
    let next = value * 10 + (d - b'0') in
    let rest = parse_digits maximum next ds in
    if not (is_ascii_digit d) || leb (2 ^ 64) next || ltb maximum next then none else rest

unfoldable pub multiply_by_power_of_ten : ℕ → ℕ → ℕ → Option ℕ
multiply_by_power_of_ten maximum value zero = some value
multiply_by_power_of_ten maximum value (suc shift) =
    let rest = multiply_by_power_of_ten maximum (value * 10) shift in
    if leb (2 ^ 64) (value * 10) || ltb maximum (value * 10) then none else rest

-- A scale that is not negative, and one that is, with its magnitude.
unfoldable pub scale_up : ℕ → Text → ℕ → Option ℕ
unfolding parse_digits multiply_by_power_of_ten
scale_up maximum significant shift =
    if leb (2 ^ 64) shift || ltb 20 (length significant + shift)
    then none
    else elim (parse_digits maximum 0 significant) [
      | none ↦ none
      | some value ↦ multiply_by_power_of_ten maximum value shift
    ]

unfoldable pub scale_down : ℕ → Text → ℕ → Option ℕ
unfolding parse_digits
scale_down maximum significant removed =
    let split = length significant - removed in
    if leb (2 ^ 64) removed
      || leb (length significant) removed
      || not (all (λ byte. byte == b'0') (drop split significant))
    then none
    else parse_digits maximum 0 (take split significant)

unfoldable pub scaled : ℕ → Text → Bool × ℕ → ℕ → Option ℕ
unfolding scale_up scale_down
scaled maximum significant (negative, m) fraction_len =
    if negative && ltb 0 (m + fraction_len)
    then scale_down maximum significant (m + fraction_len)
    else if leb fraction_len m
    then scale_up maximum significant (m - fraction_len)
    else scale_down maximum significant (fraction_len - m)

-- The second half, from the digits on.
unfoldable pub evaluate_numeral : ℕ → Numeral → Option ℕ
unfolding trim_leading_zeros scaled
evaluate_numeral maximum n =
    let significant = trim_leading_zeros (n.whole ++ n.fraction) in
    if is_empty significant
    then some 0
    else scaled maximum significant n.exponent (length n.fraction)

unfoldable pub parse_unsigned_integral : ℕ → Text → Option ℕ
unfolding read_numeral evaluate_numeral
parse_unsigned_integral maximum value = elim (read_numeral value) [
  | none ↦ none
  | some n ↦ evaluate_numeral maximum n
]

-- `deserialize_bounded_u64`.
unfoldable pub deserialize_bounded_u64 : ℕ → ℕ → Text → Option ℕ
unfolding parse_unsigned_integral
deserialize_bounded_u64 minimum maximum value = elim (parse_unsigned_integral maximum value) [
  | none ↦ none
  | some n ↦ if leb minimum n then some n else none
]
