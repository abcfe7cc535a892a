-- ===== src/Contracts/IntegerReads.antt =====
-- Every whole number within its bound is read: src/automation/contracts/integer.rs.
use native.Mathlib.Omega.{pow_step}
use aictx.Base.{
  ℕ, zero, suc, ◌+◌, ◌-◌, ◌*◌, ◌^◌, ◌≤◌, ◌<◌, ◌≡◌, refl, ap, ◌∙◌, true, some, [], ◌∷◌, Text, ◌==◌,
  length, all, leb, is_ascii_digit, arith, inl, inr, Bool-cases, nat_eq, ==_iff, and_true, leb→le,
  ◌⊎◌,
}
use aictx.Contracts.Integer.{
  decimal, trim_leading_zeros, parse_digits, multiply_by_power_of_ten, scale_up,
}
use aictx.Contracts.IntegerLaws.{tenfold, pow_add}

abbrev pub AllDigits : Text → Type 0
AllDigits ds = all is_ascii_digit ds ≡ true

pub times_le : (a b p : ℕ) → a ≤ b → a * p ≤ b * p
times_le a b p h = grind arith

-- The digits of a text weigh at least its leading value, and less than the next one.
pub decimal-bounds :
    (v : ℕ) (ds : Text)
    → AllDigits ds
    → (v * 10 ^ length ds ≤ decimal v ds) × (decimal v ds < suc v * 10 ^ length ds)
unfolding decimal
decimal-bounds v [] h = (omega arith, omega arith)
decimal-bounds v (d ∷ ds) h =
    let next = v * 10 + (d - b'0') in
    let (low, high) = decimal-bounds next ds (ground arith) in
    let digit : d - b'0' ≤ 9 = ground arith in
    let p = 10 ^ length ds in
    (
      omega (arith, low, tenfold v (length ds), times_le (v * 10) next p (omega arith)),
      omega (
        arith,
        high,
        tenfold (suc v) (length ds),
        times_le (suc next) (suc v * 10) p (omega (arith, digit)),
      ),
    )

pub pow-positive : (k : ℕ) → 1 ≤ 10 ^ k
pow-positive zero = omega arith
pow-positive (suc k) = omega (arith, pow-positive k, pow_step 10 k)

decimal-le : (v : ℕ) (ds : Text) → v ≤ decimal v ds
unfolding decimal
decimal-le v [] = omega arith
decimal-le v (d ∷ ds) = omega (arith, decimal-le (v * 10 + (d - b'0')) ds)

pub pow-le : (a b : ℕ) → a ≤ b → 10 ^ a ≤ 10 ^ b
pow-le a b h =
    let whole : 1 * 10 ^ b ≡ 1 * 10 ^ (b - a) * 10 ^ a =
      ap (λ (t : ℕ). 1 * 10 ^ t) (omega arith) ∙ pow_add 1 (b - a) a in
    omega
      (arith, whole, times_le 1 (1 * 10 ^ (b - a)) (10 ^ a) (omega (arith, pow-positive (b - a))))

pub lt-pow : (k : ℕ) → k < 10 ^ k
lt-pow zero = omega arith
lt-pow (suc k) = omega (arith, lt-pow k, pow_step 10 k)

-- A text of digits whose first one is not zero.
abbrev pub Leading : Text → Type 0
Leading [] = ⊥
Leading (d ∷ ds) = AllDigits (d ∷ ds) × (1 ≤ d - b'0')

pub trim_leading_zeros-Leading :
    (ds : Text) → AllDigits ds → (trim_leading_zeros ds ≡ []) ⊎ Leading (trim_leading_zeros ds)
unfolding trim_leading_zeros
trim_leading_zeros-Leading [] h = inl refl
trim_leading_zeros-Leading (d ∷ ds) h = elim (Bool-cases (d == b'0')) [
  | inl mark ↦
      let same : trim_leading_zeros (d ∷ ds) ≡ trim_leading_zeros ds = ground arith in
      rw same (trim_leading_zeros-Leading ds (and_true h).1)
  | inr other ↦
      let same : trim_leading_zeros (d ∷ ds) ≡ d ∷ ds = ground arith in
      let first : 1 ≤ d - b'0' = ground (arith, ==_iff d b'0') in rw same (inr (h, first))
]

pub Leading-bounds :
    (s : Text) → Leading s → (10 ^ length s ≤ 10 * decimal 0 s) × (decimal 0 s < 10 ^ length s)
unfolding decimal
Leading-bounds [] h = absurd h
Leading-bounds (d ∷ ds) (digits, first) =
    let (low, high) = decimal-bounds 0 (d ∷ ds) digits in
    let (above, below) = decimal-bounds (0 * 10 + (d - b'0')) ds (and_true digits).1 in
    (
      omega (
        arith,
        above,
        pow_step 10 (length ds),
        times_le 1 (0 * 10 + (d - b'0')) (10 ^ length ds) (omega (arith, first)),
      ),
      omega (arith, high),
    )

module _ (maximum : ℕ) (small : maximum < 2 ^ 64) where
  pub parse_digits-reads :
      (v : ℕ) (ds : Text)
      → AllDigits ds
      → decimal v ds ≤ maximum
      → parse_digits maximum v ds ≡ some (decimal v ds)
  unfolding parse_digits decimal
  parse_digits-reads v [] h bound = refl
  parse_digits-reads v (d ∷ ds) h bound =
      let next = v * 10 + (d - b'0') in
      ground (arith, parse_digits-reads next ds, decimal-le next ds)

  multiply_by_power_of_ten-reads :
      (v shift : ℕ)
      → v * 10 ^ shift ≤ maximum
      → multiply_by_power_of_ten maximum v shift ≡ some (v * 10 ^ shift)
  unfolding multiply_by_power_of_ten
  multiply_by_power_of_ten-reads v zero bound = ap some (omega arith)
  multiply_by_power_of_ten-reads v (suc shift) bound =
      let same = tenfold v shift in
      let rest = multiply_by_power_of_ten-reads (v * 10) shift (omega (arith, same)) in
      let low : v * 10 ≤ v * 10 * 10 ^ shift = grind (arith, pow-positive shift) in
      ground (arith, rest, same, low)

  digits_fit :
      (s : Text) (shift value : ℕ)
      → value * 10 ^ shift ≤ maximum
      → 10 ^ length s ≤ 10 * value
      → length s + shift ≤ 20
  digits_fit s shift value bound low = elim (Bool-cases (leb (length s + shift) 20)) [
    | inl fits ↦ leb→le (length s + shift) 20 fits
    | inr long ↦
        let above : 10 ^ 21 ≤ 10 ^ (length s + shift) =
          pow-le 21 (length s + shift) (ground arith) in
        let split = pow_add 1 (length s) shift in
        let below = times_le (10 ^ length s) (10 * value) (10 ^ shift) low in
        let regroup : 10 * value * 10 ^ shift ≡ 10 * (value * 10 ^ shift) = grind arith in
        absurd (omega (arith, above, split, below, regroup, bound, small))
  ]

  pub scale_up-reads :
      (significant : Text) (shift : ℕ)
      → Leading significant
      → decimal 0 significant * 10 ^ shift ≤ maximum
      → scale_up maximum significant shift ≡ some (decimal 0 significant * 10 ^ shift)
  unfolding scale_up
  scale_up-reads [] shift leading bound = absurd leading
  scale_up-reads (d ∷ ds) shift leading bound =
      let s = d ∷ ds in
      let value = decimal 0 s in
      let (low, high) = Leading-bounds s leading in
      let one : 1 ≤ value = omega (arith, low, pow-positive (length s)) in
      let power = 10 ^ shift in
      let within : value ≤ value * power = grind (arith, pow-positive shift) in
      let digits = parse_digits-reads 0 s leading.0 (omega (arith, within)) in
      let times = multiply_by_power_of_ten-reads value shift bound in
      let few : shift < 2 ^ 64 = omega (arith, lt-pow shift, times_le 1 value power one) in
      let short : length s + shift ≤ 20 = digits_fit s shift value bound low in
      ground (arith, digits, times, few, short)
