-- ===== src/Contracts/IntegerLaws.antt =====
-- A whole number that is read is the number that its text denotes:
-- src/automation/contracts/integer.rs.
use native.Mathlib.Omega.{pow_step}
use aictx.Base.{
  ℕ, zero, suc, ◌+◌, ◌-◌, ◌*◌, ◌^◌, ◌≤◌, ◌≡◌, refl, sym, ap, ◌∙◌, Bool, true, false, some, [], ◌∷◌,
  ◌++◌, Text, ◌==◌, length, take, drop, all, ltb, leb, arith, inl, inr, ◌⊎◌, Bool-cases,
  Option-cases, nat_eq, ==_iff, if◌then◌else◌,
}
use aictx.Contracts.Integer.{
  is_empty, decimal, Numeral, trim_leading_zeros, parse_digits, multiply_by_power_of_ten, scale_up,
  scale_down, scaled, evaluate_numeral,
}

-- The value of a numeral, as an equation without fractions.
unfoldable pub Denotes : Numeral → ℕ → Type 0
Denotes n value =
    value * 10 ^ (length n.fraction + (if n.exponent.0 then n.exponent.1 else 0))
    ≡ decimal 0 (n.whole ++ n.fraction) * 10 ^ (if n.exponent.0 then 0 else n.exponent.1)

regroup : (v p : ℕ) → v * (10 * p) ≡ v * 10 * p
regroup v p = grind arith

pub tenfold : (v k : ℕ) → v * 10 ^ suc k ≡ v * 10 * 10 ^ k
tenfold v k = ap (λ (t : ℕ). v * t) (pow_step 10 k) ∙ regroup v (10 ^ k)

pub pow_add : (v a b : ℕ) → v * 10 ^ (a + b) ≡ v * 10 ^ a * 10 ^ b
pow_add v zero b =
    let same : zero + b ≡ b = omega arith in
    let one : v * 10 ^ zero ≡ v = omega arith in
    ap (λ (t : ℕ). v * 10 ^ t) same ∙ sym (ap (λ (t : ℕ). t * 10 ^ b) one)
pow_add v (suc a) b =
    let same : suc a + b ≡ suc (a + b) = omega arith in
    ap (λ (t : ℕ). v * 10 ^ t) same
    ∙ tenfold v (a + b)
    ∙ pow_add (v * 10) a b
    ∙ sym (ap (λ (t : ℕ). t * 10 ^ b) (tenfold v a))

pub decimal-trim_leading_zeros : (ds : Text) → decimal 0 (trim_leading_zeros ds) ≡ decimal 0 ds
unfolding decimal trim_leading_zeros
decimal-trim_leading_zeros [] = refl
decimal-trim_leading_zeros (d ∷ ds) = elim (Bool-cases (d == b'0')) [
  | inl mark ↦ ground (arith, decimal-trim_leading_zeros ds, ==_iff d b'0')
  | inr other ↦ ground arith
]

pub decimal-append : (v : ℕ) (a b : Text) → decimal v (a ++ b) ≡ decimal (decimal v a) b
unfolding decimal
decimal-append v [] b = refl
decimal-append v (d ∷ a) b = decimal-append (v * 10 + (d - b'0')) a b

decimal-zeros :
    (v : ℕ) (ds : Text) → all (λ byte. byte == b'0') ds ≡ true → decimal v ds ≡ v * 10 ^ length ds
unfolding decimal
decimal-zeros v [] h = omega arith
decimal-zeros v (d ∷ ds) h =
    let mark : d ≡ b'0' = ground (arith, ==_iff d b'0') in
    let same : v * 10 + (d - b'0') ≡ v * 10 = omega (arith, mark) in
    ap (λ (t : ℕ). decimal t ds) same
    ∙ decimal-zeros (v * 10) ds (ground arith)
    ∙ sym (tenfold v (length ds))

parse_digits-decimal :
    (maximum v : ℕ) (ds : Text) (n : ℕ)
    → parse_digits maximum v ds ≡ some n
    → (decimal v ds ≡ n) × (v ≤ maximum → n ≤ maximum)
unfolding decimal parse_digits
parse_digits-decimal maximum v [] n h = (ground arith, λ small. ground arith)
parse_digits-decimal maximum v (d ∷ ds) n h =
    let (value, bound) = parse_digits-decimal maximum (v * 10 + (d - b'0')) ds n (ground arith) in
    let next : v * 10 + (d - b'0') ≤ maximum = ground arith in (value, λ small. bound next)

multiply_by_power_of_ten-pow :
    (maximum v shift n : ℕ)
    → multiply_by_power_of_ten maximum v shift ≡ some n
    → (n ≡ v * 10 ^ shift) × (v ≤ maximum → n ≤ maximum)
unfolding multiply_by_power_of_ten
multiply_by_power_of_ten-pow maximum v zero n h = (ground arith, λ small. ground arith)
multiply_by_power_of_ten-pow maximum v (suc shift) n h =
    let (value, bound) = multiply_by_power_of_ten-pow maximum (v * 10) shift n (ground arith) in
    let next : v * 10 ≤ maximum = ground arith in
    (value ∙ sym (tenfold v shift), λ small. bound next)

pub take-drop : (k : ℕ) (ds : Text) → take k ds ++ drop k ds ≡ ds
take-drop zero ds = refl
take-drop (suc k) [] = refl
take-drop (suc k) (d ∷ ds) = ap (λ (s : Text). d ∷ s) (take-drop k ds)

pub length-drop : (k : ℕ) (ds : Text) → length (drop k ds) ≡ length ds - k
length-drop zero ds = omega arith
length-drop (suc k) [] = omega arith
length-drop (suc k) (d ∷ ds) = omega (arith, length-drop k ds)

scale_up-value :
    (maximum : ℕ) (significant : Text) (shift n : ℕ)
    → scale_up maximum significant shift ≡ some n
    → (n ≡ decimal 0 significant * 10 ^ shift) × (n ≤ maximum)
unfolding scale_up
scale_up-value maximum significant shift n h =
    elim (Option-cases (parse_digits maximum 0 significant)) [
      | inl refused ↦ absurd (ground arith)
      | inr (v, parsed) ↦
          let (digits, small) = parse_digits-decimal maximum 0 significant v parsed in
          let (value, bound) = multiply_by_power_of_ten-pow maximum v shift n (ground arith) in
          (value ∙ sym (ap (λ (t : ℕ). t * 10 ^ shift) digits), bound (small (omega arith)))
    ]

scale_down-value :
    (maximum : ℕ) (significant : Text) (removed n : ℕ)
    → scale_down maximum significant removed ≡ some n
    → (n * 10 ^ removed ≡ decimal 0 significant) × (n ≤ maximum)
unfolding scale_down
scale_down-value maximum significant removed n h =
    let split = length significant - removed in
    let front = take split significant in
    let back = drop split significant in
    let parsed : parse_digits maximum 0 front ≡ some n = ground arith in
    let zeros : all (λ byte. byte == b'0') back ≡ true = ground arith in
    let short : removed ≤ length significant = ground arith in
    let (digits, small) = parse_digits-decimal maximum 0 front n parsed in
    let size : length back ≡ removed = omega (arith, length-drop split significant, short) in
    let whole : decimal 0 significant ≡ decimal (decimal 0 front) back =
      sym (ap (decimal 0) (take-drop split significant)) ∙ decimal-append 0 front back in
    let value : decimal 0 significant ≡ n * 10 ^ removed =
      whole
      ∙ decimal-zeros (decimal 0 front) back zeros
      ∙ ap (λ (t : ℕ). decimal 0 front * 10 ^ t) size
      ∙ ap (λ (t : ℕ). t * 10 ^ removed) digits in
    (sym value, small (omega arith))

pub decimal-none : decimal 0 [] ≡ 0
unfolding decimal
decimal-none = refl

times_zero : (a b : ℕ) → 0 * a ≡ 0 * b
times_zero a b = omega arith

pub one_power : (v : ℕ) → v * 10 ^ 0 ≡ v
one_power v = omega arith

scaled-value :
    (maximum : ℕ) (significant : Text) (negative : Bool) (m f n : ℕ)
    → scaled maximum significant (negative, m) f ≡ some n
    → (n * 10 ^ (f + (if negative then m else 0))
        ≡ decimal 0 significant * 10 ^ (if negative then 0 else m))
      × (n ≤ maximum)
unfolding scaled
scaled-value maximum significant true m f n h = elim (Bool-cases (ltb 0 (m + f))) [
  | inl down ↦
      let (value, small) = scale_down-value maximum significant (m + f) n (ground arith) in
      let same : f + m ≡ m + f = omega arith in
      (ap (λ (t : ℕ). n * 10 ^ t) same ∙ value ∙ sym (one_power (decimal 0 significant)), small)
  | inr level ↦
      let up : scale_up maximum significant (m - f) ≡ some n = ground arith in
      let (value, small) = scale_up-value maximum significant (m - f) n up in
      let none_behind : f + m ≡ 0 = ground arith in
      let no_zeroes : m - f ≡ 0 = ground arith in
      (
        ap (λ (t : ℕ). n * 10 ^ t) none_behind
            ∙ one_power n
            ∙ value
            ∙ ap (λ (t : ℕ). decimal 0 significant * 10 ^ t) no_zeroes,
        small,
      )
]
scaled-value maximum significant false m f n h = elim (Bool-cases (leb f m)) [
  | inl up ↦
      let (value, small) = scale_up-value maximum significant (m - f) n (ground arith) in
      let bare : f + 0 ≡ f = omega arith in
      let same : m - f + f ≡ m = ground arith in
      (
        ap (λ (t : ℕ). n * 10 ^ t) bare
            ∙ ap (λ (t : ℕ). t * 10 ^ f) value
            ∙ sym (pow_add (decimal 0 significant) (m - f) f)
            ∙ ap (λ (t : ℕ). decimal 0 significant * 10 ^ t) same,
        small,
      )
  | inr down ↦
      let (value, small) = scale_down-value maximum significant (f - m) n (ground arith) in
      let same : f + 0 ≡ f - m + m = ground arith in
      (
        ap (λ (t : ℕ). n * 10 ^ t) same ∙ pow_add n (f - m) m ∙ ap (λ (t : ℕ). t * 10 ^ m) value,
        small,
      )
]

text-cases : (s : Text) → (s ≡ []) ⊎ (is_empty s ≡ false)
text-cases [] = inl refl
text-cases (c ∷ s) = inr refl

pub evaluate_numeral-Denotes :
    (maximum : ℕ) (p : Numeral) (n : ℕ)
    → evaluate_numeral maximum p ≡ some n
    → Denotes p n × (n ≤ maximum)
unfolding evaluate_numeral Denotes
evaluate_numeral-Denotes maximum p n h =
    let digits = p.whole ++ p.fraction in
    let trimmed = decimal-trim_leading_zeros digits in
    elim (text-cases (trim_leading_zeros digits)) [
      | inl empty ↦
          let result : n ≡ 0 = ground arith in
          let left = 10 ^ (length p.fraction + (if p.exponent.0 then p.exponent.1 else 0)) in
          let right = 10 ^ (if p.exponent.0 then 0 else p.exponent.1) in
          (
            ap (λ (t : ℕ). t * left) result
                ∙ times_zero left right
                ∙ sym
                    (ap (λ (t : ℕ). t * right) (sym trimmed ∙ ap (decimal 0) empty ∙ decimal-none)),
            omega arith,
          )
      | inr full ↦
          let scaling : scaled maximum (trim_leading_zeros digits) (p.exponent.0, p.exponent.1)
                (length p.fraction)
              ≡ some n =
            ground arith in
          let (value, small) =
            scaled-value maximum (trim_leading_zeros digits) p.exponent.0 p.exponent.1
              (length p.fraction) n scaling in
          (
            value ∙ ap (λ (t : ℕ). t * 10 ^ (if p.exponent.0 then 0 else p.exponent.1)) trimmed,
            small,
          )
    ]
