-- ===== src/Contracts/IntegerExact.antt =====
-- Which numbers the decoder of whole numbers accepts: src/automation/contracts/integer.rs.
use aictx.Base.{
  ℕ, ◌+◌, ◌-◌, ◌*◌, ◌^◌, ◌≤◌, ◌<◌, ◌≡◌, refl, sym, ap, ◌∙◌, subst, Bool, true, false, some, [], ◌∷◌,
  ◌++◌, Text, length, ltb, leb, arith, inl, inr, ◌↔◌, Bool-cases, Option-cases, nat_eq,
  if◌then◌else◌, split_once,
}
use aictx.Contracts.Integer.{
  is_empty, decimal, Numeral, numeral, fraction_of, split_exponent, parse_i128, read_numeral,
  trim_leading_zeros, scaled, evaluate_numeral, parse_unsigned_integral, deserialize_bounded_u64,
}
use aictx.Contracts.IntegerLaws.{
  Denotes, pow_add, one_power, decimal-trim_leading_zeros, decimal-none, evaluate_numeral-Denotes,
}
use aictx.Contracts.IntegerReads.{
  AllDigits, Leading, pow-positive, trim_leading_zeros-Leading, scale_up-reads,
}
use aictx.Contracts.IntegerScales.{cancel, scale_down-reads}

cancel_equal : (a b p : ℕ) → 1 ≤ p → a * p ≡ b * p → a ≡ b
cancel_equal a b p one h =
    omega
      (arith, cancel a b p one (omega (arith, h, one)), cancel b a p one (omega (arith, h, one)))

module _ (maximum : ℕ) (small : maximum < 2 ^ 64) (s : Text) (leading : Leading s)
    (fits : length s < 2 ^ 64) where
  scaled-reads :
      (negative : Bool) (m f n : ℕ)
      → n * 10 ^ (f + (if negative then m else 0)) ≡ decimal 0 s * 10 ^ (if negative then 0 else m)
      → n ≤ maximum
      → scaled maximum s (negative, m) f ≡ some n
  unfolding scaled
  scaled-reads true m f n value bound = elim (Bool-cases (ltb 0 (m + f))) [
    | inl down ↦
        let same : m + f ≡ f + m = omega arith in
        let whole : n * 10 ^ (m + f) ≡ decimal 0 s =
          ap (λ (t : ℕ). n * 10 ^ t) same ∙ value ∙ one_power (decimal 0 s) in
        ground (arith, scale_down-reads maximum small s (m + f) n leading fits whole bound)
    | inr level ↦
        let none_behind : 0 ≡ f + m = ground arith in
        let no_shift : m - f ≡ 0 = ground arith in
        let whole : decimal 0 s * 10 ^ (m - f) ≡ n =
          ap (λ (t : ℕ). decimal 0 s * 10 ^ t) no_shift
          ∙ sym value
          ∙ sym (ap (λ (t : ℕ). n * 10 ^ t) none_behind)
          ∙ one_power n in
        ground (
          arith,
          scale_up-reads maximum small s (m - f) leading (omega (arith, whole, bound)),
          whole,
        )
  ]
  scaled-reads false m f n value bound =
      let bare : f ≡ f + 0 = omega arith in
      let shifted : n * 10 ^ f ≡ decimal 0 s * 10 ^ m = ap (λ (t : ℕ). n * 10 ^ t) bare ∙ value in
      elim (Bool-cases (leb f m)) [
        | inl up ↦
            let split : m ≡ m - f + f = ground arith in
            let whole : n ≡ decimal 0 s * 10 ^ (m - f) =
              cancel_equal n (decimal 0 s * 10 ^ (m - f)) (10 ^ f) (pow-positive f) (
                shifted
                ∙ ap (λ (t : ℕ). decimal 0 s * 10 ^ t) split
                ∙ pow_add (decimal 0 s) (m - f) f) in
            ground (
              arith,
              scale_up-reads maximum small s (m - f) leading (omega (arith, whole, bound)),
              whole,
            )
        | inr down ↦
            let split : f - m + m ≡ f = ground arith in
            let whole : n * 10 ^ (f - m) ≡ decimal 0 s =
              cancel_equal (n * 10 ^ (f - m)) (decimal 0 s) (10 ^ m) (pow-positive m)
                (sym (pow_add n (f - m) m) ∙ ap (λ (t : ℕ). n * 10 ^ t) split ∙ shifted) in
            ground (arith, scale_down-reads maximum small s (f - m) n leading fits whole bound)
      ]

append-AllDigits : (a b : Text) → AllDigits a → AllDigits b → AllDigits (a ++ b)
append-AllDigits [] b front back = back
append-AllDigits (c ∷ a) b front back = ground (arith, append-AllDigits a b)

numeral-AllDigits :
    (mantissa : Text) (exponent : Bool × ℕ) (p : Numeral)
    → numeral mantissa exponent ≡ some p
    → AllDigits p.whole × AllDigits p.fraction
unfolding numeral
numeral-AllDigits mantissa exponent p h =
    let parts = fraction_of (split_once b'.' mantissa) mantissa in
    let front : AllDigits parts.0 = ground arith in
    let back : AllDigits parts.1 = ground arith in
    let first : p.whole ≡ parts.0 = ground arith in
    let second : p.fraction ≡ parts.1 = ground arith in
    (subst AllDigits (sym first) front, subst AllDigits (sym second) back)

read_numeral-AllDigits :
    (value : Text) (p : Numeral)
    → read_numeral value ≡ some p
    → AllDigits p.whole × AllDigits p.fraction
unfolding read_numeral
read_numeral-AllDigits value p h =
    let parts = split_exponent value in
    elim (Option-cases parts.1) [
      | inl bare ↦ numeral-AllDigits parts.0 (false, 0) p (ground arith)
      | inr (written, found) ↦ elim (Option-cases (parse_i128 written)) [
        | inl refused ↦ absurd (ground arith)
        | inr (exponent, parsed) ↦ numeral-AllDigits parts.0 exponent p (ground arith)
      ]
    ]

length-trim_leading_zeros : (ds : Text) → length (trim_leading_zeros ds) ≤ length ds
unfolding trim_leading_zeros
length-trim_leading_zeros [] = omega arith
length-trim_leading_zeros (d ∷ ds) = ground (arith, length-trim_leading_zeros ds)

no_times : (p : ℕ) → 0 * p ≡ 0
no_times p = omega arith

Leading-full : (s : Text) → Leading s → is_empty s ≡ false
Leading-full [] h = absurd h
Leading-full (d ∷ ds) h = refl

evaluate_numeral-reads :
    (maximum : ℕ) (p : Numeral) (n : ℕ)
    → maximum < 2 ^ 64
    → AllDigits (p.whole ++ p.fraction)
    → length (p.whole ++ p.fraction) < 2 ^ 64
    → Denotes p n
    → n ≤ maximum
    → evaluate_numeral maximum p ≡ some n
unfolding evaluate_numeral Denotes
evaluate_numeral-reads maximum p n small digits fits value bound =
    let ds = p.whole ++ p.fraction in
    let s = trim_leading_zeros ds in
    let trimmed = decimal-trim_leading_zeros ds in
    let power = 10 ^ (if p.exponent.0 then 0 else p.exponent.1) in
    elim (trim_leading_zeros-Leading ds digits) [
      | inl empty ↦
          let nothing : decimal 0 ds ≡ 0 = sym trimmed ∙ ap (decimal 0) empty ∙ decimal-none in
          let left = length p.fraction + (if p.exponent.0 then p.exponent.1 else 0) in
          let zero_value : n * 10 ^ left ≡ 0 =
            value ∙ ap (λ (t : ℕ). t * power) nothing ∙ no_times power in
          let result : n ≡ 0 =
            cancel_equal n 0 (10 ^ left) (pow-positive left)
              (zero_value ∙ sym (no_times (10 ^ left))) in
          ground (arith, empty, result)
      | inr leading ↦
          let short : length s < 2 ^ 64 = omega (arith, fits, length-trim_leading_zeros ds) in
          let scaling =
            scaled-reads maximum small s leading short p.exponent.0 p.exponent.1 (length p.fraction)
              n (value ∙ sym (ap (λ (t : ℕ). t * power) trimmed)) bound in
          ground (arith, scaling, Leading-full s leading)
    ]

pub decoded_iff :
    (minimum maximum : ℕ) (value : Text) (p : Numeral) (n : ℕ)
    → maximum < 2 ^ 64
    → read_numeral value ≡ some p
    → length (p.whole ++ p.fraction) < 2 ^ 64
    → (deserialize_bounded_u64 minimum maximum value ≡ some n)
      ↔ (Denotes p n × (minimum ≤ n) × (n ≤ maximum))
unfolding deserialize_bounded_u64 parse_unsigned_integral
decoded_iff minimum maximum value p n small found fits =
    let (front, back) = read_numeral-AllDigits value p found in
    let digits = append-AllDigits p.whole p.fraction front back in
    (
      λ decoded.
          let evaluated : evaluate_numeral maximum p ≡ some n =
            ground (arith, Option-cases (evaluate_numeral maximum p)) in
          let (exact, below) = evaluate_numeral-Denotes maximum p n evaluated in
          (exact, ground arith, below),
      λ (exact, above, below).
          ground (arith, evaluate_numeral-reads maximum p n small digits fits exact below),
    )
