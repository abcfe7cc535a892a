-- ===== src/Contracts/IntegerScales.antt =====
-- A numeral with a fraction is read when the digits that it drops are zeros:
-- src/automation/contracts/integer.rs.
use aictx.Base.{
  ℕ, zero, suc, ◌+◌, ◌-◌, ◌*◌, ◌^◌, ◌≤◌, ◌<◌, ◌≡◌, refl, sym, ap, ◌∙◌, true, some, [], ◌∷◌, Text,
  ◌==◌, length, take, drop, all, ltb, leb, arith, inl, inr, Bool-cases, nat_eq, ==_iff, and_true,
  leb→le, ltb→lt, subst,
}
use aictx.Contracts.Integer.{decimal, scale_down}
use aictx.Contracts.IntegerLaws.{tenfold, decimal-append, take-drop, length-drop}
use aictx.Contracts.IntegerReads.{
  AllDigits, Leading, Leading-bounds, decimal-bounds, times_le, pow-positive, pow-le,
  parse_digits-reads,
}

split-AllDigits : (k : ℕ) (ds : Text) → AllDigits ds → AllDigits (take k ds) × AllDigits (drop k ds)
split-AllDigits zero ds h = (refl, h)
split-AllDigits (suc k) [] h = (refl, refl)
split-AllDigits (suc k) (d ∷ ds) h =
    let (front, back) = split-AllDigits k ds (and_true h).1 in (ground arith, back)

-- One of two products by a power is below the other only if its factor is.
pub cancel : (a b p : ℕ) → 1 ≤ p → a * p < suc b * p → a ≤ b
cancel a b p one h = elim (Bool-cases (leb a b)) [
  | inl below ↦ leb→le a b below
  | inr above ↦ absurd (omega (arith, times_le (suc b) a p (ground arith), h))
]

positive_factor : (n p : ℕ) {d : ℕ} → n * p ≡ d → 1 ≤ d → 1 ≤ n
positive_factor zero p h one = absurd (omega (arith, h, one))
positive_factor (suc n) p h one = omega arith

more : (v e p : ℕ) → 1 ≤ e → 1 ≤ p → v * p < (v + e) * p
more v e p h one = grind arith

decimal-only_zeros :
    (v : ℕ) (ds : Text)
    → AllDigits ds
    → decimal v ds ≡ v * 10 ^ length ds
    → all (λ byte. byte == b'0') ds ≡ true
unfolding decimal
decimal-only_zeros v [] h same = refl
decimal-only_zeros v (d ∷ ds) h same =
    let p = 10 ^ length ds in
    let rest_digits : AllDigits ds = ground arith in
    let low = (decimal-bounds (v * 10 + (d - b'0')) ds rest_digits).0 in
    elim (Bool-cases (d == b'0')) [
      | inl mark ↦
          let bare : v * 10 + (d - b'0') ≡ v * 10 = ground (arith, ==_iff d b'0') in
          let rest : decimal (v * 10) ds ≡ v * 10 * p =
            sym (ap (λ (t : ℕ). decimal t ds) bare) ∙ same ∙ tenfold v (length ds) in
          ground (arith, decimal-only_zeros (v * 10) ds rest_digits rest)
      | inr other ↦
          let digit : 1 ≤ d - b'0' = ground (arith, ==_iff d b'0') in
          absurd (
            omega (
              arith,
              low,
              same,
              tenfold v (length ds),
              more (v * 10) (d - b'0') p digit (pow-positive (length ds)),
            ))
    ]

module _ (maximum : ℕ) (small : maximum < 2 ^ 64) where
  pub scale_down-reads :
      (s : Text) (removed n : ℕ)
      → Leading s
      → length s < 2 ^ 64
      → n * 10 ^ removed ≡ decimal 0 s
      → n ≤ maximum
      → scale_down maximum s removed ≡ some n
  unfolding scale_down
  scale_down-reads [] removed n leading fits value bound = absurd leading
  scale_down-reads (d ∷ ds) removed n leading fits value bound =
      let s = d ∷ ds in
      let p = 10 ^ removed in
      let (low, high) = Leading-bounds s leading in
      let one : 1 ≤ n = positive_factor n p value (omega (arith, low, pow-positive (length s))) in
      let short : removed < length s = elim (Bool-cases (ltb removed (length s))) [
        | inl less ↦ ltb→lt removed (length s) less
        | inr long ↦ absurd (
            omega
              (arith, high, value, pow-le (length s) removed (ground arith), times_le 1 n p one))
      ] in
      let split = length s - removed in
      let front = take split s in
      let back = drop split s in
      let (front_digits, back_digits) = split-AllDigits split s leading.0 in
      let size : length back ≡ removed = omega (arith, length-drop split s, short) in
      let whole : decimal 0 s ≡ decimal (decimal 0 front) back =
        sym (ap (decimal 0) (take-drop split s)) ∙ decimal-append 0 front back in
      let bounds =
        subst
          (λ (k : ℕ).
            (decimal 0 front * 10 ^ k ≤ decimal (decimal 0 front) back)
            × (decimal (decimal 0 front) back < suc (decimal 0 front) * 10 ^ k))
          size (decimal-bounds (decimal 0 front) back back_digits) in
      let positive = pow-positive removed in
      let below : n * p < suc n * p = omega (arith, positive) in
      let same : decimal 0 front ≡ n = omega (
        arith,
        cancel (decimal 0 front) n p positive (omega (arith, bounds.0, whole, value, below)),
        cancel n (decimal 0 front) p positive (omega (arith, bounds.1, whole, value)),
      ) in
      let exact : decimal (decimal 0 front) back ≡ decimal 0 front * 10 ^ length back =
        sym whole
        ∙ sym value
        ∙ ap (λ (t : ℕ). t * p) (sym same)
        ∙ ap (λ (k : ℕ). decimal 0 front * 10 ^ k) (sym size) in
      let zeros = decimal-only_zeros (decimal 0 front) back back_digits exact in
      let parsed =
        parse_digits-reads maximum small 0 front front_digits (omega (arith, same, bound)) in
      ground (arith, short, zeros, parsed, same)
