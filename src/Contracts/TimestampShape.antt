-- ===== src/Contracts/TimestampShape.antt =====
-- The wire form of timestamps: `canonical_utc_shape` of src/automation/contracts/temporal.rs.
use aictx.Base.{
  ℕ, suc, ◌+◌, ◌-◌, ◌≡◌, refl, ap, ◌∙◌, true, false, [], ◌∷◌, ◌++◌, Text, codes, length, get_elem?,
  take, all, is_ascii_digit, ltb, ◌==◌, some, arith, text_eq, nat_eq, ℕ_discrete, length-append,
}
use aictx.Contracts.Temporal.{canonical_utc_shape, fraction_shape, byte_is, digits_in, last_is}

take-append : (xs ys : Text) → take (length xs) (xs ++ ys) ≡ xs
take-append [] ys = refl
take-append (x ∷ xs) ys = ap (λ t. x ∷ t) (take-append xs ys)

get_elem-last : (xs : Text) (b : ℕ) → get_elem? (xs ++ b ∷ []) (length xs) ≡ some b
get_elem-last [] b = refl
get_elem-last (x ∷ xs) b = get_elem-last xs b

-- The nineteen characters before a fraction: digits d, separators in their places.
abbrev head : (y0 y1 y2 y3 m0 m1 d0 d1 h0 h1 n0 n1 s0 s1 : ℕ) → Text → Text
head y0 y1 y2 y3 m0 m1 d0 d1 h0 h1 n0 n1 s0 s1 rest =
    y0 ∷ y1 ∷ y2 ∷ y3 ∷ b'-' ∷ m0 ∷ m1 ∷ b'-' ∷ d0 ∷ d1 ∷ b'T' ∷ h0 ∷ h1 ∷ b':' ∷ n0 ∷ n1 ∷ b':'
    ∷ s0 ∷ s1 ∷ rest

byte_is-some : (bytes : Text) (i b : ℕ) → get_elem? bytes i ≡ some b → byte_is bytes i b ≡ true
unfolding byte_is
byte_is-some bytes i b h = ground arith

last_is-append : (xs : Text) (b : ℕ) → last_is (xs ++ b ∷ []) b ≡ true
unfolding last_is
last_is-append xs b =
    let n : length (xs ++ b ∷ []) - 1 ≡ length xs = omega (arith, length-append xs (b ∷ [])) in
    rw n (byte_is-some (xs ++ b ∷ []) (length xs) b (get_elem-last xs b))

-- The year, the seconds and the two digits of every field.
pub record Fields (y0 y1 y2 y3 m0 m1 d0 d1 h0 h1 n0 n1 s0 s1 : ℕ) : Type 0 where
  pub year : all is_ascii_digit (y0 ∷ y1 ∷ y2 ∷ y3 ∷ []) ≡ true
  pub month : all is_ascii_digit (m0 ∷ m1 ∷ []) ≡ true
  pub day : all is_ascii_digit (d0 ∷ d1 ∷ []) ≡ true
  pub hour : all is_ascii_digit (h0 ∷ h1 ∷ []) ≡ true
  pub minute : all is_ascii_digit (n0 ∷ n1 ∷ []) ≡ true
  pub second : all is_ascii_digit (s0 ∷ s1 ∷ []) ≡ true
  pub not_zero : (y0 ∷ y1 ∷ y2 ∷ y3 ∷ [] == codes "0000") ≡ false
  pub no_leap : (s0 == b'6') ≡ false

frac_length : (frac : Text) → length (frac ++ b'Z' ∷ []) ≡ length frac + 1
frac_length frac = length-append frac (b'Z' ∷ []) ∙ refl

abbrev after_19 : ℕ → ℕ
after_19 n = suc (
    suc (
      suc (
        suc (
          suc (
            suc (suc (suc (suc (suc (suc (suc (suc (suc (suc (suc (suc (suc (suc n))))))))))))))))))

long_enough : (m n : ℕ) → m ≡ n + 1 → ltb (after_19 m) 20 ≡ false
long_enough m n h = ground arith

frac_size : (m n : ℕ) → m ≡ n + 1 → after_19 m - 1 - 19 ≡ n
frac_size m n h = omega arith

pub canonical_shape :
    (y0 y1 y2 y3 m0 m1 d0 d1 h0 h1 n0 n1 s0 s1 : ℕ) (frac : Text)
    → Fields y0 y1 y2 y3 m0 m1 d0 d1 h0 h1 n0 n1 s0 s1
    → fraction_shape frac ≡ true
    → canonical_utc_shape (head y0 y1 y2 y3 m0 m1 d0 d1 h0 h1 n0 n1 s0 s1 frac ++ b'Z' ∷ []) ≡ true
unfolding canonical_utc_shape digits_in byte_is ℕ_discrete
canonical_shape y0 y1 y2 y3 m0 m1 d0 d1 h0 h1 n0 n1 s0 s1 frac f shape =
    let l = last_is-append (head y0 y1 y2 y3 m0 m1 d0 d1 h0 h1 n0 n1 s0 s1 frac) b'Z' in
    rw
      (
        f.year,
        f.month,
        f.day,
        f.hour,
        f.minute,
        f.second,
        f.not_zero,
        f.no_leap,
        l,
        long_enough _ _ (frac_length frac),
        frac_size _ _ (frac_length frac),
        take-append frac (b'Z' ∷ []),
      )
      shape
