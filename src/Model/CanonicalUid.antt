-- ===== src/Model/CanonicalUid.antt =====
-- The accepted UIDs are exactly the encodings of 128-bit numbers: src/model/profile_uid.rs.

use native.Mathlib.Omega.{pow_step}
use aictx.Base.{
  ℕ, zero, suc, ◌+◌, ◌*◌, ◌/◌, ◌%◌, ◌^◌, ◌<◌, ◌≡◌, ◌↔◌, refl, ap, sym, ◌∙◌, Bool, true, some, [],
  ◌∷◌, ◌++◌, Text, ◌==◌, length, all, ok, nat_eq, arith, length-append, ==_iff, and_true, inl, inr,
  Option-cases, subst, strip_prefix,
}
use aictx.Model.ProfileUid.{
  crockford, crockford_digit, encode_digits, is_leading, is_crockford, valid_digits, parse_uid,
}
use aictx.Model.Crockford.{
  place, crockford_digit-is_crockford, crockford_digit-is_leading, place-crockford_digit,
  place-leading,
}

encode_digits_step :
    (n v : ℕ) → encode_digits (suc n) v ≡ encode_digits n (v / 32) ++ crockford_digit (v % 32) ∷ []
unfolding encode_digits
encode_digits_step n v = refl

-- The first digit of a number stands before the digits of the rest.
encode_digits-front :
    (n d v : ℕ)
    → d < 32
    → v < 32 ^ n
    → encode_digits (suc n) (d * 32 ^ n + v) ≡ crockford_digit d ∷ encode_digits n v
unfolding encode_digits
encode_digits-front zero d v hd hv =
    let digit : (d * 1 + v) % 32 ≡ d = omega arith in ap (λ (x : ℕ). crockford_digit x ∷ []) digit
encode_digits-front (suc n) d v hd hv =
    let step : d * 32 ^ suc n ≡ 32 * (d * 32 ^ n) =
      omega (arith, ap (λ (t : ℕ). d * t) (pow_step 32 n)) in
    let bound : v < 32 * 32 ^ n = omega (arith, pow_step 32 n) in
    let high : (d * 32 ^ suc n + v) / 32 ≡ d * 32 ^ n + v / 32 = omega arith in
    let low : (d * 32 ^ suc n + v) % 32 ≡ v % 32 = omega arith in
    encode_digits_step (suc n) (d * 32 ^ suc n + v)
    ∙ ap (λ (x : ℕ). encode_digits (suc n) x ++ crockford_digit ((d * 32 ^ suc n + v) % 32) ∷ [])
        high
    ∙ ap (λ (x : ℕ). encode_digits (suc n) (d * 32 ^ n + v / 32) ++ crockford_digit x ∷ []) low
    ∙ ap (λ (t : Text). t ++ crockford_digit (v % 32) ∷ [])
        (encode_digits-front n d (v / 32) hd (omega arith))

length-encode_digits : (n v : ℕ) → length (encode_digits n v) ≡ n
unfolding encode_digits
length-encode_digits zero v = refl
length-encode_digits (suc n) v = omega (
  arith,
  length-append (encode_digits n (v / 32)) (crockford_digit (v % 32) ∷ []),
  length-encode_digits n (v / 32),
)

all-snoc :
    (p : ℕ → Bool) (xs : Text) (x : ℕ) → all p xs ≡ true → p x ≡ true → all p (xs ++ x ∷ []) ≡ true
all-snoc p [] x every last = ground arith
all-snoc p (y ∷ ys) x every last = ground (arith, all-snoc p ys x)

encode_digits-is_crockford : (n v : ℕ) → all is_crockford (encode_digits n v) ≡ true
unfolding encode_digits
encode_digits-is_crockford zero v = refl
encode_digits-is_crockford (suc n) v =
    all-snoc is_crockford (encode_digits n (v / 32)) (crockford_digit (v % 32))
      (encode_digits-is_crockford n (v / 32)) (crockford_digit-is_crockford (v % 32) (omega arith))

digit_bound : (d v p : ℕ) → d < 32 → v < p → d * p + v < 32 * p
digit_bound d v p hd hv = grind arith

-- A text of digits is the encoding of a number.
digits-encode_digits :
    (s : Text)
    → all is_crockford s ≡ true
    → (v : ℕ) × (v < 32 ^ length s) × (s ≡ encode_digits (length s) v)
unfolding encode_digits
digits-encode_digits [] every = (0, omega arith, refl)
digits-encode_digits (c ∷ s) every =
    let (first, rest) = and_true every in
    let (v, small, same) = digits-encode_digits s rest in
    let (digit, back) = place-crockford_digit c first in
    let d = place crockford c in
    (
      d * 32 ^ length s + v,
      omega (arith, digit_bound d v (32 ^ length s) digit small, pow_step 32 (length s)),
      ap (◌∷◌ c) same
          ∙ ap (λ (x : ℕ). x ∷ encode_digits (length s) v) (sym back)
          ∙ sym (encode_digits-front (length s) d v digit small),
    )

strip_prefix-append : (prefix rest : Text) → strip_prefix (prefix ++ rest) prefix ≡ some rest
unfolding strip_prefix
strip_prefix-append [] [] = refl
strip_prefix-append [] (c ∷ rest) = refl
strip_prefix-append (p ∷ prefix) rest = ground (arith, strip_prefix-append prefix rest)

pub strip_prefix-eq :
    (value prefix rest : Text) → strip_prefix value prefix ≡ some rest → value ≡ prefix ++ rest
unfolding strip_prefix
strip_prefix-eq [] [] rest h = ground arith
strip_prefix-eq (c ∷ value) [] rest h = ground arith
strip_prefix-eq [] (p ∷ prefix) rest h = cc
strip_prefix-eq (c ∷ value) (p ∷ prefix) rest h =
    ground (arith, ==_iff c p, strip_prefix-eq value prefix rest)

valid_digits-encode_digits :
    (s : Text) → valid_digits s ≡ true → (v : ℕ) × (v < 2 ^ 128) × (s ≡ encode_digits 26 v)
unfolding valid_digits
valid_digits-encode_digits [] valid = cc
valid_digits-encode_digits (c ∷ s) valid =
    let size : (length s == 25) ≡ true = ground arith in
    let leading : is_leading c ≡ true = ground arith in
    let every : all is_crockford s ≡ true = ground arith in
    let (v, small, same) = digits-encode_digits s every in
    let (digit, back) = place-leading c leading in
    let twenty_five = (==_iff (length s) 25).0 size in
    let d = place crockford c in
    let bound = subst (λ n. v < 32 ^ n) twenty_five small in
    (
      d * 32 ^ 25 + v,
      omega arith,
      ap (◌∷◌ c) (subst (λ n. s ≡ encode_digits n v) twenty_five same)
          ∙ ap (λ (x : ℕ). x ∷ encode_digits 25 v) (sym back)
          ∙ sym (encode_digits-front 25 d v (omega arith) bound),
    )

encode_digits-valid_digits : (v : ℕ) → v < 2 ^ 128 → valid_digits (encode_digits 26 v) ≡ true
unfolding valid_digits
encode_digits-valid_digits v bound =
    let d = v / 32 ^ 25 in
    let r = v % 32 ^ 25 in
    let whole : d * 32 ^ 25 + r ≡ v = omega arith in
    let front = encode_digits-front 25 d r (omega arith) (omega arith) in
    subst (λ t. valid_digits t ≡ true) (sym front ∙ ap (encode_digits 26) whole)
      (ground (
        arith,
        length-encode_digits 25 r,
        crockford_digit-is_leading d (omega arith),
        encode_digits-is_crockford 25 r,
      ))

-- A text is accepted as a UID exactly when it is the prefix with the Crockford encoding of a number
-- of 128 bits.
pub parse_uid_iff :
    (value prefix : Text)
    → (parse_uid value prefix ≡ ok value)
      ↔ ((v : ℕ) × (v < 2 ^ 128) × (value ≡ prefix ++ encode_digits 26 v))
unfolding parse_uid
parse_uid_iff value prefix = (accepted, encoded)
  where
    accepted :
        parse_uid value prefix ≡ ok value
        → (v : ℕ) × (v < 2 ^ 128) × (value ≡ prefix ++ encode_digits 26 v)
    accepted h = elim (Option-cases (strip_prefix value prefix)) [
      | inl missing ↦ absurd (ground arith)
      | inr (rest, found) ↦
          let (v, small, same) = valid_digits-encode_digits rest (ground arith) in
          (v, small, strip_prefix-eq value prefix rest found ∙ ap (◌++◌ prefix) same)
    ]

    encoded :
        (v : ℕ) × (v < 2 ^ 128) × (value ≡ prefix ++ encode_digits 26 v)
        → parse_uid value prefix ≡ ok value
    encoded (v, small, same) = rw same (
        ground (
          arith,
          strip_prefix-append prefix (encode_digits 26 v),
          encode_digits-valid_digits v small,
        ))
