-- ===== src/Model/Crockford.antt =====
-- The alphabet of Crockford's encoding: `CROCKFORD` of src/model/profile_uid.rs.
use aictx.Base.{
  ℕ, zero, suc, ◌<◌, ◌≡◌, refl, Bool, true, false, ◌&&◌, [], ◌∷◌, Text, ◌==◌, leb, nat_eq, arith,
  ℕ_discrete, ==_iff, List, all, Bool-cases, and_true, inl, inr, subst, sym, if◌then◌else◌,
}
use aictx.Model.ProfileUid.{crockford, crockford_digit, is_leading, is_crockford}

-- The numbers below a bound: a test that holds on the list holds of each of them.
below : ℕ → List ℕ
below zero = []
below (suc top) = top ∷ below top

all-below :
    (test : ℕ → Bool) (bound : ℕ) {v : ℕ}
    → v < bound
    → all test (below bound) ≡ true
    → test v ≡ true
unfolding below
all-below test zero small every = absurd (omega arith)
all-below test (suc top) {v} small every = elim (Bool-cases (v == top)) [
  | inl last ↦ subst (λ x. test x ≡ true) (sym ((==_iff v top).0 last)) (and_true every).0
  | inr before ↦ all-below test top (ground (arith, ==_iff v top)) (and_true every).1
]

-- The place of a digit in the alphabet.
pub place : Text → ℕ → ℕ
place [] c = 0
place (d ∷ ds) c = let rest = suc (place ds c) in if d == c then 0 else rest

digit_test : ℕ → Bool
digit_test v = is_crockford (crockford_digit v)

digit_table : all digit_test (below 32) ≡ true
unfolding below digit_test crockford_digit ℕ_discrete
digit_table = refl

lead_table : all (λ v. is_leading (crockford_digit v)) (below 8) ≡ true
unfolding below crockford_digit ℕ_discrete
lead_table = refl

abbrev not_or : Bool → Bool → Bool
not_or true b = b
not_or false b = true

-- A character of the class stands at its place in the alphabet, which is not above the limit.
back_test : (ℕ → Bool) → ℕ → ℕ → Bool
back_test class limit c =
    not_or (class c) (leb (place crockford c) limit && crockford_digit (place crockford c) == c)

place_table : all (back_test is_crockford 31) (below 128) ≡ true
unfolding below back_test place crockford_digit ℕ_discrete
place_table = refl

leading_table : all (back_test is_leading 7) (below 128) ≡ true
unfolding below back_test place crockford_digit ℕ_discrete
leading_table = refl

pub crockford_digit-is_crockford : (v : ℕ) → v < 32 → is_crockford (crockford_digit v) ≡ true
unfolding digit_test
crockford_digit-is_crockford v h = all-below digit_test 32 h digit_table

pub crockford_digit-is_leading : (v : ℕ) → v < 8 → is_leading (crockford_digit v) ≡ true
crockford_digit-is_leading v h = all-below (λ v. is_leading (crockford_digit v)) 8 h lead_table

pub place-crockford_digit :
    (c : ℕ)
    → is_crockford c ≡ true
    → (place crockford c < 32) × (crockford_digit (place crockford c) ≡ c)
unfolding back_test
place-crockford_digit c h =
    let small : c < 128 = ground arith in
    let row = all-below (back_test is_crockford 31) 128 small place_table in
    ground (arith, row, ==_iff (crockford_digit (place crockford c)) c)

pub place-leading :
    (c : ℕ)
    → is_leading c ≡ true
    → (place crockford c < 8) × (crockford_digit (place crockford c) ≡ c)
unfolding back_test
place-leading c h =
    let small : c < 128 = ground arith in
    let row = all-below (back_test is_leading 7) 128 small leading_table in
    ground (arith, row, ==_iff (crockford_digit (place crockford c)) c)
