-- ===== src/Contracts/IntegerWritten.antt =====
-- How a JSON number is written: what `parse_unsigned_integral` of src/automation/contracts/integer.rs
-- takes apart.
use mathlib.Core.List.{append-nil, append_assoc}
use aictx.Base.{
  ℕ, ◌<◌, ◌^◌, ◌≡◌, refl, sym, ap, ◌∙◌, ◌⊎◌, inl, inr, Bool, true, false, not, none, some, [], ◌∷◌,
  ◌++◌, Text, codes, all, starts_with, arith, nat_eq, Free, split_once-Free, split_once-append,
  and_true,
}
use aictx.Contracts.Integer.{
  is_empty, is_exponent_mark, decimal, Numeral, numeral, split_exponent, magnitude, parse_i128,
  read_numeral,
}
use aictx.Contracts.IntegerReads.{AllDigits}

-- A point and the fraction behind it, or nothing.
abbrev pub Pointed : Text → Text → Type 0
Pointed fraction text = (text ≡ b'.' ∷ fraction) ⊎ ((text ≡ []) × (fraction ≡ []))

-- A sign, which is a minus sign exactly for a negative exponent.
pub data Sign : Bool → Text → Type 0 where
  bare : Sign false []
  plus : Sign false (b'+' ∷ [])
  minus : Sign true (b'-' ∷ [])

-- Nothing for the exponent zero, or a mark, a sign and the digits of a magnitude below 2 ^ 127.
pub data Exponent : Bool × ℕ → Text → Type 0 where
  absent : Exponent (false, 0) []
  marked :
      {negative : Bool} {sign : Text} (mark d : ℕ) (ds : Text)
      → (mark ≡ b'e') ⊎ (mark ≡ b'E')
      → Sign negative sign
      → AllDigits (d ∷ ds)
      → decimal 0 (d ∷ ds) < 2 ^ 127
      → Exponent (negative, decimal 0 (d ∷ ds)) (mark ∷ (sign ++ d ∷ ds))

-- The text is a whole part of at least one digit, a fraction and an exponent: those of the numeral.
pub record Written (value : Text) (p : Numeral) : Type 0 where
  pub point : Text
  pub exponent : Text
  pub spelled : value ≡ (p.whole ++ point) ++ exponent
  pub present : is_empty p.whole ≡ false
  pub whole_digits : AllDigits p.whole
  pub fraction_digits : AllDigits p.fraction
  pub pointed : Pointed p.fraction point
  pub scaled : Exponent p.exponent exponent

-- No character of the text starts an exponent.
abbrev Unmarked : Text → Type 0
Unmarked s = all (λ c. not (is_exponent_mark c)) s ≡ true

digits-Unmarked : (ds : Text) → AllDigits ds → Unmarked ds
digits-Unmarked [] h = refl
digits-Unmarked (d ∷ ds) h = ground (arith, digits-Unmarked ds)

Unmarked-append : (a b : Text) → Unmarked a → Unmarked b → Unmarked (a ++ b)
Unmarked-append [] b h k = k
Unmarked-append (c ∷ a) b h k = ground (arith, Unmarked-append a b)

digits-Free : (ds : Text) → AllDigits ds → Free b'.' ds
digits-Free [] h = tt
digits-Free (d ∷ ds) h =
    let (first, rest) = and_true h in ((λ e. ground arith), digits-Free ds rest)

split_exponent-bare : (a : Text) → Unmarked a → split_exponent a ≡ (a, none)
unfolding split_exponent
split_exponent-bare [] h = refl
split_exponent-bare (c ∷ a) h = ground (arith, split_exponent-bare a)

split_exponent-marked :
    (a : Text) (mark : ℕ) (s : Text)
    → Unmarked a
    → is_exponent_mark mark ≡ true
    → split_exponent (a ++ mark ∷ s) ≡ (a, some s)
unfolding split_exponent
split_exponent-marked [] mark s h m = ground arith
split_exponent-marked (c ∷ a) mark s h m = ground (arith, split_exponent-marked a mark s)

parse_i128-signed :
    (negative : Bool) (sign : Text) (d : ℕ) (ds : Text)
    → Sign negative sign
    → AllDigits (d ∷ ds)
    → decimal 0 (d ∷ ds) < 2 ^ 127
    → parse_i128 (sign ++ d ∷ ds) ≡ some (negative, decimal 0 (d ∷ ds))
unfolding parse_i128 magnitude
parse_i128-signed _ _ d ds bare digits small = ground arith
parse_i128-signed _ _ d ds plus digits small = ground arith
parse_i128-signed _ _ d ds minus digits small = ground arith

numeral-Pointed :
    (p : Numeral) (point : Text)
    → is_empty p.whole ≡ false
    → AllDigits p.whole
    → AllDigits p.fraction
    → Pointed p.fraction point
    → numeral (p.whole ++ point) p.exponent ≡ some p
unfolding numeral
numeral-Pointed p point present front back (inl spelled) =
    let split = split_once-append b'.' p.whole p.fraction (digits-Free p.whole front) in
    rw spelled (ground (arith, split))
numeral-Pointed p point present front back (inr (nothing, no_fraction)) =
    let split = split_once-Free b'.' p.whole (digits-Free p.whole front) in
    let bare_text : p.whole ++ point ≡ p.whole =
      ap (λ (s : Text). p.whole ++ s) nothing ∙ append-nil p.whole in
    rw bare_text (ground (arith, split, no_fraction))

point-Unmarked :
    (fraction point : Text) → AllDigits fraction → Pointed fraction point → Unmarked point
point-Unmarked fraction point digits (inl spelled) =
    rw spelled (ground (arith, digits-Unmarked fraction digits))
point-Unmarked fraction point digits (inr (nothing, no_fraction)) = rw nothing refl

no_minus :
    (whole rest : Text)
    → is_empty whole ≡ false
    → AllDigits whole
    → starts_with (whole ++ rest) (codes "-") ≡ false
no_minus [] rest present digits = absurd (ground arith)
no_minus (d ∷ ds) rest present digits = ground arith

-- What the exponent's text gives.
exponent-split :
    (a : Text) (e : Bool × ℕ) (text : Text)
    → Unmarked a
    → Exponent e text
    → ((split_exponent (a ++ text) ≡ (a, none)) × (e ≡ (false, 0)))
      ⊎ ((s : Text) × (split_exponent (a ++ text) ≡ (a, some s)) × (parse_i128 s ≡ some e))
exponent-split a _ _ plain absent =
    inl (ap split_exponent (append-nil a) ∙ split_exponent-bare a plain, refl)
exponent-split a _ _ plain (marked {negative} {sign} mark d ds is_mark signed digits small) = inr (
  sign ++ d ∷ ds,
  split_exponent-marked a mark (sign ++ d ∷ ds) plain (ground arith),
  parse_i128-signed negative sign d ds signed digits small,
)

-- A number that is written so is taken apart into these parts.
pub read_numeral-Written :
    (value : Text) (p : Numeral) → Written value p → read_numeral value ≡ some p
unfolding read_numeral
read_numeral-Written value p w =
    let a = p.whole ++ w.point in
    let plain =
      Unmarked-append p.whole w.point (digits-Unmarked p.whole w.whole_digits)
        (point-Unmarked p.fraction w.point w.fraction_digits w.pointed) in
    let parts = numeral-Pointed p w.point w.present w.whole_digits w.fraction_digits w.pointed in
    let signless : starts_with (a ++ w.exponent) (codes "-") ≡ false =
      ap (λ (t : Text). starts_with t (codes "-")) (append_assoc p.whole w.point w.exponent)
      ∙ no_minus p.whole (w.point ++ w.exponent) w.present w.whole_digits in
    rw w.spelled (elim (exponent-split a p.exponent w.exponent plain w.scaled) [
      | inl (split, zero_exponent) ↦
          let whole : numeral a (false, 0) ≡ some p = ap (numeral a) (sym zero_exponent) ∙ parts in
          ground (arith, split, signless, whole)
      | inr (s, split, parsed) ↦ ground (arith, split, signless, parsed, parts)
    ])
