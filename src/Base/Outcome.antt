-- ===== src/Base/Outcome.antt =====
-- Rust's `Result`, with `?` as the bind of a `do` block.
use mathlib.Core.Path.{◌≡◌, refl}
use mathlib.Core.Logic.{◌⊎◌, inl, inr}
use mathlib.Core.Bool.{Bool, true, false}
use mathlib.Core.Option.{Option, none, some}

pub data Result (E : Type 0) (A : Type 0) : Type 0 where
  ok : A → Result E A
  err : E → Result E A

-- To split on a computed result and keep the equation.
pub Result-cases :
    {E A : Type 0} (r : Result E A) → ((x : A) × (r ≡ ok x)) ⊎ ((e : E) × (r ≡ err e))
Result-cases (err e) = inr (e, refl)
Result-cases (ok x) = inl (x, refl)

-- `if bad { return Err(e) }`.
abbrev pub refuse_if : {E : Type 0} → Bool → E → Result E (Unit {0})
refuse_if false e = ok tt
refuse_if true e = err e

pub refuse_if-eq-ok : {E : Type 0} (bad : Bool) (e : E) → refuse_if bad e ≡ ok tt → bad ≡ false
refuse_if-eq-ok false e passed = refl
refuse_if-eq-ok true e passed = cc

-- `option.ok_or(e)`.
abbrev pub ok_or : {E A : Type 0} → Option A → E → Result E A
ok_or (some x) e = ok x
ok_or none e = err e

-- `result.map_err(|_| e)`.
abbrev pub map_err : {E F A : Type 0} → Result E A → F → Result F A
map_err (err _) f = err f
map_err (ok x) f = ok x

module _ {E : Type 0} where
  infixl 5 ◌>>=◌ ◌>>◌
  abbrev pub ◌>>=◌ : {A B : Type 0} → Result E A → (A → Result E B) → Result E B
  err e >>= next = err e
  ok x >>= next = next x

  abbrev pub ◌>>◌ : {B : Type 0} → Result E (Unit {0}) → Result E B → Result E B
  first >> second = first >>= λ done. second

  -- The two steps of a chain that succeeded.
  pub >>=-eq-ok :
      {A B : Type 0} (r : Result E A) (next : A → Result E B) {y : B}
      → (r >>= next) ≡ ok y
      → (x : A) × (r ≡ ok x) × (next x ≡ ok y)
  >>=-eq-ok (err e) next passed = cc
  >>=-eq-ok (ok x) next passed = (x, refl, passed)
