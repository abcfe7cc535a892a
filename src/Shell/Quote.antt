-- ===== src/Shell/Quote.antt =====
-- Quoting for the four shells: `quote_posix`, `quote_fish` and `quote_powershell` of src/shell.rs.
use mathlib.Core.List.{flat_map, append_assoc}
use aictx.Base.{ℕ, ◌≡◌, refl, [], ◌∷◌, ◌++◌, Text, codes, ◌==◌, if◌then◌else◌, nat_eq}

-- `Shell` of src/cli.rs.
pub data Shell : Type 0 where
  bash zsh fish powershell : Shell

abbrev pub apostrophe : ℕ
apostrophe = b'\''

abbrev pub backslash : ℕ
backslash = b'\\'

-- One character under `str::replace(from, to)`.
abbrev pub replaced : ℕ → Text → ℕ → Text
replaced from to c = if c == from then to else c ∷ []

unfoldable pub replace : ℕ → Text → Text → Text
replace from to value = flat_map (replaced from to) value

abbrev pub in_quotes : Text → Text
in_quotes value = apostrophe ∷ value ++ apostrophe ∷ []

unfoldable pub quote_posix : Text → Text
unfolding replace
quote_posix value = in_quotes (replace apostrophe (codes "'\\''") value)

unfoldable pub quote_fish : Text → Text
unfolding replace
quote_fish value =
    in_quotes (replace apostrophe (codes "\\'") (replace backslash (codes "\\\\") value))

unfoldable pub quote_powershell : Text → Text
unfolding replace
quote_powershell value = in_quotes (replace apostrophe (codes "''") value)

pub replace-append :
    (from : ℕ) (to xs ys : Text)
    → replace from to (xs ++ ys) ≡ replace from to xs ++ replace from to ys
unfolding replace flat_map
replace-append from to [] ys = refl
replace-append from to (x ∷ xs) ys = simp (replace-append from to xs ys, append_assoc)

pub replace_cons :
    (from : ℕ) (to : Text) (c : ℕ) (s : Text)
    → replace from to (c ∷ s) ≡ replaced from to c ++ replace from to s
unfolding replace flat_map
replace_cons from to c s = refl
