-- ===== src/Base/Splitting.antt =====
-- `str::split_once` at a character.
use Prim.Native.Nat.{ℕ}
use mathlib.Core.Path.{◌≡◌, refl, ap}
use mathlib.Core.Logic.{◌≢◌, inl, inr}
use mathlib.Core.Option.{Option, none, some}
use mathlib.Core.Option
use mathlib.Core.List.{[], ◌∷◌, ◌++◌}
use native.Mathlib.Omega.{arith}
use aictx.Base.Tests.{◌==◌, nat_eq, if◌then◌else◌, Bool-cases, Option-cases, ==_iff}
use aictx.Base.Bytes.{Text}

unfoldable pub split_once : ℕ → Text → Option (Text × Text)
split_once mark [] = none
split_once mark (c ∷ s) =
    let rest = Option.map (λ (p : Text × Text). (c ∷ p.0, p.1)) (split_once mark s) in
    if c == mark then some ([], s) else rest

-- The text holds no such character.
abbrev pub Free : ℕ → Text → Type 0
Free mark [] = Unit {0}
Free mark (c ∷ s) = (c ≢ mark) × Free mark s

pub split_once-Free : (mark : ℕ) (s : Text) → Free mark s → split_once mark s ≡ none
unfolding split_once
split_once-Free mark [] free = refl
split_once-Free mark (c ∷ s) free = ground (arith, split_once-Free mark s free.1)

pub split_once-append :
    (mark : ℕ) (s rest : Text) → Free mark s → split_once mark (s ++ mark ∷ rest) ≡ some (s, rest)
unfolding split_once
split_once-append mark [] rest free = ground arith
split_once-append mark (c ∷ s) rest free = ground (arith, split_once-append mark s rest free.1)

-- The text is the two parts with the first such character between them.
pub split_once-eq :
    (mark : ℕ) (value : Text) {left right : Text}
    → split_once mark value ≡ some (left, right)
    → (value ≡ left ++ mark ∷ right) × Free mark left
unfolding split_once
split_once-eq mark [] h = cc
split_once-eq mark (c ∷ s) {left} {right} h = elim (Bool-cases (c == mark)) [
  | inl same ↦
      let l : left ≡ [] = ground arith in
      let r : right ≡ s = ground arith in
      rw (l, r) (ap (λ (m : ℕ). m ∷ s) ((==_iff c mark).0 same), tt)
  | inr differs ↦ elim (Option-cases (split_once mark s)) [
    | inl missing ↦ absurd (ground arith)
    | inr ((l, r), found) ↦
        let (parts, free) = split_once-eq mark s found in
        let longer : left ≡ c ∷ l = ground arith in
        let same : right ≡ r = ground arith in
        let other : c ≢ mark = ground arith in rw (longer, same) (ap (◌∷◌ c) parts, (other, free))
  ]
]
