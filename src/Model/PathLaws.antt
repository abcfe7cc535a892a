-- ===== src/Model/PathLaws.antt =====
-- Which paths the configuration refuses for their components: `reject_relative_components` of
-- src/model/validation.rs.
use aictx.Base.{
  ◌≡◌, ◌↔◌, refl, true, false, ◌||◌, List, [], ◌∷◌, ◌++◌, Text, codes, ◌==◌, contains, ok, arith,
  split_all, text_eq, nat_eq, ==_iff,
}
use aictx.Model.FilePath.{
  FilePath, Component, slash, is_absolute, component, later_components, first_components,
  components, any_relative,
}
use aictx.Model.Config.{reject_relative_components}

any_relative-append :
    (xs ys : List Component) → any_relative (xs ++ ys) ≡ (any_relative xs || any_relative ys)
unfolding any_relative
any_relative-append [] ys = refl
any_relative-append (x ∷ xs) ys = ground (arith, any_relative-append xs ys)

any_relative-component : (s : Text) → any_relative (component s) ≡ (s == codes "..")
unfolding any_relative
any_relative-component s = ground (arith, ==_iff s (codes ".."), ==_iff s (codes "."), ==_iff s [])

any_relative-later :
    (segments : List Text)
    → any_relative (later_components segments) ≡ contains segments (codes "..")
unfolding later_components any_relative
any_relative-later [] = refl
any_relative-later (s ∷ rest) = ground (
  arith,
  any_relative-append (component s) (later_components rest),
  any_relative-component s,
  any_relative-later rest,
)

-- An absolute path is refused exactly when one of its segments is `..`: a `.` is never refused.
pub reject_relative_components_iff :
    (path : FilePath)
    → is_absolute path ≡ true
    → (reject_relative_components path ≡ ok tt)
      ↔ (contains (split_all slash path) (codes "..") ≡ false)
unfolding reject_relative_components components first_components is_absolute any_relative split_all
reject_relative_components_iff [] absolute = cc
reject_relative_components_iff (c ∷ s) absolute =
    ground (arith, any_relative-later (split_all slash s), ==_iff [] (codes ".."))
