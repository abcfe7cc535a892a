-- ===== src/Model/FilePath.antt =====
-- What the model uses of `std::path::Path` on Unix. A path is its list of characters, where each
-- maximal sequence of bytes that is not UTF-8 stands as a number from 0x110000 on: `to_str` is
-- `Some` exactly if there is none, and `to_string_lossy` replaces each by U+FFFD, which is no
-- separator, dot or control character either.
use aictx.Base.{
  ℕ, Bool, true, false, Option, none, some, List, [], ◌∷◌, ◌++◌, Text, ◌==◌, ◌||◌, if◌then◌else◌,
  nat_eq, text_eq, codes, split_all, all, ltb, Eq, ℕ_discrete,
}

abbrev pub FilePath : Type 0
FilePath = Text

-- `path.to_str().is_some()`.
unfoldable pub is_utf8 : FilePath → Bool
is_utf8 path = all (λ c. ltb c 0x110000) path

pub data Component : Type 0 where
  root_dir cur_dir parent_dir : Component
  normal : Text → Component

unfoldable pub Components-discrete : Discrete (List Component)
Components-discrete = hlevel ℕ_discrete

-- Paths are compared by their components.
instance abbrev pub components_eq : Eq (List Component)
components_eq = record { dec = Components-discrete }

abbrev pub slash : ℕ
slash = b'/'

-- A path that starts with the separator.
unfoldable pub is_absolute : FilePath → Bool
is_absolute [] = false
is_absolute (c ∷ s) = c == slash

-- A segment behind the first one: an empty segment and a `.` are dropped.
abbrev pub component : Text → List Component
component segment =
    if segment == [] || segment == codes "."
    then []
    else if segment == codes ".."
    then Component.parent_dir ∷ []
    else Component.normal segment ∷ []

unfoldable pub later_components : List Text → List Component
later_components [] = []
later_components (segment ∷ rest) = component segment ++ later_components rest

-- The first segment: a path that starts with the separator starts at the root, and a leading `.`
-- is kept.
unfoldable pub first_components : Text → List Text → List Component
first_components text [] = []
first_components text (segment ∷ rest) =
    if segment == []
    then (if text == [] then [] else Component.root_dir ∷ later_components rest)
    else if segment == codes "."
    then Component.cur_dir ∷ later_components rest
    else component segment ++ later_components rest

-- `Path::components`.
unfoldable pub components : FilePath → List Component
unfolding later_components first_components
components path = first_components path (split_all slash path)

-- `Path::file_name` of the components.
unfoldable pub last_normal : List Component → Option Text
last_normal [] = none
last_normal (Component.normal name ∷ []) = some name
last_normal (c ∷ []) = none
last_normal (c ∷ rest) = last_normal rest

-- `path.file_name().and_then(OsStr::to_str)`.
unfoldable pub file_name : FilePath → Option Text
unfolding components last_normal is_utf8
file_name path = elim (last_normal (components path)) [
  | none ↦ none
  | some name ↦ if is_utf8 name then some name else none
]

-- A component `.` or `..`.
abbrev pub is_relative : Component → Bool
is_relative Component.cur_dir = true
is_relative Component.parent_dir = true
is_relative _ = false

unfoldable pub any_relative : List Component → Bool
any_relative [] = false
any_relative (c ∷ rest) = is_relative c || any_relative rest
