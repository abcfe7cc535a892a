-- ===== src/Base.antt =====
-- The names that the other modules share: the libraries', passed on, and those of the children.
mod Tests
mod Outcome
mod Bytes
mod Splitting
mod Chars
pub use Tests.*
pub use Outcome.*
pub use Bytes.*
pub use Prim.Native.Nat.{ℕ, zero, suc, ◌+◌, ◌-◌, ◌*◌, ◌/◌, ◌%◌, ◌^◌, ◌≤◌, ◌<◌, min}
pub use mathlib.Core.Path.{◌≡◌, refl, sym, ap, subst, ◌∙◌}
pub use mathlib.Core.Logic.{◌≢◌, ◌↔◌, ◌⊎◌, inl, inr}
pub use mathlib.Core.Bool.{Bool, true, false, not, ◌&&◌, ◌||◌}
pub use mathlib.Core.Option.{Option, none, some}
pub use mathlib.Core.List.{List, [], ◌∷◌, ◌++◌, map}
pub use native.Mathlib.Omega.{arith}
pub use Chars.{utf8_width, byte_length, starts_alphanumeric, is_control}
unfoldable pub use Chars.{has_control, strip_prefix, split_all}
pub use Splitting.{Free, split_once-Free, split_once-append, split_once-eq}
unfoldable pub use Splitting.{split_once}
unfoldable pub use Bytes.{Text-discrete}
unfoldable pub use native.Mathlib.Decide.{dec_lt, ℕ_discrete}
