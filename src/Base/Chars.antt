-- ===== src/Base/Chars.antt =====
-- Texts as lists of characters (Unicode scalar values): what the source asks of a `&str`.
use Prim.Native.Nat.{ℕ, ◌+◌}
use mathlib.Core.Bool.{Bool, false, ◌&&◌, ◌||◌}
use mathlib.Core.Option.{Option, none, some}
use mathlib.Core.List.{List, [], ◌∷◌}
use aictx.Base.Tests.{leb, ltb, ◌==◌, nat_eq, if◌then◌else◌}
use aictx.Base.Bytes.{Text, is_ascii_alphanumeric}

-- The bytes of a character in UTF-8, and `str::len`.
abbrev pub utf8_width : ℕ → ℕ
utf8_width c = if ltb c 0x80 then 1 else if ltb c 0x800 then 2 else if ltb c 0x10000 then 3 else 4

abbrev pub byte_length : Text → ℕ
byte_length [] = 0
byte_length (c ∷ s) = utf8_width c + byte_length s

-- `value.as_bytes().first().is_some_and(u8::is_ascii_alphanumeric)`: a character beyond ASCII
-- starts with no such byte, and has no byte that is one.
abbrev pub starts_alphanumeric : Text → Bool
starts_alphanumeric [] = false
starts_alphanumeric (c ∷ s) = is_ascii_alphanumeric c

-- `char::is_control`, the category Cc.
abbrev pub is_control : ℕ → Bool
is_control c = leb c 0x1f || leb 0x7f c && leb c 0x9f

unfoldable pub has_control : Text → Bool
has_control [] = false
has_control (c ∷ s) = is_control c || has_control s

-- `str::strip_prefix`.
unfoldable pub strip_prefix : Text → Text → Option Text
strip_prefix value [] = some value
strip_prefix [] (p ∷ prefix) = none
strip_prefix (c ∷ value) (p ∷ prefix) =
    let rest = strip_prefix value prefix in if c == p then rest else none

-- `str::split` at a character: the segments, empty ones too.
abbrev push_first : ℕ → List Text → List Text
push_first c [] = (c ∷ []) ∷ []
push_first c (segment ∷ rest) = (c ∷ segment) ∷ rest

unfoldable pub split_all : ℕ → Text → List Text
split_all mark [] = [] ∷ []
split_all mark (c ∷ s) =
    let rest = split_all mark s in if c == mark then [] ∷ rest else push_first c rest
