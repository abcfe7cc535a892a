-- ===== src/Shell/Mask.antt =====
-- What an identity looks like on the screen: `mask_identity` of src/shell.rs.
use mathlib.Core.List.{reverse}
use aictx.Base.{
  ℕ, none, some, [], ◌∷◌, ◌++◌, Text, codes, length, take, leb, split_once, if◌then◌else◌, nat_eq,
}

abbrev first_or : Text → ℕ → ℕ
first_or [] default = default
first_or (c ∷ s) default = c

unfoldable pub mask_address : Text × Text → Text
mask_address (local, domain) = first_or local b'*' ∷ codes "***@" ++ domain

-- The last four characters.
unfoldable pub suffix : Text → Text
suffix value = reverse (take 4 (reverse value))

unfoldable pub mask_identity : Text → Text
unfolding split_once mask_address suffix
mask_identity value = elim (split_once b'@' value) [
  | some parts ↦ mask_address parts
  | none ↦ if leb (length value) 4 then codes "****" else codes "***" ++ suffix value
]
