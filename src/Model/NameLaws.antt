-- ===== src/Model/NameLaws.antt =====
-- Profile IDs and their texts: `ProfileId` of src/model.rs.
use aictx.Base.{
  split_once, Free, split_once-append, split_once-eq, ◌≡◌, ◌↔◌, refl, true, false, some, [], ◌∷◌,
  Text, codes, all, contains, ok, arith, nat_eq, text_eq, ==_iff, Option-cases, Result-cases, inl,
  inr,
}
use aictx.Contracts.Types.{Provider}
use aictx.Policy.Digest.{provider_label}
use aictx.Resolver.Context.{ProfileId}
use aictx.Model.Name.{
  is_name_character, valid_name, parse_name, colon, display_profile_id, provider_of_label,
  parse_profile_id,
}

pub name_characters-Free : (s : Text) → all is_name_character s ≡ true → contains s colon ≡ false
name_characters-Free [] h = refl
name_characters-Free (c ∷ s) h = ground (arith, name_characters-Free s)

provider_of_label_iff :
    (label : Text) (provider : Provider)
    → (provider_of_label label ≡ some provider) ↔ (label ≡ provider_label provider)
unfolding provider_of_label provider_label
provider_of_label_iff label Provider.claude =
    ground (arith, ==_iff label (codes "claude"), ==_iff label (codes "codex"))
provider_of_label_iff label Provider.codex =
    ground (arith, ==_iff label (codes "claude"), ==_iff label (codes "codex"))

pub provider_label-Free : (provider : Provider) → Free colon (provider_label provider)
unfolding provider_label
provider_label-Free Provider.claude = omega arith
provider_label-Free Provider.codex = omega arith

parse_name_iff :
    (value name : Text)
    → (parse_name value ≡ ok name) ↔ ((valid_name value ≡ true) × (value ≡ name))
unfolding parse_name
parse_name_iff value name = ground arith

valid_name-Free : (name : Text) → valid_name name ≡ true → contains name colon ≡ false
unfolding valid_name
valid_name-Free name valid = ground (arith, name_characters-Free name)

-- What a text that is read as a profile ID is made of.
parse_profile_id_parts :
    (value : Text) (id : ProfileId)
    → parse_profile_id value ≡ ok id
    → (split_once colon value ≡ some (provider_label id.provider, id.name))
      × (valid_name id.name ≡ true)
unfolding parse_profile_id
parse_profile_id_parts value id h = elim (Option-cases (split_once colon value)) [
  | inl missing ↦ absurd (ground arith)
  | inr ((label, rest), found) ↦ elim (Option-cases (provider_of_label label)) [
    | inl unknown ↦ absurd (ground arith)
    | inr (provider, known) ↦ ground (
      arith,
      provider_of_label_iff label provider,
      parse_name_iff rest id.name,
      Result-cases (parse_name rest),
    )
  ]
]

-- A text is read as a profile ID exactly when that ID's name is valid and the text is how the ID is
-- displayed: the provider, a colon and the name.
pub parse_profile_id_iff :
    (value : Text) (id : ProfileId)
    → (parse_profile_id value ≡ ok id)
      ↔ ((valid_name id.name ≡ true) × (value ≡ display_profile_id id))
unfolding parse_profile_id display_profile_id
parse_profile_id_iff value id = (parsed, displayed)
  where
    parsed :
        parse_profile_id value ≡ ok id
        → (valid_name id.name ≡ true) × (value ≡ display_profile_id id)
    parsed h =
        let (found, valid) = parse_profile_id_parts value id h in
        (valid, (split_once-eq colon value found).0)

    displayed :
        (valid_name id.name ≡ true) × (value ≡ display_profile_id id)
        → parse_profile_id value ≡ ok id
    displayed (valid, text) = rw text (
        ground (
          arith,
          split_once-append colon (provider_label id.provider) id.name
              (provider_label-Free id.provider),
          valid_name-Free id.name,
          provider_of_label_iff (provider_label id.provider) id.provider,
          parse_name_iff id.name id.name,
        ))
