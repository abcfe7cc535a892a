-- ===== src/Model/SoundConfig.antt =====
-- A configuration that validates, as a whole: `Config::validate` of src/model/validation.rs.
use aictx.Base.{
  ◌≡◌, ◌≢◌, true, false, Option, none, some, List, [], ◌∷◌, map, Text, ok, arith, text_eq, nat_eq,
  ==_iff, >>=-eq-ok, ◌⊎◌,
}
use aictx.Contracts.Types.{Provider, provider_eq}
use aictx.Resolver.Context.{ProfileId, Context}
use aictx.Model.FilePath.{Component, components_eq, components}
use aictx.Model.Automation.{Validation, validate_each}
use aictx.Model.Wif.{Encoder, validate_optional}
use aictx.Model.Config.{
  PathBinding, Config, config_schema_version, folded_name_eq, validate_entries, has_profile,
  has_context, validate_slot, validate_context_entry, context_exists, validate_bindings,
  validate_config, nothing_seen,
}
use aictx.Model.ConfigLaws.{
  All, Distinct, SoundEntry, Fresh, Fresh_cons, name_of, uid_of, folded_dir,
  validate_entries-SoundRest,
}

-- A slot of a context names an existing profile of its provider, if any.
abbrev pub SoundSlot : Config → Provider → Option ProfileId → Type 0
SoundSlot c provider none = Unit {0}
SoundSlot c provider (some id) = (id.provider ≡ provider) × (has_profile c id ≡ true)

abbrev pub SoundContext : Config → Text × Context → Type 0
SoundContext c (name, context) =
    SoundSlot c Provider.claude context.claude
    × SoundSlot c Provider.codex context.codex
    × ((context.claude ≢ none) ⊎ (context.codex ≢ none))

abbrev pub SoundDefault : Config → Option Text → Type 0
SoundDefault c none = Unit {0}
SoundDefault c (some name) = has_context c name ≡ true

abbrev pub path_of : PathBinding → List Component
path_of binding = components binding.path

-- What `Config::validate` establishes.
pub record SoundConfig (sha256 : Text → Text) (encode : Encoder) (c : Config) : Type 0 where
  pub version : c.version ≡ config_schema_version
  pub silent : c.settings.telemetry ≡ false
  pub entries : All (SoundEntry sha256 encode c) c.profiles
  pub names : Distinct (map name_of c.profiles)
  pub uids : Distinct (map uid_of c.profiles)
  pub state_dirs : Distinct (map folded_dir c.profiles)
  pub contexts : All (SoundContext c) c.contexts
  pub default : SoundDefault c c.default_context
  pub paths : Distinct (map path_of c.bindings)
  pub bound : All (λ (b : PathBinding). has_context c b.context ≡ true) c.bindings

pub validate_each-All {ℓ κ} :
    {A : Type ℓ} (P : A → Type κ) (validate : A → Validation) (xs : List A)
    → ((x : A) → validate x ≡ ok tt → P x)
    → validate_each validate xs ≡ ok tt
    → All P xs
unfolding validate_each
validate_each-All P validate [] holds h = tt
validate_each-All P validate (x ∷ xs) holds h =
    let (u, first, rest) = >>=-eq-ok (validate x) _ h in
    (holds x first, validate_each-All P validate xs holds rest)

module _ (c : Config) where
  validate_slot-SoundSlot :
      (provider : Provider) (slot : Option ProfileId)
      → validate_optional (validate_slot c provider) slot ≡ ok tt
      → SoundSlot c provider slot
  unfolding validate_slot
  validate_slot-SoundSlot provider none h = tt
  validate_slot-SoundSlot provider (some id) h = ground (arith, ==_iff id.provider provider)

  validate_context_entry-SoundContext :
      (entry : Text × Context) → validate_context_entry c entry ≡ ok tt → SoundContext c entry
  unfolding validate_context_entry
  validate_context_entry-SoundContext (name, context) h =
      let slots = λ (provider : Provider). validate_optional (validate_slot c provider) in
      let first : slots Provider.claude context.claude ≡ ok tt = ground arith in
      let second : slots Provider.codex context.codex ≡ ok tt = ground arith in
      (
        validate_slot-SoundSlot Provider.claude context.claude first,
        validate_slot-SoundSlot Provider.codex context.codex second,
        ground arith,
      )

  validate_default :
      (name : Option Text) → validate_optional (context_exists c) name ≡ ok tt → SoundDefault c name
  validate_default none h = tt
  validate_default (some name) h = ground arith

  validate_bindings-Fresh :
      (seen : List (List Component)) (bindings : List PathBinding)
      → validate_bindings c seen bindings ≡ ok tt
      → Fresh path_of seen bindings
        × All (λ (b : PathBinding). has_context c b.context ≡ true) bindings
  unfolding validate_bindings
  validate_bindings-Fresh seen [] h = ((tt, tt), tt)
  validate_bindings-Fresh seen (b ∷ rest) h =
      let more : validate_bindings c (components b.path ∷ seen) rest ≡ ok tt = ground arith in
      let (fresh, bound) = validate_bindings-Fresh (components b.path ∷ seen) rest more in
      let exists : has_context c b.context ≡ true = ground arith in
      (Fresh_cons path_of seen b rest (ground arith) fresh, (exists, bound))

-- A configuration that validates is sound. Its profiles have distinct names, state directories and
-- UIDs (names up to the case of a provider's, directories up to case), and every UID is the one that
-- is derived from the installation and the state directory and is not retired; every profile meets
-- its own checks; every context names existing profiles of the right providers; the default context
-- and the context of every binding exist; and no path is bound twice.
pub validate_config-SoundConfig :
    (sha256 : Text → Text) (encode : Encoder) (c : Config)
    → validate_config sha256 encode c ≡ ok tt
    → SoundConfig sha256 encode c
unfolding validate_config
validate_config-SoundConfig sha256 encode c h =
    let entries : validate_entries sha256 encode c nothing_seen c.profiles ≡ ok tt = ground arith in
    let contexts : validate_each (validate_context_entry c) c.contexts ≡ ok tt = ground arith in
    let default : validate_optional (context_exists c) c.default_context ≡ ok tt = ground arith in
    let bindings : validate_bindings c [] c.bindings ≡ ok tt = ground arith in
    let sound = validate_entries-SoundRest sha256 encode c nothing_seen c.profiles entries in
    let (paths, bound) = validate_bindings-Fresh c [] c.bindings bindings in
    record {
      version = ground (arith, ==_iff c.version config_schema_version);
      silent = ground arith;
      entries = sound.every;
      names = sound.names.0;
      uids = sound.uids.0;
      state_dirs = sound.state_dirs.0;
      contexts =
          validate_each-All (SoundContext c) (validate_context_entry c) c.contexts
            (validate_context_entry-SoundContext c) contexts;
      default = validate_default c c.default_context default;
      paths = paths.0;
      bound = bound;
    }
