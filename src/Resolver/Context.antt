-- ===== src/Resolver/Context.antt =====
-- Profiles and contexts: `resolve_profile`, `resolve_context` and the suggestions of src/resolver.rs.
-- A directory is its list of path components, a map is an association list, and names are ASCII, so
-- that their bytes are their characters. The profiles that the resolver hands on are of any type.
use aictx.Base.{
  Eq, ℕ_discrete, ℕ, ◌+◌, Bool, true, false, not, ◌&&◌, ◌||◌, List, [], ◌∷◌, ◌++◌, map, Option,
  none, some, Text, ◌==◌, codes, length, leb, ltb, if◌then◌else◌, Result, ok, err, ok_or, ◌>>=◌,
  ◌>>◌, text_eq, nat_eq,
}
use aictx.Contracts.Types.{Provider, provider_eq}
use aictx.Policy.Digest.{provider_label}
use aictx.Resolver.Levenshtein.{levenshtein}

abbrev pub Directory : Type 0
Directory = List Text

pub data ResolutionSource : Type 0 where
  explicit_profile explicit_context directory_binding : ResolutionSource
  active_context default_context : ResolutionSource

-- The variants of `Error` that the resolver returns.
pub data ResolverError : Type 0 where
  profile_not_found context_not_found invalid_input : Text → ResolverError
  read_file : Directory → ResolverError

pub record ProfileId : Type 0 where
  pub provider : Provider
  pub name : Text

unfoldable pub ProfileId-discrete : Discrete ProfileId
ProfileId-discrete = hlevel ℕ_discrete

instance abbrev pub profile_id_eq : Eq ProfileId
profile_id_eq = record { dec = ProfileId-discrete }

pub record Context : Type 0 where
  pub claude : Option ProfileId
  pub codex : Option ProfileId

-- `Context::profile`.
abbrev pub profile_of : Context → Provider → Option ProfileId
profile_of c Provider.claude = c.claude
profile_of c Provider.codex = c.codex

pub record Binding : Type 0 where
  pub path : Directory
  pub context : Text

pub record Config (P : Type 0) : Type 0 where
  pub default_context : Option Text
  pub profiles : List (ProfileId × P)
  pub contexts : List (Text × Context)
  pub bindings : List Binding

pub record ResolvedContext : Type 0 where
  pub name : Text
  pub source : ResolutionSource

pub record ResolvedProfile (P : Type 0) : Type 0 where
  pub id : ProfileId
  pub profile : P
  pub context : Option Text
  pub source : ResolutionSource

-- `BTreeMap::get`.
abbrev pub get : {K V : Type 0} ⦃e : Eq K⦄ → List (K × V) → K → Option V
get [] k = none
get ((key, value) ∷ rest) k = if key == k then some value else get rest k

abbrev pub contains_key : {V : Type 0} → List (Text × V) → Text → Bool
contains_key entries k = elim (get entries k) [ none ↦ false | some value ↦ true ]

-- `Path::starts_with`, component by component.
unfoldable pub within : Directory → Directory → Bool
within directory [] = true
within [] (p ∷ ps) = false
within (d ∷ ds) (p ∷ ps) = d == p && within ds ps

-- `filter(..).max_by_key(..)`, which returns the last of the longest.
unfoldable pub longest_binding : Directory → List Binding → Option Binding
longest_binding cwd [] = none
longest_binding cwd (b ∷ bs) =
    let rest = longest_binding cwd bs in
    if within cwd b.path
    then (elim rest [
      | none ↦ some b
      | some other ↦ if ltb (length other.path) (length b.path) then some b else some other
    ])
    else rest

-- `to_ascii_lowercase`.
abbrev pub ascii_lowercase : Text → Text
ascii_lowercase t = map (λ b. if leb b'A' b && leb b b'Z' then b + 32 else b) t

-- The order of strings.
unfoldable pub text_le : Text → Text → Bool
text_le [] b = true
text_le (x ∷ a) [] = false
text_le (x ∷ a) (y ∷ b) = ltb x y || (x == y && text_le a b)

-- `min_by(Ord::cmp)` over the pairs of distance and candidate within the maximum.
unfoldable pub nearest : Text → ℕ → List Text → Option (ℕ × Text)
unfolding text_le
nearest requested maximum [] = none
nearest requested maximum (candidate ∷ rest) =
    let distance = levenshtein requested (ascii_lowercase candidate) in
    let other = nearest requested maximum rest in
    if leb distance maximum
    then (elim other [
      | none ↦ some (distance, candidate)
      | some best ↦
          if ltb distance best.0 || (distance == best.0 && text_le candidate best.1)
          then some (distance, candidate)
          else some best
    ])
    else other

unfoldable pub with_suggestion : Text → List Text → Text
unfolding nearest
with_suggestion requested candidates =
    elim (nearest (ascii_lowercase requested) (if leb (length requested) 4 then 1 else 2)
      candidates) [
        | none ↦ requested
        | some best ↦ requested ++ codes "; did you mean `" ++ best.1 ++ codes "`?"
      ]

-- `Display` of a profile id.
abbrev pub shown : ProfileId → Text
shown id = provider_label id.provider ++ codes ":" ++ id.name

module _ {P : Type 0} where
  unfoldable pub missing_context : Config P → Text → ResolverError
  missing_context config requested =
      context_not_found (with_suggestion requested (map (λ entry. entry.0) config.contexts))

  same_provider : Provider → List (ProfileId × P) → List Text
  same_provider provider [] = []
  same_provider provider ((id, profile) ∷ rest) =
      if id.provider == provider
      then shown id ∷ same_provider provider rest
      else same_provider provider rest

  unfoldable pub missing_profile : Config P → ProfileId → ResolverError
  unfolding same_provider
  missing_profile config requested =
      profile_not_found
        (with_suggestion (shown requested) (same_provider requested.provider config.profiles))

  unfoldable pub ensure_context_exists : Config P → Text → Result ResolverError (Unit {0})
  ensure_context_exists config name =
      if contains_key config.contexts name then ok tt else err (missing_context config name)

  -- A context that must exist, with the source that names it.
  unfoldable pub existing :
      Config P → Text → ResolutionSource → Result ResolverError ResolvedContext
  existing config name source = do
    ensure_context_exists config name
    ok (record { name = name; source = source })

  unfoldable pub active_or_default : Config P → Option Text → Result ResolverError ResolvedContext
  active_or_default config (some name) = existing config name active_context
  active_or_default config none = elim config.default_context [
    | some name ↦ existing config name default_context
    | none ↦
        err
          (context_not_found (codes "no explicit, bound, active, or default context is configured"))
  ]

  unfoldable pub resolve_context_at_canonical_directory :
      Config P → Option Text → Directory → Result ResolverError ResolvedContext
  resolve_context_at_canonical_directory config current cwd =
      elim (longest_binding cwd config.bindings) [
        | some binding ↦ ok (record { name = binding.context; source = directory_binding })
        | none ↦ active_or_default config current
      ]

  -- `canonicalize` is the file system's.
  unfoldable pub resolve_context :
      (Directory → Option Directory)
      → Config P
      → Option Text
      → Directory
      → Option Text
      → Result ResolverError ResolvedContext
  resolve_context canonicalize config current cwd (some name) =
      existing config name explicit_context
  resolve_context canonicalize config current cwd none = do
    canonical ← ok_or (canonicalize cwd) (read_file cwd)
    resolve_context_at_canonical_directory config current canonical

  -- The profile of a context that has been resolved.
  unfoldable pub context_profile :
      Config P → Provider → ResolvedContext → Result ResolverError (ResolvedProfile P)
  context_profile config provider resolved = do
    context ← ok_or (get config.contexts resolved.name) (context_not_found resolved.name)
    id ← ok_or (profile_of context provider) (
        profile_not_found (
          codes "context `"
          ++ resolved.name
          ++ codes "` has no "
          ++ provider_label provider
          ++ codes " profile"))
    profile ← ok_or (get config.profiles id) (missing_profile config id)
    ok (record {
      id = id;
      profile = profile;
      context = some resolved.name;
      source = resolved.source;
    })

  unfoldable pub explicit_profile_of :
      Config P → Provider → ProfileId → Result ResolverError (ResolvedProfile P)
  explicit_profile_of config provider id =
      if not (id.provider == provider)
      then err (
          invalid_input (
            codes "profile `"
            ++ shown id
            ++ codes "` cannot be used for provider `"
            ++ provider_label provider
            ++ codes "`"))
      else (do
        profile ← ok_or (get config.profiles id) (missing_profile config id)
        ok (record { id = id; profile = profile; context = none; source = explicit_profile }))

  unfoldable pub resolve_profile :
      (Directory → Option Directory)
      → Config P
      → Option Text
      → Directory
      → Provider
      → Option Text
      → Option ProfileId
      → Result ResolverError (ResolvedProfile P)
  resolve_profile canonicalize config current cwd provider requested (some id) =
      explicit_profile_of config provider id
  resolve_profile canonicalize config current cwd provider requested none = do
    resolved ← resolve_context canonicalize config current cwd requested
    context_profile config provider resolved
