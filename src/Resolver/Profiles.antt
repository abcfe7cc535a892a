-- ===== src/Resolver/Profiles.antt =====
-- Which profile a command gets: `resolve_profile` of src/resolver.rs.
use aictx.Base.{
  ◌≡◌, refl, Option, none, some, Text, ok, ◌⊎◌, inl, inr, arith, Option-cases, >>=-eq-ok, text_eq,
}
use aictx.Contracts.Types.{Provider, provider_eq}
use aictx.Resolver.Context.{
  Directory, explicit_profile, ProfileId, profile_id_eq, Context, profile_of, Config,
  ResolvedContext, ResolvedProfile, get, resolve_context, context_profile, explicit_profile_of,
  resolve_profile,
}
use aictx.Resolver.Precedence.{Chosen, resolve_context_iff}

-- A profile that was named: it is of the provider, and no context is involved.
pub record Named {P : Type 0} (config : Config P) (provider : Provider)
    (explicit : Option ProfileId) (r : ResolvedProfile P) : Type 0 where
  pub named : explicit ≡ some r.id
  pub provider_agrees : r.id.provider ≡ provider
  pub no_context : r.context ≡ none
  pub named_source : r.source ≡ explicit_profile
  pub found : get config.profiles r.id ≡ some r.profile

-- The slot of a context for a provider holds the profile.
pub data Names (context : Context) (id : ProfileId) : Provider → Type 0 where
  claude_slot : context.claude ≡ some id → Names context id Provider.claude
  codex_slot : context.codex ≡ some id → Names context id Provider.codex

profile_of-Names :
    (context : Context) (provider : Provider) (id : ProfileId)
    → profile_of context provider ≡ some id
    → Names context id provider
profile_of-Names context Provider.claude id h = claude_slot h
profile_of-Names context Provider.codex id h = codex_slot h

-- A profile that its context names for the provider.
pub record ByContext {P : Type 0} (canonicalize : Directory → Option Directory) (config : Config P)
    (current : Option Text) (cwd : Directory) (provider : Provider) (requested : Option Text)
    (r : ResolvedProfile P) (resolved : ResolvedContext) (context : Context) : Type 0 where
  pub chosen : Chosen canonicalize config current cwd requested resolved
  pub entry : get config.contexts resolved.name ≡ some context
  pub names : Names context r.id provider
  pub recorded : r.context ≡ some resolved.name
  pub same_source : r.source ≡ resolved.source
  pub found : get config.profiles r.id ≡ some r.profile

module _ {P : Type 0} (config : Config P) (provider : Provider) where
  explicit_profile_of-Named :
      (id : ProfileId) (r : ResolvedProfile P)
      → explicit_profile_of config provider id ≡ ok r
      → Named config provider (some id) r
  unfolding explicit_profile_of
  explicit_profile_of-Named id r h = elim (Option-cases (get config.profiles id)) [
    | inl k ↦ absurd (ground arith)
    | inr (profile, k) ↦ ground arith
  ]

  context_profile-parts :
      (resolved : ResolvedContext) (r : ResolvedProfile P)
      → context_profile config provider resolved ≡ ok r
      → (context : Context) × (get config.contexts resolved.name ≡ some context)
        × (profile_of context provider ≡ some r.id)
        × (r.context ≡ some resolved.name)
        × (r.source ≡ resolved.source)
        × (get config.profiles r.id ≡ some r.profile)
  unfolding context_profile
  context_profile-parts resolved r h = elim (Option-cases (get config.contexts resolved.name)) [
    | inl k ↦ absurd (ground arith)
    | inr (context, k) ↦ elim (Option-cases (profile_of context provider)) [
      | inl q ↦ absurd (ground arith)
      | inr (id, q) ↦ elim (Option-cases (get config.profiles id)) [
        | inl z ↦ absurd (ground arith)
        | inr (profile, z) ↦ (context, k, ground arith, ground arith, ground arith, ground arith)
      ]
    ]
  ]

-- A profile that is resolved is configured under its id. It was either named explicitly, and then it
-- is of the provider and carries no context, or no profile was named and the chosen context names
-- it in the slot of the provider.
pub resolve_profile-origin :
    {P : Type 0} (canonicalize : Directory → Option Directory) (config : Config P)
    (current : Option Text) (cwd : Directory) (provider : Provider) (requested : Option Text)
    (explicit : Option ProfileId) (r : ResolvedProfile P)
    → resolve_profile canonicalize config current cwd provider requested explicit ≡ ok r
    → Named config provider explicit r
      ⊎ ((explicit ≡ none)
          × ((resolved : ResolvedContext) × (context : Context) × ByContext canonicalize config
                current cwd provider requested r resolved context))
unfolding resolve_profile
resolve_profile-origin canonicalize config current cwd provider requested (some id) r h =
    inl (explicit_profile_of-Named config provider id r h)
resolve_profile-origin canonicalize config current cwd provider requested none r h =
    let (resolved, c, k) =
      >>=-eq-ok (resolve_context canonicalize config current cwd requested) _ h in
    let (context, e, n, x, s, f) = context_profile-parts config provider resolved r k in
    inr (
      refl,
      (
        resolved,
        context,
        record {
          chosen = (resolve_context_iff canonicalize config current cwd requested resolved).0 c;
          entry = e;
          names = profile_of-Names context provider r.id n;
          recorded = x;
          same_source = s;
          found = f;
        },
      ),
    )
