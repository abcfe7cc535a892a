-- ===== src/Resolver/Precedence.antt =====
-- Which context a directory gets: src/resolver.rs.

use aictx.Base.{
  ◌≡◌, refl, sym, subst, ◌↔◌, true, Option, none, some, Text, ok, inl, inr, arith, Option-cases,
  text_eq,
}
use aictx.Resolver.Deepest.{Deepest, Unbound, longest_binding-Deepest, Unbound-none}
use aictx.Resolver.Context.{
  Directory, ResolutionSource, directory_binding, active_context, default_context, explicit_context,
  Binding, Config, ResolvedContext, contains_key, longest_binding, ensure_context_exists, existing,
  active_or_default, resolve_context_at_canonical_directory, resolve_context,
}

-- How a context is chosen, for a requested name, the current context and a directory.
pub data Chosen {P : Type 0} (canonicalize : Directory → Option Directory) (config : Config P)
    (current : Option Text) (cwd : Directory) : Option Text → ResolvedContext → Type 0 where
  explicit :
      (name : Text)
      → contains_key config.contexts name ≡ true
      → Chosen canonicalize config current cwd
          (some name)
          (record { name = name; source = explicit_context })
  bound :
      (d : Directory) (b : Binding)
      → canonicalize cwd ≡ some d
      → Deepest d config.bindings b
      → longest_binding d config.bindings ≡ some b
      → Chosen canonicalize config current cwd none
          (record { name = b.context; source = directory_binding })
  active :
      (d : Directory) (name : Text)
      → canonicalize cwd ≡ some d
      → Unbound d config.bindings
      → current ≡ some name
      → contains_key config.contexts name ≡ true
      → Chosen canonicalize config current cwd none
          (record { name = name; source = active_context })
  default :
      (d : Directory) (name : Text)
      → canonicalize cwd ≡ some d
      → Unbound d config.bindings
      → current ≡ none
      → config.default_context ≡ some name
      → contains_key config.contexts name ≡ true
      → Chosen canonicalize config current cwd none
          (record { name = name; source = default_context })

module _ {P : Type 0} (config : Config P) where
  existing_iff :
      (name : Text) (source : ResolutionSource) (r : ResolvedContext)
      → (existing config name source ≡ ok r) ↔ (
          (r ≡ record { name = name; source = source })
          × (contains_key config.contexts name ≡ true))
  unfolding existing ensure_context_exists
  existing_iff name source r = ((λ h. (ground arith, ground arith)), (λ (e, k). ground arith))

module _ {P : Type 0} (canonicalize : Directory → Option Directory) (config : Config P)
    (current : Option Text) (cwd : Directory) where
  named_Chosen :
      (name : Text) (r : ResolvedContext)
      → resolve_context canonicalize config current cwd (some name) ≡ ok r
      → Chosen canonicalize config current cwd (some name) r
  unfolding resolve_context
  named_Chosen name r h =
      let (e, k) = (existing_iff config name explicit_context r).0 h in
      subst (Chosen canonicalize config current cwd (some name)) (sym e) (explicit name k)

  active_or_default_Chosen :
      (d : Directory) (r : ResolvedContext)
      → canonicalize cwd ≡ some d
      → Unbound d config.bindings
      → active_or_default config current ≡ ok r
      → Chosen canonicalize config current cwd none r
  unfolding active_or_default
  active_or_default_Chosen d r c b h = elim (Option-cases current) [
    | inr (name, k) ↦
        let (e, x) =
          (existing_iff config name active_context r).0
            (subst (λ o. active_or_default config o ≡ ok r) k h) in
        subst (Chosen canonicalize config current cwd none) (sym e) (active d name c b k x)
    | inl k ↦ elim (Option-cases config.default_context) [
      | inl z ↦ absurd (ground arith)
      | inr (name, z) ↦
          let (e, x) = (existing_iff config name default_context r).0 (ground arith) in
          subst (Chosen canonicalize config current cwd none) (sym e) (default d name c b k z x)
    ]
  ]

  unnamed_Chosen :
      (r : ResolvedContext)
      → resolve_context canonicalize config current cwd none ≡ ok r
      → Chosen canonicalize config current cwd none r
  unfolding resolve_context resolve_context_at_canonical_directory
  unnamed_Chosen r h = elim (Option-cases (canonicalize cwd)) [
    | inl c ↦ absurd (ground arith)
    | inr (d, c) ↦ elim (longest_binding-Deepest d config.bindings) [
      | inl (b, e, v) ↦
          let k : record { name = b.context; source = directory_binding } ≡ r = ground arith in
          subst (Chosen canonicalize config current cwd none) k (bound d b c v e)
      | inr (e, out) ↦ active_or_default_Chosen d r c out (ground arith)
    ]
  ]

  Chosen-ok :
      {requested : Option Text} {r : ResolvedContext}
      → Chosen canonicalize config current cwd requested r
      → resolve_context canonicalize config current cwd requested ≡ ok r
  unfolding resolve_context resolve_context_at_canonical_directory active_or_default
  Chosen-ok (explicit name k) = (existing_iff config name explicit_context _).1 (refl, k)
  Chosen-ok (bound d b c v e) = ground arith
  Chosen-ok (active d name c out k x) =
      let e = Unbound-none d config.bindings out in
      let q = (existing_iff config name active_context _).1 (refl, x) in ground arith
  Chosen-ok (default d name c out k z x) =
      let e = Unbound-none d config.bindings out in
      let q = (existing_iff config name default_context _).1 (refl, x) in ground arith

  requested_Chosen :
      (requested : Option Text) (r : ResolvedContext)
      → resolve_context canonicalize config current cwd requested ≡ ok r
      → Chosen canonicalize config current cwd requested r
  requested_Chosen none r h = unnamed_Chosen r h
  requested_Chosen (some name) r h = named_Chosen name r h

-- A context is resolved exactly as the precedence says: a requested name that exists; without one,
-- for the canonical directory, the deepest binding that contains it; if no binding
-- contains it the current context; without that the default one, where both must exist. No other result is given.
pub resolve_context_iff :
    {P : Type 0} (canonicalize : Directory → Option Directory) (config : Config P)
    (current : Option Text) (cwd : Directory) (requested : Option Text) (r : ResolvedContext)
    → (resolve_context canonicalize config current cwd requested ≡ ok r)
      ↔ Chosen canonicalize config current cwd requested r
resolve_context_iff canonicalize config current cwd requested r = (
  requested_Chosen canonicalize config current cwd requested r,
  Chosen-ok canonicalize config current cwd,
)
