-- ===== src/Examples/Resolver.antt =====
-- The resolver theorems at concrete inputs: src/resolver.rs.
use aictx.Base.{
  ℕ, ◌≤◌, ◌≡◌, refl, ok, none, some, Option, List, [], ◌∷◌, Text, codes, ◌⊎◌, Text-discrete,
  ℕ_discrete,
}
use aictx.Contracts.Types.{Provider}
use aictx.Resolver.Levenshtein.{levenshtein, rows, next_row, next_cells, first_row}
use aictx.Resolver.EditScript.{Script, levenshtein-shortest}
use aictx.Resolver.Context.{
  Directory, directory_binding, ascii_lowercase, ProfileId, Binding, Config, ResolvedContext,
  ResolvedProfile, Context, within, longest_binding, nearest, resolve_context,
  resolve_context_at_canonical_directory, resolve_profile, context_profile, ProfileId-discrete,
}
use aictx.Resolver.Precedence.{Chosen, resolve_context_iff}
use aictx.Resolver.Profiles.{Named, ByContext, resolve_profile-origin}
use aictx.Resolver.Suggestion.{OneOf, nearest-shortest}

levenshtein-shortest_example :
    Script (codes "wrok") (codes "work") (levenshtein (codes "wrok") (codes "work"))
    × ((n : ℕ)
        → Script (codes "wrok") (codes "work") n
        → levenshtein (codes "wrok") (codes "work") ≤ n)
levenshtein-shortest_example = levenshtein-shortest (codes "wrok") (codes "work")

abbrev home : Directory
home = codes "home" ∷ codes "ada" ∷ []

abbrev project : Directory
project = codes "home" ∷ codes "ada" ∷ codes "project" ∷ []

abbrev shallow : Binding
shallow = record { path = home; context = codes "personal" }

abbrev deep : Binding
deep = record { path = project; context = codes "work" }

abbrev work_profile : ProfileId
work_profile = record { provider = Provider.claude; name = codes "work" }

abbrev config : Config ℕ
config = record {
  default_context = none;
  profiles = (work_profile, 7) ∷ [];
  contexts = (codes "work", record { claude = some work_profile; codex = none }) ∷ [];
  bindings = shallow ∷ deep ∷ [];
}

abbrev canonicalize : Directory → Option Directory
canonicalize d = some d

abbrev work_context : ResolvedContext
work_context = record { name = codes "work"; source = directory_binding }

resolves : resolve_context canonicalize config none project none ≡ ok work_context
unfolding resolve_context resolve_context_at_canonical_directory longest_binding within
    Text-discrete ℕ_discrete
resolves = refl

resolve_context_iff_example : Chosen canonicalize config none project none work_context
resolve_context_iff_example =
    (resolve_context_iff canonicalize config none project none work_context).0 resolves

abbrev work_resolved : ResolvedProfile ℕ
work_resolved = record {
  id = work_profile;
  profile = 7;
  context = some (codes "work");
  source = directory_binding;
}

resolves_profile :
    resolve_profile canonicalize config none project Provider.claude none none ≡ ok work_resolved
unfolding resolve_profile context_profile resolve_context resolve_context_at_canonical_directory
    longest_binding within ProfileId-discrete Text-discrete ℕ_discrete
resolves_profile = refl

resolve_profile-origin_example :
    Named config Provider.claude none work_resolved
    ⊎ ((◌≡◌ {A = Option ProfileId} none none)
        × ((resolved : ResolvedContext) × (context : Context) × ByContext canonicalize config none
              project Provider.claude none work_resolved resolved context))
resolve_profile-origin_example =
    resolve_profile-origin canonicalize config none project Provider.claude none none work_resolved
      resolves_profile

abbrev names : List Text
names = codes "personal" ∷ codes "work" ∷ []

suggests : nearest (codes "wrok") 2 names ≡ some (2, codes "work")
unfolding nearest levenshtein rows next_row next_cells first_row ℕ_discrete
suggests = refl

nearest-shortest_example :
    OneOf (codes "work") names
    × (2 ≤ 2)
    × Script (codes "wrok") (ascii_lowercase (codes "work")) 2
    × ((other : Text) (n : ℕ)
        → OneOf other names
        → Script (codes "wrok") (ascii_lowercase other) n
        → 2 ≤ n)
nearest-shortest_example = nearest-shortest (codes "wrok") 2 names 2 (codes "work") suggests
