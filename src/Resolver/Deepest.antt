-- ===== src/Resolver/Deepest.antt =====
-- The binding that a directory gets: `longest_binding` of src/resolver.rs.
use native.Mathlib.Nat.{le_refl}
use aictx.Base.{
  ℕ, ◌≤◌, ◌<◌, ◌≡◌, refl, ◌↔◌, true, false, List, [], ◌∷◌, ◌++◌, none, some, length, ltb, ◌⊎◌, inl,
  inr, arith, Bool-cases, text_eq, ltb→lt, and_true, ==_iff,
}
use aictx.Resolver.Context.{Directory, Binding, within, longest_binding}

-- A directory contains another: the other's components start with its own.
abbrev pub Contains : Directory → Directory → Type 0
Contains path cwd = (below : Directory) × (cwd ≡ path ++ below)

within_iff : (cwd path : Directory) → (within cwd path ≡ true) ↔ Contains path cwd
unfolding within
within_iff cwd [] = (λ h. (cwd, refl), λ h. refl)
within_iff [] (p ∷ ps) = (λ h. absurd (ground arith), λ (below, h). absurd (ground arith))
within_iff (d ∷ ds) (p ∷ ps) = (
  λ h.
      let (first, later) = and_true h in
      let (below, rest) = (within_iff ds ps).0 later in
      let head : d ≡ p = (==_iff d p).0 first in (below, λ i. head i ∷ rest i),
  λ (below, h).
      let head : d ≡ p = ground arith in
      let tail : ds ≡ ps ++ below = ground arith in
      ground (arith, (==_iff d p).1 head, (within_iff ds ps).1 (below, tail)),
)

-- A position in a list of bindings.
abbrev pub Among : Binding → List Binding → Type 0
Among b [] = ⊥
Among b (c ∷ bs) = (b ≡ c) ⊎ Among b bs

-- The binding that a directory gets, by the test of the source: one that contains it, at least as deep as every other that does.
record DeepestWithin (cwd : Directory) (bs : List Binding) (b : Binding) : Type 0 where
  pub member : Among b bs
  pub contains : within cwd b.path ≡ true
  pub deepest :
      (other : Binding)
      → Among other bs
      → within cwd other.path ≡ true
      → length other.path ≤ length b.path

-- A binding that does not contain the directory changes nothing.
outside_deeper :
    (cwd : Directory) (b c : Binding) (bs : List Binding)
    → within cwd b.path ≡ false
    → DeepestWithin cwd bs c
    → DeepestWithin cwd (b ∷ bs) c
outside_deeper cwd b c bs out v = record {
  member = inr v.member;
  contains = v.contains;
  deepest = λ other m h. elim m [ inl e ↦ absurd (ground arith) | inr k ↦ v.deepest other k h ];
}

all_outside :
    (cwd : Directory) (b : Binding) (bs : List Binding)
    → within cwd b.path ≡ false
    → ((other : Binding) → Among other bs → within cwd other.path ≡ false)
    → (other : Binding) → Among other (b ∷ bs)
    → within cwd other.path ≡ false
all_outside cwd b bs out none_of other m = elim m [ inl e ↦ rw e out | inr k ↦ none_of other k ]

only_inside :
    (cwd : Directory) (b : Binding) (bs : List Binding)
    → within cwd b.path ≡ true
    → ((other : Binding) → Among other bs → within cwd other.path ≡ false)
    → DeepestWithin cwd (b ∷ bs) b
only_inside cwd b bs inside none_of = record {
  member = inl refl;
  contains = inside;
  deepest = λ other m h. elim m [
    | inl e ↦ rw e (le_refl _)
    | inr k ↦ absurd (ground (arith, none_of other k))
  ];
}

-- A deeper binding takes over.
new-DeepestWithin :
    (cwd : Directory) (b c : Binding) (bs : List Binding)
    → within cwd b.path ≡ true
    → length c.path < length b.path
    → DeepestWithin cwd bs c
    → DeepestWithin cwd (b ∷ bs) b
new-DeepestWithin cwd b c bs inside deeper v = record {
  member = inl refl;
  contains = inside;
  deepest = λ other m h. elim m [
    | inl e ↦ rw e (le_refl _)
    | inr k ↦ omega (arith, v.deepest other k h, deeper)
  ];
}

old-DeepestWithin :
    (cwd : Directory) (b c : Binding) (bs : List Binding)
    → length b.path ≤ length c.path
    → DeepestWithin cwd bs c
    → DeepestWithin cwd (b ∷ bs) c
old-DeepestWithin cwd b c bs shallow v = record {
  member = inr v.member;
  contains = v.contains;
  deepest = λ other m h. elim m [ inl e ↦ rw e shallow | inr k ↦ v.deepest other k h ];
}

not_lt : (a b : ℕ) → ltb a b ≡ false → b ≤ a
not_lt a b h = ground arith

longest_binding-DeepestWithin :
    (cwd : Directory) (bs : List Binding)
    → ((b : Binding) × (longest_binding cwd bs ≡ some b) × DeepestWithin cwd bs b)
      ⊎ ((longest_binding cwd bs ≡ none)
          × ((other : Binding) → Among other bs → within cwd other.path ≡ false))
unfolding longest_binding
longest_binding-DeepestWithin cwd [] = inr (refl, λ other m. absurd m)
longest_binding-DeepestWithin cwd (b ∷ bs) = elim (Bool-cases (within cwd b.path)) [
  | inr out ↦ elim (longest_binding-DeepestWithin cwd bs) [
    | inl (c, e, v) ↦ inl (c, ground arith, outside_deeper cwd b c bs out v)
    | inr (e, none_of) ↦ inr (ground arith, all_outside cwd b bs out none_of)
  ]
  | inl inside ↦ elim (longest_binding-DeepestWithin cwd bs) [
    | inr (e, none_of) ↦ inl (b, ground arith, only_inside cwd b bs inside none_of)
    | inl (c, e, v) ↦ elim (Bool-cases (ltb (length c.path) (length b.path))) [
      | inl deeper ↦
          inl (b, ground arith, new-DeepestWithin cwd b c bs inside (ltb→lt _ _ deeper) v)
      | inr shallow ↦ inl (c, ground arith, old-DeepestWithin cwd b c bs (not_lt _ _ shallow) v)
    ]
  ]
]

-- The deepest binding that contains a directory.
pub record Deepest (cwd : Directory) (bs : List Binding) (b : Binding) : Type 0 where
  pub member : Among b bs
  pub contains : Contains b.path cwd
  pub deepest :
      (other : Binding)
      → Among other bs
      → Contains other.path cwd
      → length other.path ≤ length b.path

-- No binding contains the directory.
abbrev pub Unbound : Directory → List Binding → Type 0
Unbound cwd bs = (other : Binding) → Among other bs → ¬ Contains other.path cwd

-- A directory gets the deepest binding that contains it, and none only if no binding contains it.
pub longest_binding-Deepest :
    (cwd : Directory) (bs : List Binding)
    → ((b : Binding) × (longest_binding cwd bs ≡ some b) × Deepest cwd bs b)
      ⊎ ((longest_binding cwd bs ≡ none) × Unbound cwd bs)
longest_binding-Deepest cwd bs = elim (longest_binding-DeepestWithin cwd bs) [
  | inl (b, found, v) ↦ inl (
    b,
    found,
    record {
      member = v.member;
      contains = (within_iff cwd b.path).0 v.contains;
      deepest = λ other m h. v.deepest other m ((within_iff cwd other.path).1 h);
    },
  )
  | inr (nothing, out) ↦ inr (
    nothing,
    λ other m h.
        let inside = (within_iff cwd other.path).1 h in let outside = out other m in ground arith,
  )
]

pub Unbound-none :
    (cwd : Directory) (bs : List Binding) → Unbound cwd bs → longest_binding cwd bs ≡ none
Unbound-none cwd bs out = elim (longest_binding-Deepest cwd bs) [
  | inl (b, found, v) ↦ absurd (out b v.member v.contains)
  | inr (nothing, rest) ↦ nothing
]
