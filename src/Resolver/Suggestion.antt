-- ===== src/Resolver/Suggestion.antt =====
-- What a suggestion is: `with_suggestion` of src/resolver.rs.
use native.Mathlib.Nat.{le_refl}
use aictx.Base.{
  ℕ, ◌≤◌, ◌<◌, ◌≡◌, refl, sym, subst, Bool, true, false, List, [], ◌∷◌, none, some, Text, ◌==◌,
  ◌||◌, ◌&&◌, leb, ltb, ◌⊎◌, inl, inr, arith, Bool-cases, nat_eq, leb→le,
}
use aictx.Resolver.Levenshtein.{levenshtein}
use aictx.Resolver.Context.{ascii_lowercase, text_le, nearest}
use aictx.Resolver.EditScript.{Script, levenshtein-shortest}

-- One of the candidates.
abbrev pub OneOf : Text → List Text → Type 0
OneOf t [] = ⊥
OneOf t (c ∷ cs) = (t ≡ c) ⊎ OneOf t cs

-- The distance from a request to a candidate, both in lower case.
abbrev pub distance : Text → Text → ℕ
distance requested candidate = levenshtein requested (ascii_lowercase candidate)

-- A suggestion: a candidate within the maximum, and no candidate is closer.
pub record Nearest (requested : Text) (maximum : ℕ) (candidates : List Text) (best : ℕ × Text)
    : Type 0 where
  pub candidate : OneOf best.1 candidates
  pub measured : best.0 ≡ distance requested best.1
  pub within : best.0 ≤ maximum
  pub closest : (other : Text) → OneOf other candidates → best.0 ≤ distance requested other

nearest_cases :
    (requested : Text) (maximum : ℕ) (candidates : List Text)
    → ((best : ℕ × Text) × (nearest requested maximum candidates ≡ some best)
        × Nearest requested maximum candidates best)
      ⊎ ((nearest requested maximum candidates ≡ none)
          × ((other : Text) → OneOf other candidates → maximum < distance requested other))
unfolding nearest
nearest_cases requested maximum [] = inr (refl, λ other m. absurd m)
nearest_cases requested maximum (c ∷ cs) = elim (Bool-cases (leb (distance requested c) maximum)) [
  | inr far ↦ elim (nearest_cases requested maximum cs) [
    | inr (e, out) ↦
        inr
          (ground arith, λ other m. elim m [ inl q ↦ rw q (not_leb _ _ far) | inr k ↦ out other k ])
    | inl (best, e, v) ↦ inl (
      best,
      ground arith,
      record {
        candidate = inr v.candidate;
        measured = v.measured;
        within = v.within;
        closest = λ other m. elim m [
          | inl q ↦ rw q (omega (arith, not_leb _ _ far, v.within))
          | inr k ↦ v.closest other k
        ];
      },
    )
  ]
  | inl near ↦ elim (nearest_cases requested maximum cs) [
    | inr (e, out) ↦ inl (
      (distance requested c, c),
      ground arith,
      record {
        candidate = inl refl;
        measured = refl;
        within = leb→le _ _ near;
        closest = λ other m. elim m [
          | inl q ↦ rw q (le_refl _)
          | inr k ↦ omega (arith, leb→le _ _ near, out other k)
        ];
      },
    )
    | inl (best, e, v) ↦
        elim (Bool-cases (
          ltb (distance requested c) best.0
          || (distance requested c == best.0 && text_le c best.1))) [
            | inl closer ↦ inl (
              (distance requested c, c),
              ground arith,
              record {
                candidate = inl refl;
                measured = refl;
                within = leb→le _ _ near;
                closest = λ other m. elim m [
                  | inl q ↦ rw q (le_refl _)
                  | inr k ↦ omega (arith, closer_le _ _ _ closer, v.closest other k)
                ];
              },
            )
            | inr farther ↦ inl (
              best,
              ground arith,
              record {
                candidate = inr v.candidate;
                measured = v.measured;
                within = v.within;
                closest = λ other m. elim m [
                  | inl q ↦ rw q (farther_le _ _ _ farther)
                  | inr k ↦ v.closest other k
                ];
              },
            )
          ]
  ]
]
  where
    not_leb : (a b : ℕ) → leb a b ≡ false → b < a
    not_leb a b h = ground arith

    closer_le : (a b : ℕ) (t : Bool) → (ltb a b || (a == b && t)) ≡ true → a ≤ b
    closer_le a b t h = ground arith

    farther_le : (a b : ℕ) (t : Bool) → (ltb a b || (a == b && t)) ≡ false → b ≤ a
    farther_le a b t h = ground arith

-- A suggestion is one of the candidates, can be reached from the request by an edit script within
-- the maximum, letters in lower case, and from no candidate does a shorter script exist.
pub nearest-shortest :
    (requested : Text) (maximum : ℕ) (candidates : List Text) (d : ℕ) (best : Text)
    → nearest requested maximum candidates ≡ some (d, best)
    → OneOf best candidates
      × (d ≤ maximum)
      × Script requested (ascii_lowercase best) d
      × ((other : Text) (n : ℕ)
          → OneOf other candidates
          → Script requested (ascii_lowercase other) n
          → d ≤ n)
nearest-shortest requested maximum candidates d best h =
    elim (nearest_cases requested maximum candidates) [
      | inr (e, out) ↦ absurd (ground arith)
      | inl (found, e, v) ↦
          let q : found ≡ (d, best) = ground arith in
          let w = subst (Nearest requested maximum candidates) q v in
          (
            w.candidate,
            w.within,
            subst (Script requested (ascii_lowercase best)) (sym w.measured)
                (levenshtein-shortest requested (ascii_lowercase best)).0,
            λ other n m s. omega (
              arith,
              w.closest other m,
              (levenshtein-shortest requested (ascii_lowercase other)).1 n s,
            ),
          )
    ]
