-- ===== src/Resolver/EditScript.antt =====
-- Edit scripts, and that `levenshtein` (src/resolver.rs) is the length of a shortest one.

use aictx.Base.{
  ℕ, ◌+◌, ◌≤◌, ◌≡◌, refl, sym, subst, ap, ◌∙◌, List, [], ◌∷◌, Text, length, min, arith, inl, inr,
  ◌⊎◌,
}
use aictx.Resolver.Levenshtein.{
  substitution_cost, next_cells, next_row, rows, first_row, cell_at, levenshtein,
}

-- A way to turn one text into another, and the number of insertions, deletions and replacements.
pub data Script : Text → Text → ℕ → Type 0 where
  done : Script [] [] 0
  insert : {l r : Text} {n : ℕ} (d : ℕ) → Script l r n → Script l (d ∷ r) (n + 1)
  delete : {l r : Text} {n : ℕ} (c : ℕ) → Script l r n → Script (c ∷ l) r (n + 1)
  replace :
      {l r : Text} {n : ℕ} (c d : ℕ)
      → Script l r n
      → Script (c ∷ l) (d ∷ r) (n + substitution_cost c d)

-- The textbook recursion.
unfoldable edit : Text → Text → ℕ
edit [] r = length r
edit (c ∷ l) [] = length (c ∷ l)
edit (c ∷ l) (d ∷ r) =
    min (min (edit (c ∷ l) r + 1) (edit l (d ∷ r) + 1)) (edit l r + substitution_cost c d)

insertions : (r : Text) → Script [] r (length r)
insertions [] = done
insertions (d ∷ r) = subst (Script [] (d ∷ r)) (omega arith) (insert d (insertions r))

deletions : (l : Text) → Script l [] (length l)
deletions [] = done
deletions (c ∷ l) = subst (Script (c ∷ l) []) (omega arith) (delete c (deletions l))

min_cases : (a b c : ℕ) → (min (min a b) c ≡ a) ⊎ (min (min a b) c ≡ b) ⊎ (min (min a b) c ≡ c)
min_cases a b c = ground arith

edit-Script : (l r : Text) → Script l r (edit l r)
unfolding edit
edit-Script [] r = insertions r
edit-Script (c ∷ l) [] = deletions (c ∷ l)
edit-Script (c ∷ l) (d ∷ r) =
    elim (min_cases (edit (c ∷ l) r + 1) (edit l (d ∷ r) + 1) (edit l r + substitution_cost c d)) [
      | inl e ↦ subst (Script (c ∷ l) (d ∷ r)) (sym e) (insert d (edit-Script (c ∷ l) r))
      | inr (inl e) ↦ subst (Script (c ∷ l) (d ∷ r)) (sym e) (delete c (edit-Script l (d ∷ r)))
      | inr (inr e) ↦ subst (Script (c ∷ l) (d ∷ r)) (sym e) (replace c d (edit-Script l r))
    ]

edit-insert : (l r : Text) (d : ℕ) → edit l (d ∷ r) ≤ edit l r + 1
unfolding edit
edit-insert [] r d = omega arith
edit-insert (c ∷ l) r d = ground arith

edit-delete : (l r : Text) (c : ℕ) → edit (c ∷ l) r ≤ edit l r + 1
unfolding edit
edit-delete [] [] c = omega arith
edit-delete (x ∷ l) [] c = omega arith
edit-delete l (d ∷ r) c = ground arith

edit-replace : (l r : Text) (c d : ℕ) → edit (c ∷ l) (d ∷ r) ≤ edit l r + substitution_cost c d
unfolding edit
edit-replace l r c d = ground arith

-- No script is shorter.
edit-least : {l r : Text} {n : ℕ} → Script l r n → edit l r ≤ n
unfolding edit
edit-least done = omega arith
edit-least (insert {l} {r} d s) = omega (arith, edit-insert l r d, edit-least s)
edit-least (delete {l} {r} c s) = omega (arith, edit-delete l r c, edit-least s)
edit-least (replace {l} {r} c d s) = omega (arith, edit-replace l r c d, edit-least s)

-- The distances from a reversed prefix to every longer reversed prefix of a text.
prefix_row : Text → Text → Text → List ℕ
prefix_row p acc [] = edit p acc ∷ []
prefix_row p acc (d ∷ r) = edit p acc ∷ prefix_row p (d ∷ acc) r

-- One row of the table from the row above.
prefix_row-step :
    (c : ℕ) (p acc r : Text)
    → edit (c ∷ p) acc ∷ next_cells c r (prefix_row p acc r) (edit (c ∷ p) acc)
      ≡ prefix_row (c ∷ p) acc r
unfolding prefix_row next_cells edit
prefix_row-step c p acc [] = refl
prefix_row-step c p acc (d ∷ []) = refl
prefix_row-step c p acc (d ∷ e ∷ r) =
    ap (λ row. edit (c ∷ p) acc ∷ row) (prefix_row-step c p (d ∷ acc) (e ∷ r))

first_row-prefix_row : (acc r : Text) (n : ℕ) → n ≡ length acc → first_row n r ≡ prefix_row [] acc r
unfolding first_row prefix_row edit
first_row-prefix_row acc [] n h = rw h refl
first_row-prefix_row acc (d ∷ r) n h =
    rw (first_row-prefix_row (d ∷ acc) r (n + 1) (omega arith)) (rw h refl)

-- `reverse l ++ p`, one character at a time.
onto : Text → Text → Text
onto [] p = p
onto (c ∷ l) p = onto l (c ∷ p)

first_cell : (c : ℕ) (p : Text) (i : ℕ) → i ≡ length p → i + 1 ≡ edit (c ∷ p) []
unfolding edit
first_cell c p i h = omega arith

next_row-prefix_row :
    (c : ℕ) (p r : Text) (i : ℕ)
    → i ≡ length p
    → next_row c r (prefix_row p [] r) i ≡ prefix_row (c ∷ p) [] r
unfolding next_row
next_row-prefix_row c p r i h = rw (first_cell c p i h) (prefix_row-step c p [] r)

rows-prefix_row :
    (l p r : Text) (i : ℕ)
    → i ≡ length p
    → rows l r i (prefix_row p [] r) ≡ prefix_row (onto l p) [] r
unfolding rows onto
rows-prefix_row [] p r i h = refl
rows-prefix_row (c ∷ l) p r i h =
    ap (λ row. rows l r (i + 1) row) (next_row-prefix_row c p r i h)
    ∙ rows-prefix_row l (c ∷ p) r (i + 1) (omega arith)

last-prefix_row : (p acc r : Text) → cell_at (prefix_row p acc r) (length r) ≡ edit p (onto r acc)
unfolding prefix_row onto
last-prefix_row p acc [] = refl
last-prefix_row p acc (d ∷ r) = last-prefix_row p (d ∷ acc) r

-- The table computes the recursion on the reversed texts.
levenshtein-edit : (l r : Text) → levenshtein l r ≡ edit (onto l []) (onto r [])
unfolding levenshtein
levenshtein-edit l r =
    ap (λ row. cell_at (rows l r 0 row) (length r)) (first_row-prefix_row [] r 0 refl)
    ∙ ap (λ row. cell_at row (length r)) (rows-prefix_row l [] r 0 refl)
    ∙ last-prefix_row (onto l []) [] r

-- Scripts of reversed texts, from their last step to their first.
reversed :
    {l r p q : Text} {n m : ℕ} → Script l r n → Script p q m → Script (onto l p) (onto r q) (n + m)
unfolding onto
reversed done t = subst (Script _ _) (omega arith) t
reversed (insert d s) t = subst (Script _ _) (omega arith) (reversed s (insert d t))
reversed (delete c s) t = subst (Script _ _) (omega arith) (reversed s (delete c t))
reversed (replace c d s) t = subst (Script _ _) (omega arith) (reversed s (replace c d t))

onto-onto : (l p : Text) → onto (onto l p) [] ≡ onto p l
unfolding onto
onto-onto [] p = refl
onto-onto (c ∷ l) p = onto-onto l (c ∷ p)

reverse-Script : {l r : Text} {n : ℕ} → Script l r n → Script (onto l []) (onto r []) n
reverse-Script s = subst (Script _ _) (omega arith) (reversed s done)

-- The distance that suggestions use is the length of a shortest edit script: some script from the
-- left to the right text has that many insertions, deletions and replacements, and none has fewer.
pub levenshtein-shortest :
    (l r : Text) → Script l r (levenshtein l r) × ((n : ℕ) → Script l r n → levenshtein l r ≤ n)
levenshtein-shortest l r = (
  subst (λ t. Script t r (levenshtein l r)) (twice l)
      (subst (λ t. Script (onto (onto l []) []) t (levenshtein l r)) (twice r)
        (reverse-Script
          (subst (Script _ _) (sym (levenshtein-edit l r)) (edit-Script (onto l []) (onto r []))))),
  λ n s. subst (λ d. d ≤ n) (sym (levenshtein-edit l r)) (edit-least (reverse-Script s)),
)
  where
    twice : (t : Text) → onto (onto t []) [] ≡ t
    twice t = onto-onto t [] ∙ unfold onto in refl
