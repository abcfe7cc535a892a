-- ===== src/Resolver/Levenshtein.antt =====
-- The edit distance of suggestions: `levenshtein` in src/resolver.rs. The two buffers that the source
-- swaps are the previous row and the row computed from it.
use aictx.Base.{
  ℕ, ◌+◌, List, [], ◌∷◌, Text, ◌==◌, none, some, length, get_elem?, min, nat_eq, if◌then◌else◌,
}

-- `usize::from(left_character != *right_character)`.
abbrev pub substitution_cost : ℕ → ℕ → ℕ
substitution_cost left right = if left == right then 0 else 1

-- The inner loop: the cells of the row after its first, which is `current`.
unfoldable pub next_cells : ℕ → Text → List ℕ → ℕ → List ℕ
next_cells left (right ∷ rest) (diagonal ∷ above ∷ row) current =
    let cell = min (min (current + 1) (above + 1)) (diagonal + substitution_cost left right) in
    cell ∷ next_cells left rest (above ∷ row) cell
next_cells left _ _ current = []

unfoldable pub next_row : ℕ → Text → List ℕ → ℕ → List ℕ
unfolding next_cells
next_row left right previous index = (index + 1) ∷ next_cells left right previous (index + 1)

-- The outer loop, from the character at `index` on.
unfoldable pub rows : Text → Text → ℕ → List ℕ → List ℕ
unfolding next_row
rows [] right index previous = previous
rows (left ∷ rest) right index previous =
    rows rest right (index + 1) (next_row left right previous index)

-- `(start..=start + right.len())`.
unfoldable pub first_row : ℕ → Text → List ℕ
first_row start [] = start ∷ []
first_row start (right ∷ rest) = start ∷ first_row (start + 1) rest

-- `row[index]`; every row has one cell more than the right text.
abbrev pub cell_at : List ℕ → ℕ → ℕ
cell_at row index = elim (get_elem? row index) [ none ↦ 0 | some cell ↦ cell ]

unfoldable pub levenshtein : Text → Text → ℕ
unfolding rows first_row
levenshtein left right = cell_at (rows left right 0 (first_row 0 right)) (length right)
