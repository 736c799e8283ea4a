-- ===== src/Examples/Matched.antt =====
-- Matchings of two rows with two columns, and the theorems on them.
use swarmsim.Base.{
  none, some, true, false, [], ◌∷◌, zero, suc, ℕ, ◌<◌, Bool, ◌≡◌, refl, arith, length, num_eq,
}
use swarmsim.Fit.{Matching, item, augment, match_rows, assign_rows, perfect_matching, columns}
use swarmsim.Fit.Fuel.{augment-ends}
use swarmsim.Fit.Matched.{perfect_matching-matches}

-- The second row is allowed the first column only.
abbrev pairs : ℕ → ℕ → Bool
pairs zero column = true
pairs (suc row) zero = true
pairs (suc row) (suc column) = false

-- The first row takes the first column and gives it up.
perfect_matching_run : perfect_matching 2 pairs ≡ some (1 ∷ 0 ∷ [])
unfolding perfect_matching match_rows augment columns assign_rows
perfect_matching_run = refl

-- Two rows that are allowed one column only.
perfect_matching_fails : perfect_matching 2 (λ row column. num_eq column 0) ≡ none
unfolding perfect_matching match_rows augment columns assign_rows
perfect_matching_fails = refl

perfect_matching-matches_example :
    (length {A = ℕ} (1 ∷ 0 ∷ []) ≡ 2)
    × (item 0 (1 ∷ 0 ∷ []) 0 < 2)
    × (pairs 0 (item 0 (1 ∷ 0 ∷ []) 0) ≡ true)
    × (num_eq (item 0 (1 ∷ 0 ∷ []) 0) (item 0 (1 ∷ 0 ∷ []) 1) ≡ num_eq 0 1)
perfect_matching-matches_example =
    perfect_matching-matches 2 pairs (1 ∷ 0 ∷ []) 0 1 perfect_matching_run (omega arith)
      (omega arith)

abbrev first_held : Matching
first_held = record { row_of = some 0 ∷ none ∷ []; seen = false ∷ false ∷ [] }

augment-ends_example : augment pairs 5 2 1 first_held ≡ augment pairs 2 2 1 first_held
augment-ends_example = augment-ends pairs 5 2 1 first_held refl refl (omega arith)
