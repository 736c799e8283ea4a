-- ===== src/Fit.antt =====
-- scenarios/fit.py: the closest fit of drones to a formation, by matching rows to columns.
pub mod Augment
pub mod Search
pub mod Matched
pub mod Fuel
use swarmsim.Base.{
  none, some, true, false, [], ◌∷◌, zero, suc, ℕ, ◌+◌, ◌-◌, ◌/◌, List, Option, Bool, String,
  if◌then◌else◌, not, ◌&&◌, ◌||◌, ◌++◌, length, num_eq, ltb, ◌==◌, keep, contains,
}
use swarmsim.Float.{Float}
use swarmsim.Trajectory.{Vector3, distance_to, ◌+ᵥ◌}
use swarmsim.Dict.{Dict, lookup, keys}
use swarmsim.Fleet.{sort_by}

-- `row_of` and `seen`: of each column, the row that holds it, and whether it was tried.
pub record Matching : Type 0 where
  pub row_of : List (Option ℕ)
  pub seen : List Bool

-- `xs[i] = x`
abbrev pub put {ℓ} : {A : Type ℓ} → ℕ → A → List A → List A
put i x [] = []
put zero x (y ∷ ys) = x ∷ ys
put (suc i) x (y ∷ ys) = y ∷ put i x ys

-- `xs[i]`, within the list
abbrev pub item {ℓ} : {A : Type ℓ} → A → List A → ℕ → A
item default [] i = default
item default (x ∷ xs) zero = x
item default (x ∷ xs) (suc i) = item default xs i

-- `[x] * n`
abbrev pub repeated {ℓ} : {A : Type ℓ} → A → ℕ → List A
repeated x zero = []
repeated x (suc n) = x ∷ repeated x n

abbrev pub mark : ℕ → Matching → Matching
mark column m = record m { seen = put column true m.seen }

abbrev pub hold : ℕ → ℕ → Matching → Matching
hold column row m = record m { row_of = put column (some row) m.row_of }

module _ (allowed : ℕ → ℕ → Bool) where
  -- The loop of `augment` over the columns from `column` on, `left` of them; `deeper` is the call
  -- for the row that holds a column.
  unfoldable pub columns : (ℕ → Matching → Matching × Bool) → ℕ → ℕ → ℕ → Matching → Matching × Bool
  columns deeper zero column row m = (m, false)
  columns deeper (suc left) column row m =
      elim (allowed row column && not (item false m.seen column)) [
        | false ↦ columns deeper left (column + 1) row m
        | true ↦ elim (item none m.row_of column) [
          | none ↦ (hold column row (mark column m), true)
          | some other ↦
              let (m', found) = deeper other (mark column m) in
              elim found [
                | true ↦ (hold column row m', true)
                | false ↦ columns deeper left (column + 1) row m'
              ]
        ]
      ]

  -- `augment`. Each nested call has tried one column more, so as many are enough as there are
  -- columns: one that has tried them all finds none.
  unfoldable pub augment : ℕ → ℕ → ℕ → Matching → Matching × Bool
  unfolding columns
  augment zero size row m = (m, false)
  augment (suc fuel) size row m = columns (augment fuel size) size 0 row m

  -- `for row in range(size)`
  unfoldable pub match_rows : ℕ → ℕ → ℕ → List (Option ℕ) → Option (List (Option ℕ))
  unfolding augment
  match_rows zero row size row_of = some row_of
  match_rows (suc left) row size row_of =
      let (m, found) =
        augment size size row (record { row_of = row_of; seen = repeated false size }) in
      elim found [ true ↦ match_rows left (row + 1) size m.row_of | false ↦ none ]

-- `for column, row in enumerate(row_of)`; a row of -1 is the last one.
unfoldable pub assign_rows : ℕ → List (Option ℕ) → List ℕ → List ℕ
assign_rows column [] assignment = assignment
assign_rows column (none ∷ rows) assignment =
    assign_rows (column + 1) rows (put (length assignment - 1) column assignment)
assign_rows column (some row ∷ rows) assignment =
    assign_rows (column + 1) rows (put row column assignment)

-- `_perfect_matching`
unfoldable pub perfect_matching : ℕ → (ℕ → ℕ → Bool) → Option (List ℕ)
unfolding match_rows assign_rows
perfect_matching size allowed = elim (match_rows allowed size 0 size (repeated none size)) [
  | none ↦ none
  | some row_of ↦ some (assign_rows 0 row_of (repeated 0 size))
]
