-- ===== src/Fleet/Sorting.antt =====
-- Sorting and the members of a list of ids (Fleet).
use swarmsim.Base.{
  suc, ◌≡◌, refl, ap, ◌∙◌, Bool, ◌||◌, List, [], ◌∷◌, String, ◌==◌, eq_iff, false, arith, contains,
  Distinct, length,
}
use swarmsim.Fleet.{insert_sorted, sort_by, sort_ids, id_leb}

module _ {ℓ} {A : Type ℓ} (before : A → A → Bool) where
  length-insert_sorted :
      (x : A) (xs : List A) → length (insert_sorted before x xs) ≡ suc (length xs)
  unfolding insert_sorted
  length-insert_sorted x [] = refl
  length-insert_sorted x (y ∷ ys) = ground (arith, length-insert_sorted x ys)

  pub length-sort_by : (xs : List A) → length (sort_by before xs) ≡ length xs
  unfolding sort_by
  length-sort_by [] = refl
  length-sort_by (x ∷ xs) = length-insert_sorted x (sort_by before xs) ∙ ap suc (length-sort_by xs)

module _ (before : String → String → Bool) where
  contains-insert_sorted :
      (k x : String) (xs : List String)
      → contains k (insert_sorted before x xs) ≡ (x == k || contains k xs)
  unfolding insert_sorted
  contains-insert_sorted k x [] = refl
  contains-insert_sorted k x (y ∷ ys) = ground (arith, contains-insert_sorted k x ys)

  Distinct-insert_sorted :
      (x : String) (xs : List String)
      → contains x xs ≡ false
      → Distinct xs
      → Distinct (insert_sorted before x xs)
  unfolding insert_sorted
  Distinct-insert_sorted x [] fresh d = (refl, tt)
  Distinct-insert_sorted x (y ∷ ys) fresh (yf, d) =
      ground
        (arith, eq_iff x y, eq_iff y x, contains-insert_sorted y x ys, Distinct-insert_sorted x ys)

  pub contains-sort_by :
      (k : String) (xs : List String) → contains k (sort_by before xs) ≡ contains k xs
  unfolding sort_by
  contains-sort_by k [] = refl
  contains-sort_by k (x ∷ xs) =
      contains-insert_sorted k x (sort_by before xs)
      ∙ ap (λ (rest : Bool). x == k || rest) (contains-sort_by k xs)

  pub sort_by-Distinct : (xs : List String) → Distinct xs → Distinct (sort_by before xs)
  unfolding sort_by
  sort_by-Distinct [] d = tt
  sort_by-Distinct (x ∷ xs) (fresh, d) =
      Distinct-insert_sorted x (sort_by before xs) (contains-sort_by x xs ∙ fresh)
        (sort_by-Distinct xs d)

pub contains-sort_ids : (k : String) (xs : List String) → contains k (sort_ids xs) ≡ contains k xs
unfolding sort_ids
contains-sort_ids k xs = contains-sort_by id_leb k xs

pub sort_ids-Distinct : (xs : List String) → Distinct xs → Distinct (sort_ids xs)
unfolding sort_ids
sort_ids-Distinct xs d = sort_by-Distinct id_leb xs d

pub length-sort_ids : (xs : List String) → length (sort_ids xs) ≡ length xs
unfolding sort_ids
length-sort_ids xs = length-sort_by id_leb xs
