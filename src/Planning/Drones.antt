-- ===== src/Planning/Drones.antt =====
-- The ids that `MissionPlan.drones` lists (mission_planning.py).
use swarmsim.Fleet.{insert_sorted, sort_by, second_number}
use swarmsim.Dict.{keys}
use swarmsim.Planning.Plans.{has_part}
use swarmsim.Errors.{ok, Result-cases}
use swarmsim.Base.{
  inl, inr, refl, [], ◌∷◌, String, List, ℕ, ◌≡◌, Bool, ◌∙◌, contains, ap, map, ◌==◌, Option-cases,
  ◌||◌, arith, ◌++◌, contains-append,
}
use swarmsim.Planning.{numbered, number_leb, name_of, plan_drones, MissionPlan}

unfoldable pub named : String → List (ℕ × String) → Bool
named k ids = contains k (map name_of ids)

named-insert_sorted :
    (k : String) (e : ℕ × String) (ids : List (ℕ × String))
    → named k (insert_sorted number_leb e ids) ≡ (e.1 == k || named k ids)
unfolding insert_sorted named
named-insert_sorted k (n, d) [] = refl
named-insert_sorted k (n, d) ((m, x) ∷ ids) = ground (arith, named-insert_sorted k (n, d) ids)

pub named-sort_by :
    (k : String) (ids : List (ℕ × String)) → named k (sort_by number_leb ids) ≡ named k ids
unfolding sort_by named
named-sort_by k [] = refl
named-sort_by k ((n, d) ∷ ids) =
    named-insert_sorted k (n, d) (sort_by number_leb ids)
    ∙ ap (λ (rest : Bool). d == k || rest) (named-sort_by k ids)

pub named-numbered :
    (k : String) (ds : List String) (ids : List (ℕ × String))
    → numbered ds ≡ ok ids
    → named k ids ≡ contains k ds
unfolding numbered named
named-numbered k [] [] e = refl
named-numbered k [] (i ∷ ids) e = absurd (cc)
named-numbered k (d ∷ ds) ids e = elim (Option-cases (second_number d)) [
  | inl none_there ↦ absurd (ground arith)
  | inr (n, there) ↦ elim (Result-cases (numbered ds)) [
    | inr (x, r) ↦ absurd (ground arith)
    | inl (rest, r) ↦
        let same : (n, d) ∷ rest ≡ ids = ground arith in
        rw (← same) (ap (λ (b : Bool). d == k || b) (named-numbered k ds rest r))
  ]
]

module _ {F : Type 0} where
  pub contains-plan_drones :
      (plan : MissionPlan F) (drones : List String) (k : String)
      → plan_drones plan ≡ ok drones
      → contains k drones ≡ has_part plan k
  unfolding plan_drones named
  contains-plan_drones plan drones k e =
      let ds = keys plan.paths ++ keys plan.followers in
      elim (Result-cases (numbered ds)) [
        | inr (x, r) ↦ absurd (ground arith)
        | inl (ids, r) ↦
            let same : map name_of (sort_by number_leb ids) ≡ drones = ground arith in
            rw (← same) (
              named-sort_by k ids
              ∙ named-numbered k ds ids r
              ∙ contains-append k (keys plan.paths) (keys plan.followers))
      ]
