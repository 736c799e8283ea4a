-- ===== src/Formation.antt =====
-- formation.py: slots behind the leader, and the separation of a set of positions.
pub mod Laws
use swarmsim.Base.{
  ℕ, zero, suc, ◌+◌, ◌/◌, ◌%◌, Bool, false, Option, none, some, List, [], ◌∷◌, map, num_eq, ltb,
  if◌then◌else◌, length,
}
use swarmsim.Float.{Float}
use swarmsim.Trajectory.{Vector3, vector, ◌+ᵥ◌, distance_to}

module _ {F : Type 0} ⦃f : Float F⦄ where
  -- `[slot(i) for i in range(start, start + n)]`
  pub slots_from : (ℕ → Vector3 F) → ℕ → ℕ → List (Vector3 F)
  slots_from slot start zero = []
  slots_from slot start (suc n) = slot start ∷ slots_from slot (start + 1) n

  abbrev pub line_slot : F → ℕ → Vector3 F
  line_slot spacing i = vector (f.mul (f.neg spacing) (f.of_nat (i + 1))) (f.of_nat 0) (f.of_nat 0)

  -- The count comes as a number that is not negative, so the ValueError has no case.
  unfoldable pub line_formation : ℕ → F → List (Vector3 F)
  unfolding slots_from
  line_formation count spacing = slots_from (line_slot spacing) 0 count

  -- `side * spacing_m`: times 1 on the even places, times -1 on the odd ones.
  abbrev pub v_slot : F → ℕ → Vector3 F
  v_slot spacing i =
      let rank = f.of_nat (i / 2 + 1) in
      let side = if num_eq (i % 2) 0 then f.of_nat 1 else f.neg (f.of_nat 1) in
      vector (f.mul (f.neg spacing) rank) (f.mul (f.mul side spacing) rank) (f.of_nat 0)

  unfoldable pub v_formation : ℕ → F → List (Vector3 F)
  unfolding slots_from
  v_formation count spacing = slots_from (v_slot spacing) 0 count

  unfoldable pub follower_targets : Vector3 F → List (Vector3 F) → List (Vector3 F)
  follower_targets leader_position offsets = map (λ offset. leader_position +ᵥ offset) offsets

  -- `best is None or distance < best`
  closer : F → Option F → Option F
  closer distance none = some distance
  closer distance (some best) = if f.lt distance best then some distance else some best

  -- The inner loop of `min_separation`: `position` against those after it.
  nearest : Vector3 F → List (Vector3 F) → Option F → Option F
  unfolding closer
  nearest position [] best = best
  nearest position (other ∷ rest) best =
      nearest position rest (closer (distance_to position other) best)

  -- The outer loop.
  closest_pair : List (Vector3 F) → Option F → Option F
  unfolding nearest
  closest_pair [] best = best
  closest_pair (position ∷ rest) best = closest_pair rest (nearest position rest best)

  unfoldable pub min_separation : List (Vector3 F) → Option F
  unfolding closest_pair
  min_separation positions = if ltb (length positions) 2 then none else closest_pair positions none

  unfoldable pub has_collision : List (Vector3 F) → F → Bool
  unfolding min_separation
  has_collision positions min_distance = elim (min_separation positions) [
    | none ↦ false
    | some separation ↦ f.lt separation min_distance
  ]
