-- ===== src/Planning.antt =====
-- mission_planning.py: who flies what in a mission. `drones` are the ids to plan onto.
pub mod Plans
pub mod Drones
pub mod Missions
use swarmsim.Formation.{line_formation, v_formation}
use swarmsim.Fleet.{second_number, number_error, sort_by}
use swarmsim.Dict.{Dict, keys, insert}
use swarmsim.Trajectory.{Vector3, ◌+ᵥ◌, vector}
use swarmsim.Float.{Float}
use swarmsim.Base.{
  [], ◌∷◌, String, List, ℕ, Option, Bool, if◌then◌else◌, leb, ◌++◌, ltb, map, ◌+◌, ◌==◌, length,
  take, num_eq, ◌-◌,
}
use swarmsim.Errors.{
  ◌>>=◌, ◌>>◌, raise_if, or_raise, Result, ok, err, too_few_drones, bad_drone_count, no_waypoints,
  no_such_formation, unknown_type,
}

-- A drone count is a number that is not negative.
pub record MissionMessage (F : Type 0) : Type 0 where
  pub mission_id : String
  pub mission_type : String
  pub formation : String
  pub waypoints : List (Vector3 F)
  pub drone_count : ℕ
  pub spacing : F

pub record CommandMessage : Type 0 where
  pub command : String
  pub mission_id : Option String

pub record MissionPlan (F : Type 0) : Type 0 where
  pub mission_id : String
  pub paths : Dict (List (Vector3 F))
  -- follower ↦ its leader and its offset
  pub followers : Dict (String × Vector3 F)

-- The ids with their numbers; an id without one raises.
unfoldable pub numbered : List String → Result (List (ℕ × String))
numbered [] = ok []
numbered (d ∷ ds) = do
  n ← or_raise (second_number d) (number_error d)
  rest ← numbered ds
  ok ((n, d) ∷ rest)

abbrev pub number_leb : ℕ × String → ℕ × String → Bool
number_leb (m, _) (n, _) = leb m n

abbrev pub name_of : ℕ × String → String
name_of (_, d) = d

module _ {F : Type 0} where
  -- `MissionPlan.drones`
  unfoldable pub plan_drones : MissionPlan F → Result (List String)
  unfolding numbered
  plan_drones plan = do
    ids ← numbered (keys plan.paths ++ keys plan.followers)
    ok (map name_of (sort_by number_leb ids))

-- `_drone_names`
unfoldable pub drone_names : ℕ → List String → Result (List String)
drone_names drone_count drones =
    if ltb (length drones) drone_count then err too_few_drones else ok (take drone_count drones)

module _ {F : Type 0} ⦃f : Float F⦄ where
  -- `[wp + Vector3(0.0, i * spacing_m, 0.0) for wp in base_waypoints]`
  unfoldable pub lane : List (Vector3 F) → F → ℕ → List (Vector3 F)
  lane base spacing i =
      map (λ wp. wp +ᵥ vector (f.of_nat 0) (f.mul (f.of_nat i) spacing) (f.of_nat 0)) base

  -- The dict of lanes, from lane `i` on.
  unfoldable pub lanes :
      List (Vector3 F) → F → ℕ → List String → Dict (List (Vector3 F)) → Dict (List (Vector3 F))
  lanes base spacing i [] paths = paths
  lanes base spacing i (d ∷ ds) paths =
      lanes base spacing (i + 1) ds (insert d (lane base spacing i) paths)

  -- `{names[0]: list(base_waypoints)}`
  leader_path : List (Vector3 F) → List String → Result (Dict (List (Vector3 F)))
  leader_path base [] = err too_few_drones
  leader_path base (leader ∷ rest) = ok ((leader, base) ∷ [])

  unfoldable pub plan_swarm_waypoints :
      String → List (Vector3 F) → ℕ → F → List String → Result (Dict (List (Vector3 F)))
  unfolding leader_path
  plan_swarm_waypoints mission_type base drone_count spacing drones = do
    raise_if (ltb drone_count 1) bad_drone_count
    raise_if (num_eq (length base) 0) no_waypoints
    names ← drone_names drone_count drones
    if mission_type == "formation"
        then leader_path base names
        else if mission_type == "waypoint"
        then ok (lanes base spacing 0 names [])
        else err unknown_type

  -- `FORMATIONS[formation](count, spacing_m)`
  unfoldable pub formation_offsets : String → ℕ → F → Result (List (Vector3 F))
  formation_offsets formation count spacing =
      if formation == "line"
      then ok (line_formation count spacing)
      else if formation == "v"
      then ok (v_formation count spacing)
      else err no_such_formation

  -- `for follower, offset in zip(names[1:], offsets, strict=True)`
  unfoldable pub slots :
      String
      → List String
      → List (Vector3 F)
      → Dict (String × Vector3 F)
      → Result (Dict (String × Vector3 F))
  slots leader [] [] followers = ok followers
  slots leader (d ∷ ds) (offset ∷ offsets) followers =
      slots leader ds offsets (insert d (leader, offset) followers)
  slots leader _ _ followers = err too_few_drones

  with_followers : MissionMessage F → List String → Dict (List (Vector3 F)) → Result (MissionPlan F)
  with_followers mission [] paths = err too_few_drones
  with_followers mission (leader ∷ rest) paths = do
    offsets ← formation_offsets mission.formation (mission.drone_count - 1) mission.spacing
    followers ← slots leader rest offsets []
    ok (record { mission_id = mission.mission_id; paths = paths; followers = followers })

  unfoldable pub plan_mission : MissionMessage F → List String → Result (MissionPlan F)
  unfolding with_followers
  plan_mission mission drones = do
    names ← drone_names mission.drone_count drones
    paths ←
        plan_swarm_waypoints mission.mission_type mission.waypoints mission.drone_count
          mission.spacing names
    if mission.mission_type == "formation"
        then with_followers mission names paths
        else ok (record { mission_id = mission.mission_id; paths = paths; followers = [] })
