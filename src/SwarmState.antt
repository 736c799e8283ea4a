-- ===== src/SwarmState.antt =====
-- swarm_state.py: the swarm's state, as it is published.
pub mod Completion
pub mod Report
use swarmsim.Errors.{◌>>=◌, ok, Result}
use swarmsim.Controller.{is_disarmed}
use swarmsim.Trajectory.{Vector3}
use swarmsim.Float.{Float}
use swarmsim.Dict.{Dict, lookup, keys}
use swarmsim.Base.{
  none, some, true, false, [], ◌∷◌, Option, String, ℕ, Bool, List, if◌then◌else◌, num_eq, ◌||◌,
  same_text, is_text, length, ◌&&◌, map,
}
use swarmsim.Planning.{numbered, number_leb, name_of}
use swarmsim.Fleet.{sort_by}

-- The latest of everything that was heard about one drone.
pub record DroneReadings (F : Type 0) : Type 0 where
  pub position_world : Option (Vector3 F)
  pub position_time : Option F
  pub armed : Option Bool
  pub mode : Option String
  pub battery_pct : Option F
  pub mission_id : Option String
  pub waypoint_index : Option ℕ
  pub waypoint_count : Option ℕ
  pub complete : Bool

pub record DroneState (F : Type 0) : Type 0 where
  pub id : String
  pub position : Vector3 F
  pub armed : Option Bool
  pub mode : Option String
  pub battery_pct : Option F
  pub age : Option F
  pub waypoint_index : Option ℕ
  pub waypoint_count : Option ℕ

pub record MissionState : Type 0 where
  pub id : String
  pub complete : Bool

pub record StateMessage (F : Type 0) : Type 0 where
  pub version : ℕ
  pub frame : String
  pub mission : Option MissionState
  pub drones : List (DroneState F)

module _ {F : Type 0} where
  -- The loop's test for one drone.
  unfoldable pub drone_done : Dict (DroneReadings F) → String → String → Bool
  drone_done readings mission drone = elim (lookup drone readings) [
    | none ↦ false
    | some r ↦ is_text r.mission_id mission && (r.complete && is_disarmed r.armed)
  ]

  pub all_done : Dict (DroneReadings F) → String → List String → Bool
  all_done readings mission [] = true
  all_done readings mission (d ∷ ds) =
      let rest = all_done readings mission ds in
      if drone_done readings mission d then rest else false

  unfoldable pub mission_complete : Dict (DroneReadings F) → String → List String → Bool
  unfolding all_done
  mission_complete readings mission drones =
      if num_eq (length drones) 0 then false else all_done readings mission drones

module _ {F : Type 0} ⦃f : Float F⦄ where
  -- `round(min(fraction, 1.0) * 100.0, 1)`, where the fraction is known.
  unfoldable pub battery_percent : Option F → Option F
  battery_percent none = none
  battery_percent (some fraction) =
      if f.is_nan fraction || f.lt fraction (f.of_nat 0)
      then none
      else some (
          f.round
            (f.mul (if f.lt (f.of_nat 1) fraction then f.of_nat 1 else fraction) (f.of_nat 100)) 1)

  -- `round(max(0.0, now_s - r.position_time_s), 3)`
  unfoldable pub age_of : F → Option F → Option F
  age_of now none = none
  age_of now (some heard) =
      let age = f.sub now heard in
      some (f.round (if f.lt (f.of_nat 0) age then age else f.of_nat 0) 3)

  -- The entry of a drone, if its position is known.
  unfoldable pub drone_state : F → Option String → String → DroneReadings F → Option (DroneState F)
  drone_state now mission d r = elim r.position_world [
    | none ↦ none
    | some position ↦ some (record {
      id = d;
      position = position;
      armed = r.armed;
      mode = r.mode;
      battery_pct = r.battery_pct;
      age = age_of now r.position_time;
      waypoint_index = if same_text r.mission_id mission then r.waypoint_index else none;
      waypoint_count = if same_text r.mission_id mission then r.waypoint_count else none;
    })
  ]

  -- The loop over the drones; each is a key of the readings.
  pub drone_states : F → Option String → Dict (DroneReadings F) → List String → List (DroneState F)
  drone_states now mission readings [] = []
  drone_states now mission readings (d ∷ ds) =
      let rest = drone_states now mission readings ds in
      elim (lookup d readings) [
        | none ↦ rest
        | some r ↦ elim (drone_state now mission d r) [ none ↦ rest | some e ↦ e ∷ rest ]
      ]

  -- `build_state_message`; `mission_drones` is a list, which may be empty.
  unfoldable pub build_state_message :
      Dict (DroneReadings F) → F → Option String → List String → Result (StateMessage F)
  unfolding drone_states
  build_state_message readings now mission mission_drones = do
    ids ← numbered (keys readings)
    ok (record {
      version = 1;
      frame = "world_enu";
      mission = elim mission [
        | none ↦ none
        | some id ↦
            some (record { id = id; complete = mission_complete readings id mission_drones })
      ];
      drones = drone_states now mission readings (map name_of (sort_by number_leb ids));
    })
