-- ===== src/Nodes/Aggregator.antt =====
-- nodes/swarm_state_aggregator_node.py: the readings of every drone, and the state of the swarm.
use swarmsim.Base.{none, some, [], ◌∷◌, Bool, String, Option, List}
use swarmsim.Float.{Float}
use swarmsim.Trajectory.{Vector3}
use swarmsim.Dict.{Dict, lookup, insert}
use swarmsim.Errors.{Result, ok, err, no_get}
use swarmsim.Json.{Json, Members, Conversions, object, array, find_member, get, truthy, nil}
use swarmsim.Payloads.{iterate}
use swarmsim.SwarmState.{DroneReadings, StateMessage, battery_percent, build_state_message}
use swarmsim.Ground.{empty_readings}
use swarmsim.Nodes.{id_of, index_of}

pub record Aggregator (F : Type 0) : Type 0 where
  pub readings : Dict (DroneReadings F)
  pub mission_id : Option String
  pub mission_drones : List String

module _ {F : Type 0} where
  unfoldable pub new_aggregator : List String → Aggregator F
  unfolding empty_readings
  new_aggregator drones = record {
    readings = empty_readings drones [];
    mission_id = none;
    mission_drones = [];
  }

  -- The readings of a drone are changed in place; a handler is that of a drone which has some.
  abbrev pub update : Aggregator F → String → (DroneReadings F → DroneReadings F) → Aggregator F
  update a drone change = elim (lookup drone a.readings) [
    | none ↦ a
    | some r ↦ record a { readings = insert drone (change r) a.readings }
  ]

  unfoldable pub on_pose : Aggregator F → String → F → Vector3 F → Aggregator F
  on_pose a drone now position =
      update a drone (λ r. record r { position_world = some position; position_time = some now })

  unfoldable pub on_state : Aggregator F → String → Bool → String → Aggregator F
  on_state a drone armed mode =
      update a drone (λ r. record r { armed = some armed; mode = some mode })

module _ {F : Type 0} ⦃f : Float F⦄ where
  unfoldable pub on_battery : Aggregator F → String → Option F → Aggregator F
  on_battery a drone fraction =
      update a drone (λ r. record r { battery_pct = battery_percent fraction })

  -- A text that is not JSON is ignored; a value with no `get` raises.
  unfoldable pub on_progress :
      Aggregator F → String → Option (Json F) → Aggregator F × Result (Unit {0})
  on_progress a drone none = (a, ok tt)
  on_progress a drone (some (object progress)) = (
    update a drone (λ r. record r {
      mission_id = id_of (get "mission_id" progress);
      waypoint_index = index_of (get "waypoint_index" progress);
      waypoint_count = index_of (get "waypoint_count" progress);
      complete = truthy (get "complete" progress);
    }),
    ok tt,
  )
  on_progress a drone (some _) = (a, err no_get)

  unfoldable pub publish_state : Aggregator F → F → Result (StateMessage F)
  publish_state a now = build_state_message a.readings now a.mission_id a.mission_drones

module _ {F : Type 0} (python : Conversions F) where
  -- `[str(d) for d in drones]`
  unfoldable pub names_of : List (Json F) → List String
  names_of [] = []
  names_of (v ∷ vs) = python.str_of v ∷ names_of vs

  -- `active.get("drones", [])`
  abbrev pub drones_of : Members F → Json F
  drones_of active = elim (find_member "drones" active) [ none ↦ array nil | some v ↦ v ]

  unfoldable pub on_active_mission :
      Aggregator F → Option (Json F) → Aggregator F × Result (Unit {0})
  on_active_mission a none = (a, ok tt)
  on_active_mission a (some (object active)) =
      let a' = record a { mission_id = id_of (get "mission_id" active) } in
      elim (iterate (drones_of active)) [
        | err e ↦ (a', err e)
        | ok drones ↦ (record a' { mission_drones = names_of drones }, ok tt)
      ]
  on_active_mission a (some _) = (a, err no_get)
