-- ===== src/Nodes/Dispatcher.antt =====
-- nodes/mission_dispatcher_node.py: the supervisor behind the topics of the swarm.
use swarmsim.Trajectory.{Vector3}
use swarmsim.Base.{none, some, [], ◌∷◌, String, Option, List, ◌++◌, contains, if◌then◌else◌, ℕ}
use swarmsim.Int.{ℤ, pos, negsuc}
use swarmsim.Float.{Float}
use swarmsim.Errors.{Result, Error, ok, err, is_value_error}
use swarmsim.Json.{Json, Conversions, text, object, array, member, end, get, array_of, truthy}
use swarmsim.Planning.{MissionMessage}
use swarmsim.Payloads.{ParsedMission, parse_mission_payload, parse_command_payload}
use swarmsim.Supervisor.State.{
  Supervisor, Action, assign, slot, command_drone, active_mission, rejected, task_dropped,
  new_supervisor, observe_battery, observe_progress,
}
use swarmsim.Supervisor.Start.{start, command}
use swarmsim.Supervisor.Reallocate.{reallocate}
use swarmsim.SwarmState.{battery_percent}
use swarmsim.Nodes.{
  Content, Publication, plain, dumped, topic_of, id_of, index_of, vector_value, path_values,
  text_values, id_value,
}

-- A line of the node's log.
pub data Line (F : Type 0) : Type 0 where
  mission_refused command_refused : Error → Line F
  command_sent : String → Line F
  flown : String → List String → Line F
  noted : Action F → Line F

-- `topics` are those that it has publishers for.
pub record Dispatcher (F : Type 0) : Type 0 where
  pub drones : List String
  pub supervisor : Supervisor F
  pub topics : List String
  pub published : List (Publication F)
  pub log : List (Line F)

-- A `drone_count` below 0 is refused as 0 is: the supervisor only compares it with the number of
-- drones that are fit, and the planner raises where it is below 1.
abbrev pub count_of : ℤ → ℕ
count_of (pos n) = n
count_of (negsuc n) = 0

module _ {F : Type 0} where
  -- `_publisher`
  unfoldable pub publisher : Dispatcher F → String → Dispatcher F
  publisher d topic =
      if contains topic d.topics then d else record d { topics = d.topics ++ topic ∷ [] }

  -- `_send`
  unfoldable pub send : Dispatcher F → String → Content F → Dispatcher F
  unfolding publisher
  send d topic content =
      let d' = publisher d topic in
      record d' { published = d.published ++ record { topic = topic; content = content } ∷ [] }

  abbrev pub write_log : Dispatcher F → Line F → Dispatcher F
  write_log d line = record d { log = d.log ++ line ∷ [] }

  -- What is published of an action for a drone.
  abbrev pub assignment_value : String → List (Vector3 F) → Json F
  assignment_value mission path = object (
      member "mission_id" (text mission)
        (member "waypoints" (array (array_of (path_values path))) end))

  abbrev pub slot_value : String → String → Vector3 F → Json F
  slot_value mission leader offset = object (
      member "mission_id" (text mission)
        (member "leader" (text leader) (member "offset" (vector_value offset) end)))

  abbrev pub active_value : Option String → List String → Json F
  active_value id drones = object (
      member "mission_id" (id_value id)
        (member "drones" (array (array_of (text_values drones))) end))

  -- The body of the loop of `_carry_out`.
  unfoldable pub carry_out_one : Dispatcher F → Action F → Dispatcher F
  carry_out_one d (assign drone mission path) =
      send d (topic_of drone "mission/assignment") (dumped (assignment_value mission path))
  carry_out_one d (slot drone mission leader offset) =
      send d (topic_of drone "mission/slot") (dumped (slot_value mission leader offset))
  carry_out_one d (command_drone drone name) =
      send d (topic_of drone "mission/command") (plain name)
  carry_out_one d (active_mission id drones) =
      let d' = record d {
        published =
            d.published
            ++ record { topic = "/swarm/active_mission"; content = dumped (active_value id drones) }
              ∷ [];
      } in
      elim id [ none ↦ d' | some mission ↦ write_log d' (flown mission drones) ]
  carry_out_one d (rejected mission reason) = write_log d (noted (rejected mission reason))
  carry_out_one d (task_dropped drone mission reason) =
      write_log d (noted (task_dropped drone mission reason))

  -- `_carry_out`
  unfoldable pub carry_out : Dispatcher F → List (Action F) → Dispatcher F
  carry_out d [] = d
  carry_out d (action ∷ actions) = carry_out (carry_out_one d action) actions

  abbrev pub mission_of : ParsedMission F → MissionMessage F
  mission_of p = record {
    mission_id = p.mission_id;
    mission_type = p.mission_type;
    formation = p.formation;
    waypoints = p.waypoints;
    drone_count = count_of p.drone_count;
    spacing = p.spacing;
  }

  -- The publishers of every drone, from the start.
  unfoldable pub add_publishers : List String → Dispatcher F → Dispatcher F
  add_publishers [] d = d
  add_publishers (drone ∷ drones) d = add_publishers drones (
      publisher
        (publisher (publisher d (topic_of drone "mission/assignment"))
          (topic_of drone "mission/slot"))
        (topic_of drone "mission/command"))

module _ {F : Type 0} ⦃f : Float F⦄ where
  -- `__init__`, with its two parameters
  unfoldable pub new_dispatcher : List String → F → Dispatcher F
  new_dispatcher drones threshold =
      carry_out
        (add_publishers drones (record {
          drones = drones;
          supervisor = new_supervisor drones threshold none;
          topics = [];
          published = [];
          log = [];
        }))
        (active_mission none [] ∷ [])

  unfoldable pub on_battery : Dispatcher F → String → Option F → Dispatcher F
  on_battery d drone fraction = record d {
    supervisor = observe_battery d.supervisor drone (battery_percent fraction);
  }

  -- What is no JSON object is ignored.
  unfoldable pub on_progress : Dispatcher F → String → Option (Json F) → Dispatcher F
  on_progress d drone (some (object progress)) = record d {
    supervisor =
        observe_progress d.supervisor drone (id_of (get "mission_id" progress))
          (index_of (get "waypoint_index" progress)) (truthy (get "complete" progress));
  }
  on_progress d drone _ = d

  -- `_reallocate`
  unfoldable pub on_period : Dispatcher F → Dispatcher F
  on_period d =
      let (s, actions) = reallocate d.supervisor in carry_out (record d { supervisor = s }) actions

module _ {F : Type 0} ⦃f : Float F⦄ (python : Conversions F) where
  -- A ValueError of the parser is logged; any other leaves the handler, as one of the supervisor does.
  unfoldable pub on_mission : Dispatcher F → Option (Json F) → Dispatcher F × Result (Unit {0})
  on_mission d message = elim (parse_mission_payload python message) [
    | err e ↦ if is_value_error e then (write_log d (mission_refused e), ok tt) else (d, err e)
    | ok mission ↦
        let (s, planned) = start d.supervisor (mission_of mission) in
        let d' = record d { supervisor = s } in
        elim planned [ err e ↦ (d', err e) | ok actions ↦ (carry_out d' actions, ok tt) ]
  ]

  unfoldable pub on_command : Dispatcher F → Option (Json F) → Dispatcher F × Result (Unit {0})
  on_command d message = elim (parse_command_payload python message) [
    | err e ↦ if is_value_error e then (write_log d (command_refused e), ok tt) else (d, err e)
    | ok asked ↦
        let (s, actions) = command d.supervisor asked in
        (
          write_log (carry_out (record d { supervisor = s }) actions) (command_sent asked.command),
          ok tt,
        )
  ]
