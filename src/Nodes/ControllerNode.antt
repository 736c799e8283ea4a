-- ===== src/Nodes/ControllerNode.antt =====
-- nodes/drone_controller_node.py: a drone's controller behind the topics of its namespace.

use swarmsim.Base.{
  none, some, true, [], ◌∷◌, Bool, String, Option, List, ◌++◌, same_text, if◌then◌else◌, ◌&&◌,
}
use swarmsim.Float.{Float}
use swarmsim.Trajectory.{Vector3}
use swarmsim.Frames.{local_to_world, world_to_local}
use swarmsim.Dict.{Dict, lookup, insert}
use swarmsim.Errors.{Result, Error, ok, err, ◌>>=◌, not_json, malformed_field, no_get}
use swarmsim.Json.{Json, Members, Conversions, object, get, truthy}
use swarmsim.Payloads.{field, path_of, waypoint_of}
use swarmsim.Controller
use swarmsim.Controller.{Controller, Progress, ControllerOutput, assign_path, assign_slot}
use swarmsim.Reference.{same_progress}

-- What the node publishes, asks PX4 for and logs, in its order.
pub data Output (F : Type 0) : Type 0 where
  world_pose setpoint : Vector3 F → Output F
  progress_sent : Progress → Output F
  asked : String → String → Output F
  warned : String → Output F
  refused : Error → Output F

pub record ControllerNode (F : Type 0) : Type 0 where
  pub spawn : Vector3 F
  pub controller : Controller F
  pub position : Option (Vector3 F)
  pub home_height : Option F
  pub armed : Option Bool
  pub mode : Option String
  pub leader : Option String
  pub leader_position : Option (Vector3 F)
  pub leader_updated : Option F
  pub last_progress : Option Progress
  pub last_warning : Dict F

module _ {F : Type 0} where
  unfoldable pub new_node : Vector3 F → Controller F → ControllerNode F
  new_node spawn controller = record {
    spawn = spawn;
    controller = controller;
    position = none;
    home_height = none;
    armed = none;
    mode = none;
    leader = none;
    leader_position = none;
    leader_updated = none;
    last_progress = none;
    last_warning = [];
  }

  unfoldable pub on_state : ControllerNode F → Bool → String → ControllerNode F
  on_state n armed mode = record n { armed = some armed; mode = some mode }

  unfoldable pub on_home : ControllerNode F → F → ControllerNode F
  on_home n z = record n { home_height = some z }

  -- `_follow`: the subscriptions are those of `leader`.
  unfoldable pub follow : ControllerNode F → Option String → ControllerNode F
  follow n leader =
      if same_text leader n.leader
      then n
      else record n { leader = leader; leader_position = none; leader_updated = none }

  unfoldable pub on_leader_pose : ControllerNode F → F → Vector3 F → ControllerNode F
  on_leader_pose n now position = record n {
    leader_position = some position;
    leader_updated = some now;
  }

  -- `json.loads(...)[key]` of what is no dict is a TypeError.
  unfoldable pub object_of : Option (Json F) → Result (Members F)
  object_of none = err not_json
  object_of (some (object d)) = ok d
  object_of (some _) = err malformed_field

  -- `name` is `msg.data.strip()`; a ValueError is logged.
  unfoldable pub on_command : ControllerNode F → String → ControllerNode F × List (Output F)
  on_command n name =
      let (c, result) = Controller.command n.controller name in
      let n' = record n { controller = c } in
      elim result [ err e ↦ (n', refused e ∷ []) | ok done ↦ (follow n' none, []) ]

  -- `_publish_progress`
  unfoldable pub publish_progress : ControllerNode F → Bool → ControllerNode F × List (Output F)
  publish_progress n only_if_changed =
      let p = Controller.progress n.controller in
      if only_if_changed && same_progress p n.last_progress
      then (n, [])
      else (record n { last_progress = some p }, progress_sent p ∷ [])

module _ {F : Type 0} ⦃f : Float F⦄ where
  -- `self._home_height or 0.0`, where adding or subtracting -0.0 is adding or subtracting 0.0
  abbrev pub home : ControllerNode F → F
  home n = elim n.home_height [ none ↦ f.of_nat 0 | some z ↦ z ]

  unfoldable pub on_local_pose : ControllerNode F → Vector3 F → ControllerNode F × List (Output F)
  on_local_pose n local =
      let position = local_to_world local n.spawn (home n) in
      (record n { position = some position }, world_pose position ∷ [])

  -- `_warn_every`, where nothing was warned of a key before the first time
  unfoldable pub warn_every : ControllerNode F → F → F → String → ControllerNode F × List (Output F)
  warn_every n now period key =
      if elim (lookup key n.last_warning) [ none ↦ true | some last ↦ f.le period (f.sub now last) ]
      then (record n { last_warning = insert key now n.last_warning }, warned key ∷ [])
      else (n, [])

  -- `_ask`, of a service that is ready or not
  unfoldable pub ask :
      ControllerNode F → F → Bool → String → String → ControllerNode F × List (Output F)
  ask n now ready service what =
      if ready then (n, asked service what ∷ []) else warn_every n now (f.of_nat 5) service

  -- `_on_answer`: the request is known to be accepted, or not.
  unfoldable pub on_answer :
      ControllerNode F → F → String → Bool → ControllerNode F × List (Output F)
  on_answer n now what accepted = if accepted then (n, []) else warn_every n now (f.of_nat 5) what

  -- What the controller reads on a tick.
  abbrev pub reading_of : ControllerNode F → F → Controller.Reading F
  reading_of n now = record {
    now = now;
    position = n.position;
    armed = n.armed;
    mode = n.mode;
    leader_position = n.leader_position;
    leader_updated = n.leader_updated;
  }

  -- `_on_tick`, after the controller's own: `modes` and `arming` say whether the services are ready.
  unfoldable pub carry_out :
      ControllerNode F → F → Bool → Bool → ControllerOutput F → ControllerNode F × List (Output F)
  carry_out n now modes arming out =
      let point : List (Output F) = elim out.setpoint [
        | none ↦ []
        | some world ↦ setpoint (world_to_local world n.spawn (home n)) ∷ []
      ] in
      let (n₁, mode_asked) = elim out.mode_request as (λ r. ControllerNode F × List (Output F)) [
        | none ↦ (n, [])
        | some mode ↦ ask n now modes "mavros/set_mode" mode
      ] in
      let (n₂, arm_asked) =
        if out.arm_request then ask n₁ now arming "mavros/cmd/arming" "arming" else (n₁, []) in
      let (n₃, told) = publish_progress n₂ true in
      (n₃, point ++ (mode_asked ++ (arm_asked ++ told)))

  unfoldable pub on_tick :
      ControllerNode F → F → Bool → Bool → ControllerNode F × Result (List (Output F))
  on_tick n now modes arming =
      let (c, ticked) = Controller.tick n.controller (reading_of n now) in
      let n' = record n { controller = c } in
      elim ticked [
        | err e ↦ (n', err e)
        | ok out ↦ let (n'', outputs) = carry_out n' now modes arming out in (n'', ok outputs)
      ]

module _ {F : Type 0} ⦃f : Float F⦄ (python : Conversions F) where
  -- `except (KeyError, TypeError, ValueError)`
  abbrev pub rejected : ControllerNode F → Error → ControllerNode F × List (Output F)
  rejected n e = (n, refused e ∷ [])

  -- The mission and the waypoints of an assignment.
  unfoldable pub assignment_of : Option (Json F) → Result (String × List (Vector3 F))
  assignment_of message = object_of message >>= λ payload. field "waypoints" payload >>= λ path.
      path_of python path >>= λ waypoints.
      field "mission_id" payload >>= λ mission. ok (python.str_of mission, waypoints)

  unfoldable pub on_assignment :
      ControllerNode F → Option (Json F) → ControllerNode F × List (Output F)
  on_assignment n message = elim (assignment_of message) [
    | err e ↦ rejected n e
    | ok (mission, waypoints) ↦
        let (c, result) = assign_path n.controller mission waypoints in
        let n' = record n { controller = c } in
        elim result [ err e ↦ rejected n' e | ok done ↦ (follow n' none, []) ]
  ]

  -- The mission, the leader and the offset of a slot.
  unfoldable pub slot_of : Option (Json F) → Result (String × String × Vector3 F)
  slot_of message = object_of message >>= λ payload. field "offset" payload >>= λ place.
      waypoint_of python place >>= λ offset. field "leader" payload >>= λ leader.
      field "mission_id" payload >>= λ mission.
      ok (python.str_of mission, python.str_of leader, offset)

  unfoldable pub on_slot : ControllerNode F → Option (Json F) → ControllerNode F × List (Output F)
  on_slot n message = elim (slot_of message) [
    | err e ↦ rejected n e
    | ok (mission, leader, offset) ↦ (
      follow (record n { controller = assign_slot n.controller mission leader offset })
          (some leader),
      [],
    )
  ]

  -- A text that is not JSON is ignored; a value with no `get` raises.
  unfoldable pub on_leader_progress :
      ControllerNode F → Option (Json F) → ControllerNode F × Result (Unit {0})
  on_leader_progress n none = (n, ok tt)
  on_leader_progress n (some (object progress)) =
      let mission = get "mission_id" progress in
      (
        if truthy (get "complete" progress) && truthy mission
            then record n {
              controller = Controller.leader_finished n.controller (python.str_of mission);
            }
            else n,
        ok tt,
      )
  on_leader_progress n (some _) = (n, err no_get)
