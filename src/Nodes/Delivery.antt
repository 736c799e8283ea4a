-- ===== src/Nodes/Delivery.antt =====
-- The controller's node (nodes/drone_controller_node.py) next to the reference drone
-- (scenarios/sut.py), which is its wiring without ROS.
use swarmsim.Base.{
  none, some, inl, inr, refl, [], ◌∷◌, String, Option, List, ◌≡◌, is_text, if◌then◌else◌, ap,
  Bool-cases, same_text, sym, ◌∙◌,
}
use swarmsim.Float.{Float}
use swarmsim.Trajectory.{Vector3}
use swarmsim.Errors.{ok, Result-cases}
use swarmsim.Json.{Json, Conversions, IsFaithful, items_of, find_member, array_of}
use swarmsim.Payloads.{
  field, path_of, waypoints_of, waypoint_of, iterate, floats_of, float_of, vector_of,
}
use swarmsim.Reference
use swarmsim.Controller
use swarmsim.Commands.{mode_for_command}
use swarmsim.Controller.{Progress, assign_path, assign_slot, Controller}
use swarmsim.Reference.{
  hear_progress, ReferenceDrone, Body, assignment, slot_given, command_given, pose, progress_made,
  telemetry, receive_body,
}
use swarmsim.Nodes.{path_values, vector_value, progress_value}
use swarmsim.Nodes.Dispatcher.{assignment_value, slot_value}
use swarmsim.Nodes.ControllerNode.{
  home, ControllerNode, on_assignment, on_slot, on_command, on_leader_pose, on_leader_progress,
  follow, assignment_of, slot_of, object_of,
}

module _ {F : Type 0} ⦃f : Float F⦄ (python : Conversions F) where
  -- A path that was dumped is read back.
  vector_back : (v : Vector3 F) → waypoint_of python (vector_value v) ≡ ok v
  unfolding waypoint_of vector_value iterate items_of array_of floats_of float_of vector_of
  vector_back v = refl

  pub path_back : (path : List (Vector3 F)) → waypoints_of python (path_values path) ≡ ok path
  unfolding waypoints_of path_values
  path_back [] = refl
  path_back (w ∷ ws) = rw (vector_back w, path_back ws) refl

  pub items_back : (xs : List (Json F)) → items_of (array_of xs) ≡ xs
  unfolding items_of array_of
  items_back [] = refl
  items_back (x ∷ xs) = ap (λ (ys : List (Json F)). x ∷ ys) (items_back xs)

  pub assignment_back :
      (mission : String) (path : List (Vector3 F))
      → IsFaithful python
      → assignment_of python (some (assignment_value mission path)) ≡ ok (mission, path)
  unfolding assignment_of object_of field find_member path_of iterate
  assignment_back mission path faithful =
      rw (items_back (path_values path), path_back path, faithful.str_of-text mission) refl

  pub slot_back :
      (mission leader : String) (offset : Vector3 F)
      → IsFaithful python
      → slot_of python (some (slot_value mission leader offset)) ≡ ok (mission, leader, offset)
  unfolding slot_of object_of field find_member
  slot_back mission leader offset faithful =
      rw (vector_back offset, faithful.str_of-text mission, faithful.str_of-text leader) refl

  -- The handler that a message reaches: the pose and the progress of the leader only, since the node
  -- subscribes to no other drone's.
  unfoldable pub deliver : ControllerNode F → F → String → Body F → ControllerNode F
  deliver n now sender (assignment mission path) =
      (on_assignment python n (some (assignment_value mission path))).0
  deliver n now sender (slot_given mission leader offset) =
      (on_slot python n (some (slot_value mission leader offset))).0
  deliver n now sender (command_given name) = (on_command n name).0
  deliver n now sender (pose position) =
      if is_text n.leader sender then on_leader_pose n now position else n
  deliver n now sender (progress_made p) =
      if is_text n.leader sender
      then (on_leader_progress python n (some (progress_value p))).0
      else n
  deliver n now sender (telemetry t) = n

  -- The two have the same controller and the same leader, and heard the same of it; the node's
  -- spawn offset is the drone's home, at height 0.
  pub record Simulates (n : ControllerNode F) (d : ReferenceDrone F) : Type 0 where
    pub same_controller : n.controller ≡ d.controller
    pub same_leader : n.leader ≡ d.leader
    pub same_position : n.leader_position ≡ d.leader_position
    pub same_time : n.leader_updated ≡ d.leader_heard
    pub same_spawn : n.spawn ≡ (d.info).home
    pub no_height : home n ≡ f.of_nat 0

  pub follow-Simulates :
      (n : ControllerNode F) (d : ReferenceDrone F) (leader : Option String)
      → Simulates n d
      → Simulates (follow n leader) (Reference.follow d leader)
  unfolding follow Reference.follow
  follow-Simulates n d leader h =
      let there = ap (λ (l : Option String). same_text leader l) h.same_leader in
      elim (Bool-cases (same_text leader n.leader)) [
        | inl same ↦ rw (same, sym there ∙ same) h
        | inr other ↦
            rw (other, sym there ∙ other)
              (record {
                same_controller = h.same_controller;
                same_leader = refl;
                same_position = refl;
                same_time = refl;
                same_spawn = h.same_spawn;
                no_height = h.no_height;
              })
      ]

  pub set_controller :
      (n : ControllerNode F) (d : ReferenceDrone F) (c c' : Controller F)
      → Simulates n d
      → c ≡ c'
      → Simulates (record n { controller = c }) (record d { controller = c' })
  set_controller n d c c' h e = record {
    same_controller = e;
    same_leader = h.same_leader;
    same_position = h.same_position;
    same_time = h.same_time;
    same_spawn = h.same_spawn;
    no_height = h.no_height;
  }

  -- The two on an assignment, a slot and a command.
  pub assignment-Simulates :
      (n : ControllerNode F) (d : ReferenceDrone F) (now : F) (sender mission : String)
      (path : List (Vector3 F))
      → IsFaithful python
      → Simulates n d
      → Simulates
          (deliver n now sender (assignment mission path))
          (receive_body d now sender (assignment mission path)).0
  unfolding deliver receive_body on_assignment assign_path
  assignment-Simulates n d now sender mission [] faithful h =
      rw (assignment_back mission [] faithful, deliver, on_assignment)
        (set_controller n d n.controller d.controller h h.same_controller)
  assignment-Simulates n d now sender mission (w ∷ ws) faithful h =
      rw (assignment_back mission (w ∷ ws) faithful, deliver, on_assignment)
        (follow-Simulates _ _ none (
          set_controller n d (assign_path n.controller mission (w ∷ ws)).0
            (assign_path d.controller mission (w ∷ ws)).0 h
            (ap (λ c. (assign_path c mission (w ∷ ws)).0) h.same_controller)))

  pub slot-Simulates :
      (n : ControllerNode F) (d : ReferenceDrone F) (now : F) (sender mission leader : String)
      (offset : Vector3 F)
      → IsFaithful python
      → Simulates n d
      → Simulates
          (deliver n now sender (slot_given mission leader offset))
          (receive_body d now sender (slot_given mission leader offset)).0
  unfolding deliver receive_body on_slot
  slot-Simulates n d now sender mission leader offset faithful h =
      rw (slot_back mission leader offset faithful, deliver, on_slot)
        (follow-Simulates _ _ (some leader) (
          set_controller n d (assign_slot n.controller mission leader offset)
            (assign_slot d.controller mission leader offset) h
            (ap (λ c. assign_slot c mission leader offset) h.same_controller)))

  pub command-Simulates :
      (n : ControllerNode F) (d : ReferenceDrone F) (now : F) (sender name : String)
      → Simulates n d
      → Simulates
          (deliver n now sender (command_given name))
          (receive_body d now sender (command_given name)).0
  unfolding deliver receive_body on_command Controller.command
  command-Simulates n d now sender name h = elim (Result-cases (mode_for_command name)) [
    | inr (e, r) ↦ rw (r, deliver, receive_body, on_command) kept
    | inl (mode, r) ↦ rw (r, deliver, receive_body, on_command) (follow-Simulates _ _ none kept)
  ]
    where
      kept :
          Simulates
            (record n { controller = (Controller.command n.controller name).0 })
            (record d { controller = (Controller.command d.controller name).0 })
      kept =
          set_controller n d (Controller.command n.controller name).0
            (Controller.command d.controller name).0 h
            (ap (λ c. (Controller.command c name).0) h.same_controller)
