-- ===== src/Nodes/Refinement.antt =====
-- The controller's node refines the reference drone: it does the same on the same messages.
use swarmsim.Frames.{world_to_local}
use swarmsim.Base.{
  none, some, inl, inr, refl, [], ◌∷◌, String, Option, List, ◌≡◌, is_text, if◌then◌else◌, ap,
  Bool-cases, sym, ◌∙◌, Option-cases, ◌&&◌, not, ◌==◌, arith, ◌++◌, true, Bool, false,
}
use swarmsim.Float.{Float}
use swarmsim.Trajectory.{Vector3}
use swarmsim.Errors.{ok, Result-cases}
use swarmsim.Json.{Conversions, IsFaithful, find_member, truthy}
use swarmsim.Reference
use swarmsim.Controller
use swarmsim.Controller.{Progress, assign_path, assign_slot, Controller, ControllerOutput}
use swarmsim.Reference.{
  hear_progress, ReferenceDrone, Body, assignment, slot_given, command_given, pose, progress_made,
  telemetry, receive_body, Message, receive, receive_all, same_progress,
}
use swarmsim.Nodes.{progress_value, id_value}
use swarmsim.Nodes.ControllerNode.{
  home, ControllerNode, on_leader_pose, on_leader_progress, Output, setpoint, asked, carry_out,
  publish_progress, ask,
}
use swarmsim.Nodes.Delivery.{
  deliver, Simulates, set_controller, assignment-Simulates, slot-Simulates, command-Simulates,
}
use swarmsim.Vehicle.{Actuation}

module _ {F : Type 0} where
  -- What the node does where the reference drone makes an actuation of the controller's output.
  unfoldable pub asks : Actuation F → List (Output F)
  asks actuation =
      let point : List (Output F) = elim actuation.setpoint_local [
        | none ↦ []
        | some local ↦ setpoint local ∷ []
      ] in
      let mode : List (Output F) = elim actuation.mode_request [
        | none ↦ []
        | some name ↦ asked "mavros/set_mode" name ∷ []
      ] in
      let arm : List (Output F) =
        if actuation.arm_request then asked "mavros/cmd/arming" "arming" ∷ [] else [] in
      point ++ (mode ++ arm)

module _ {F : Type 0} ⦃f : Float F⦄ (python : Conversions F) where
  pose-Simulates :
      (n : ControllerNode F) (d : ReferenceDrone F) (now : F) (sender : String)
      (position : Vector3 F)
      → Simulates python n d
      → Simulates python
          (deliver python n now sender (pose position))
          (receive_body d now sender (pose position)).0
  unfolding deliver receive_body on_leader_pose
  pose-Simulates n d now sender position h =
      let there = ap (λ (l : Option String). is_text l sender) h.same_leader in
      elim (Bool-cases (is_text n.leader sender)) [
        | inr other ↦ rw (other, sym there ∙ other) h
        | inl leads ↦
            rw (leads, sym there ∙ leads)
              (record {
                same_controller = h.same_controller;
                same_leader = h.same_leader;
                same_position = refl;
                same_time = refl;
                same_spawn = h.same_spawn;
                no_height = h.no_height;
              })
      ]

  finished-Simulates :
      (n : ControllerNode F) (d : ReferenceDrone F) (p : Progress)
      → IsFaithful python
      → Simulates python n d
      → Simulates python
          (on_leader_progress python n (some (progress_value p))).0
          (hear_progress d p)
  unfolding on_leader_progress progress_value hear_progress find_member truthy id_value
  finished-Simulates n d p faithful h = elim (Option-cases p.mission_id) [
    | inl e ↦ elim (Bool-cases p.complete) [ inl c ↦ rw (e, c) h | inr c ↦ rw (e, c) h ]
    | inr (mission, e) ↦ elim (Bool-cases (p.complete && not (mission == ""))) [
      | inr off ↦ rw (e, hear_progress, off) h
      | inl on ↦
          rw (e, hear_progress, on, faithful.str_of-text mission)
            (set_controller python n d (Controller.leader_finished n.controller mission)
              (Controller.leader_finished d.controller mission) h
              (ap (λ c. Controller.leader_finished c mission) h.same_controller))
    ]
  ]

  progress-Simulates :
      (n : ControllerNode F) (d : ReferenceDrone F) (now : F) (sender : String) (p : Progress)
      → IsFaithful python
      → Simulates python n d
      → Simulates python
          (deliver python n now sender (progress_made p))
          (receive_body d now sender (progress_made p)).0
  unfolding deliver receive_body
  progress-Simulates n d now sender p faithful h =
      let there = ap (λ (l : Option String). is_text l sender) h.same_leader in
      elim (Bool-cases (is_text n.leader sender)) [
        | inr other ↦ rw (other, sym there ∙ other) h
        | inl leads ↦ rw (leads, sym there ∙ leads) (finished-Simulates n d p faithful h)
      ]

  deliver-Simulates :
      (n : ControllerNode F) (d : ReferenceDrone F) (now : F) (sender : String) (body : Body F)
      → IsFaithful python
      → Simulates python n d
      → Simulates python (deliver python n now sender body) (receive_body d now sender body).0
  unfolding deliver receive_body
  deliver-Simulates n d now sender (assignment mission path) faithful h =
      assignment-Simulates python n d now sender mission path faithful h
  deliver-Simulates n d now sender (slot_given mission leader offset) faithful h =
      slot-Simulates python n d now sender mission leader offset faithful h
  deliver-Simulates n d now sender (command_given name) faithful h =
      command-Simulates python n d now sender name h
  deliver-Simulates n d now sender (pose position) faithful h =
      pose-Simulates n d now sender position h
  deliver-Simulates n d now sender (progress_made p) faithful h =
      progress-Simulates n d now sender p faithful h
  deliver-Simulates n d now sender (telemetry t) faithful h = h

  -- The messages of an inbox, in order.
  unfoldable pub deliver_all : ControllerNode F → F → List (Message F) → ControllerNode F
  deliver_all n now [] = n
  deliver_all n now (m ∷ inbox) = deliver_all (deliver python n now m.sender m.body) now inbox

  pub deliver_all-Simulates :
      (inbox : List (Message F)) (n : ControllerNode F) (d : ReferenceDrone F) (now : F)
      → IsFaithful python
      → Simulates python n d
      → (receive_all d now inbox).1 ≡ ok tt
      → Simulates python (deliver_all n now inbox) (receive_all d now inbox).0
  unfolding deliver_all receive_all receive
  deliver_all-Simulates [] n d now faithful h e = h
  deliver_all-Simulates (m ∷ inbox) n d now faithful h e =
      let h' = deliver-Simulates n d now m.sender m.body faithful h in
      elim (Result-cases (receive_body d now m.sender m.body).1) [
        | inr (x, r) ↦ absurd (ground arith)
        | inl (done, r) ↦
            rw (r, receive_all)
              (deliver_all-Simulates inbox (deliver python n now m.sender m.body)
                (receive_body d now m.sender m.body).0 now faithful h' (rw (r, receive_all) at e))
      ]

  publish-Simulates :
      (n : ControllerNode F) (d : ReferenceDrone F) (only : Bool)
      → Simulates python n d
      → Simulates python (publish_progress n only).0 d
  unfolding publish_progress
  publish-Simulates n d only h =
      elim (Bool-cases (only && same_progress (Controller.progress n.controller) n.last_progress)) [
        | inl same ↦ rw (same) h
        | inr changed ↦ rw (changed) (record {
          same_controller = h.same_controller;
          same_leader = h.same_leader;
          same_position = h.same_position;
          same_time = h.same_time;
          same_spawn = h.same_spawn;
          no_height = h.no_height;
        })
      ]

  -- Where both services are ready, the node carries an output out as the reference drone does, and
  -- publishes its progress if that changed.
  pub carry_out-asks :
      (n : ControllerNode F) (d : ReferenceDrone F) (now : F) (out : ControllerOutput F)
      → Simulates python n d
      → (carry_out n now true true out).1
        ≡ asks (Reference.actuation_of d out) ++ (publish_progress n true).1
  unfolding carry_out asks ask Reference.to_local
  carry_out-asks n d now out h = go out.setpoint out.mode_request out.arm_request
    where
      same :
          (w : Vector3 F)
          → world_to_local w n.spawn (home n) ≡ world_to_local w (d.info).home (f.of_nat 0)
      same w =
          ap (λ s. world_to_local w s (home n)) h.same_spawn
          ∙ ap (λ z. world_to_local w (d.info).home z) h.no_height

      go :
          (point : Option (Vector3 F)) (mode : Option String) (arm : Bool)
          → (carry_out n now true true
              (record { setpoint = point; mode_request = mode; arm_request = arm })).1
            ≡ asks (
                Reference.actuation_of d
                  (record { setpoint = point; mode_request = mode; arm_request = arm }))
              ++ (publish_progress n true).1
      go none none false = refl
      go none none true = refl
      go none (some m) false = refl
      go none (some m) true = refl
      go (some w) none false = rw (same w) refl
      go (some w) none true = rw (same w) refl
      go (some w) (some m) false = rw (same w) refl
      go (some w) (some m) true = rw (same w) refl

  pub carry_out-Simulates :
      (n : ControllerNode F) (d : ReferenceDrone F) (now : F) (out : ControllerOutput F)
      → Simulates python n d
      → Simulates python (carry_out n now true true out).0 d
  unfolding carry_out ask
  carry_out-Simulates n d now out h = go out.setpoint out.mode_request out.arm_request
    where
      go :
          (point : Option (Vector3 F)) (mode : Option String) (arm : Bool)
          → Simulates python
              (carry_out n now true true
                (record { setpoint = point; mode_request = mode; arm_request = arm })).0
              d
      go _ none false = publish-Simulates n d true h
      go _ none true = publish-Simulates n d true h
      go _ (some m) false = publish-Simulates n d true h
      go _ (some m) true = publish-Simulates n d true h
