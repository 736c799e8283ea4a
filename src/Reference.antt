-- ===== src/Reference.antt =====
-- scenarios/sut.py: the reference swarm's drone, which wires a DroneController to its vehicle and
-- to the messages of the swarm. A method returns the new drone with its result.
pub mod Wiring
pub mod Overrides
pub mod Chatter
use swarmsim.Frames.{local_to_world, world_to_local}
use swarmsim.Trajectory.{Vector3}
use swarmsim.Float.{Float}
use swarmsim.Errors.{Result, err, ok}
use swarmsim.Base.{
  none, some, true, false, [], ◌∷◌, Option, String, if◌then◌else◌, List, ℕ, Bool, same_text, ◌&&◌,
  ◌++◌, num_eq, ◌||◌, not, is_text, ◌==◌,
}
use swarmsim.Controller
use swarmsim.Controller.{Controller, Progress, ControllerOutput}
use swarmsim.Vehicle.{Actuation, Observation}

pub record Telemetry (F : Type 0) : Type 0 where
  pub position : Option (Vector3 F)
  pub armed : Bool
  pub mode : String
  pub battery_pct : F

-- A message's topic and body.
pub data Body (F : Type 0) : Type 0 where
  assignment : String → List (Vector3 F) → Body F
  slot_given : String → String → Vector3 F → Body F
  command_given : String → Body F
  pose : Vector3 F → Body F
  progress_made : Progress → Body F
  telemetry : Telemetry F → Body F

pub record Message (F : Type 0) : Type 0 where
  pub sender : String
  pub recipient : String
  pub body : Body F

pub record DroneInfo (F : Type 0) : Type 0 where
  pub drone_id : String
  pub home : Vector3 F

pub record ReferenceDrone (F : Type 0) : Type 0 where
  pub info : DroneInfo F
  pub controller : Controller F
  pub leader : Option String
  pub leader_position : Option (Vector3 F)
  pub leader_heard : Option F
  pub last_progress : Option Progress
  pub progress_sent : Option F

abbrev same_number : Option ℕ → Option ℕ → Bool
same_number none none = true
same_number none (some n) = false
same_number (some m) none = false
same_number (some m) (some n) = num_eq m n

-- `a == b` of two progress reports, where there may be no last one
unfoldable pub same_progress : Progress → Option Progress → Bool
same_progress p none = false
same_progress p (some q) =
    same_text p.mission_id q.mission_id
    && (same_number p.waypoint_index q.waypoint_index
        && (same_number p.waypoint_count q.waypoint_count
            && ((p.complete && q.complete) || not (p.complete || q.complete))))

module _ {F : Type 0} where
  -- `ReferenceDrone(info, controller)`
  unfoldable pub new_drone : DroneInfo F → Controller F → ReferenceDrone F
  new_drone info controller = record {
    info = info;
    controller = controller;
    leader = none;
    leader_position = none;
    leader_heard = none;
    last_progress = none;
    progress_sent = none;
  }

  -- `_follow`
  unfoldable pub follow : ReferenceDrone F → Option String → ReferenceDrone F
  follow d leader =
      if same_text leader d.leader
      then d
      else record d { leader = leader; leader_position = none; leader_heard = none }

  -- `if body.get("complete") and body.get("mission_id")`
  unfoldable pub hear_progress : ReferenceDrone F → Progress → ReferenceDrone F
  hear_progress d p = elim p.mission_id [
    | none ↦ d
    | some mission ↦
        if p.complete && not (mission == "")
        then record d { controller = Controller.leader_finished d.controller mission }
        else d
  ]

  -- `_receive`; where the controller raises, the drone follows whom it did before.
  unfoldable pub receive_body :
      ReferenceDrone F → F → String → Body F → ReferenceDrone F × Result (Unit {0})
  receive_body d now sender (assignment mission waypoints) =
      let (c, result) = Controller.assign_path d.controller mission waypoints in
      let d' = record d { controller = c } in
      elim result [ err e ↦ (d', err e) | ok done ↦ (follow d' none, ok done) ]
  receive_body d now sender (slot_given mission leader offset) =
      let c = Controller.assign_slot d.controller mission leader offset in
      (follow (record d { controller = c }) (some leader), ok tt)
  receive_body d now sender (command_given name) =
      let (c, result) = Controller.command d.controller name in
      let d' = record d { controller = c } in
      elim result [ err e ↦ (d', err e) | ok done ↦ (follow d' none, ok done) ]
  receive_body d now sender (pose position) = (
    if is_text d.leader sender
        then record d { leader_position = some position; leader_heard = some now }
        else d,
    ok tt,
  )
  receive_body d now sender (progress_made p) =
      (if is_text d.leader sender then hear_progress d p else d, ok tt)
  receive_body d now sender (telemetry t) = (d, ok tt)

  unfoldable pub receive : ReferenceDrone F → F → Message F → ReferenceDrone F × Result (Unit {0})
  unfolding receive_body
  receive d now message = receive_body d now message.sender message.body

  -- The loop over the inbox, which a message that raises ends.
  unfoldable pub receive_all :
      ReferenceDrone F → F → List (Message F) → ReferenceDrone F × Result (Unit {0})
  receive_all d now [] = (d, ok tt)
  receive_all d now (message ∷ inbox) =
      let (d', result) = receive d now message in
      let rest = receive_all d' now inbox in elim result [ err e ↦ (d', err e) | ok done ↦ rest ]

module _ {F : Type 0} ⦃f : Float F⦄ where
  -- `to_world` and `to_local`; the height of the home is 0.
  unfoldable pub to_world : ReferenceDrone F → Option (Vector3 F) → Option (Vector3 F)
  to_world d none = none
  to_world d (some local) = some (local_to_world local (d.info).home (f.of_nat 0))

  unfoldable pub to_local : ReferenceDrone F → Option (Vector3 F) → Option (Vector3 F)
  to_local d none = none
  to_local d (some world) = some (world_to_local world (d.info).home (f.of_nat 0))

  -- What the controller reads on a step.
  abbrev pub reading_of : ReferenceDrone F → F → Observation F → Controller.Reading F
  reading_of d now seen = record {
    now = now;
    position = to_world d seen.local_position;
    armed = some seen.armed;
    mode = some seen.mode;
    leader_position = d.leader_position;
    leader_updated = d.leader_heard;
  }

  abbrev pub actuation_of : ReferenceDrone F → ControllerOutput F → Actuation F
  actuation_of d out = record {
    setpoint_local = to_local d out.setpoint;
    mode_request = out.mode_request;
    arm_request = out.arm_request;
  }

  -- `PROGRESS_PERIOD_S` is 1.0.
  unfoldable pub progress_is_due : ReferenceDrone F → F → Progress → Bool
  progress_is_due d now p =
      not (same_progress p d.last_progress)
      || elim d.progress_sent [ none ↦ true | some sent ↦ f.le (f.of_nat 1) (f.sub now sent) ]

  -- The messages of a step, after the controller's tick.
  unfoldable pub send : ReferenceDrone F → F → Observation F → ReferenceDrone F × List (Message F)
  send d now seen =
      let me = (d.info).drone_id in
      let world = to_world d seen.local_position in
      let p = Controller.progress d.controller in
      let due = progress_is_due d now p in
      (
        if due then record d { last_progress = some p; progress_sent = some now } else d,
        elim world [
          | none ↦ []
          | some position ↦ record { sender = me; recipient = "*"; body = pose position } ∷ []
        ]
            ++ ((if due
                  then record { sender = me; recipient = "*"; body = progress_made p } ∷ []
                  else [])
                ++ record {
                  sender = me;
                  recipient = "ground";
                  body = telemetry (record {
                    position = world;
                    armed = seen.armed;
                    mode = seen.mode;
                    battery_pct = seen.battery_pct;
                  });
                }
                  ∷ []),
      )

  -- `ReferenceDrone.step`
  unfoldable pub step :
      ReferenceDrone F
      → F
      → Observation F
      → List (Message F)
      → ReferenceDrone F × Result (Actuation F × List (Message F))
  unfolding receive_all
  step d now seen inbox =
      let (d₁, heard) = receive_all d now inbox in
      let (c, ticked) = Controller.tick d₁.controller (reading_of d₁ now seen) in
      let d₂ = record d₁ { controller = c } in
      let (d₃, outbox) = send d₂ now seen in
      elim heard [
        | err e ↦ (d₁, err e)
        | ok done ↦ elim ticked [
          | err e ↦ (d₂, err e)
          | ok out ↦ (d₃, ok (actuation_of d₂ out, outbox))
        ]
      ]
