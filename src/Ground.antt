-- ===== src/Ground.antt =====
-- scenarios/sut.py: the reference swarm's ground, which wires the supervisor and the swarm state to
-- the messages of the swarm. A method returns the new ground with its result. A payload comes as
-- what its parser ends in.
pub mod Announcements
pub mod Changes
pub mod Tells
pub mod Reports
pub mod Orders
use swarmsim.Trajectory.{Vector3}
use swarmsim.Planning.{CommandMessage, MissionMessage}
use swarmsim.Float.{Float}
use swarmsim.Dict.{Dict, lookup, insert}
use swarmsim.Errors.{Error, Result, is_value_error, err, ok}
use swarmsim.Base.{none, some, true, false, [], ◌∷◌, List, Option, String, if◌then◌else◌, ◌++◌}
use swarmsim.Supervisor.State.{
  Supervisor, Action, assign, slot, command_drone, active_mission, rejected, task_dropped,
  observe_battery, observe_position, observe_progress,
}
use swarmsim.Supervisor.Start.{start, command}
use swarmsim.Supervisor.Reallocate.{reallocate}
use swarmsim.Reference.{
  Message, Body, Telemetry, assignment, slot_given, command_given, pose, progress_made, telemetry,
}
use swarmsim.SwarmState.{DroneReadings, StateMessage, build_state_message}
use swarmsim.Controller

-- An entry of the log; the source says each as a text.
pub data Logged (F : Type 0) : Type 0 where
  mission_refused : Error → Logged F
  command_refused : Error → Logged F
  noted : Action F → Logged F

pub record ReferenceGround (F : Type 0) : Type 0 where
  pub supervisor : Supervisor F
  pub readings : Dict (DroneReadings F)
  pub pending : List (Action F)
  pub active_id : Option String
  pub active_drones : List String
  pub now : F
  pub reallocated : Option F
  pub log : List (Logged F)

module _ {F : Type 0} where
  -- `DroneReadings()`
  abbrev pub no_readings : DroneReadings F
  no_readings = record {
    position_world = none;
    position_time = none;
    armed = none;
    mode = none;
    battery_pct = none;
    mission_id = none;
    waypoint_index = none;
    waypoint_count = none;
    complete = false;
  }

  unfoldable pub empty_readings : List String → Dict (DroneReadings F) → Dict (DroneReadings F)
  empty_readings [] readings = readings
  empty_readings (d ∷ ds) readings = empty_readings ds (insert d no_readings readings)

  -- `except ValueError`: noted, or passed on
  abbrev pub caught : ReferenceGround F → Error → Logged F → ReferenceGround F × Result (Unit {0})
  caught g e entry =
      if is_value_error e then (record g { log = g.log ++ entry ∷ [] }, ok tt) else (g, err e)

  -- `_carry_out`
  unfoldable pub carry_out : ReferenceGround F → Action F → ReferenceGround F × List (Message F)
  carry_out g (assign d mission path) =
      (g, record { sender = "ground"; recipient = d; body = assignment mission path } ∷ [])
  carry_out g (slot d mission leader offset) =
      (g, record { sender = "ground"; recipient = d; body = slot_given mission leader offset } ∷ [])
  carry_out g (command_drone d name) =
      (g, record { sender = "ground"; recipient = d; body = command_given name } ∷ [])
  carry_out g (active_mission id drones) = (record g { active_id = id; active_drones = drones }, [])
  carry_out g (rejected mission reason) =
      (record g { log = g.log ++ noted (rejected mission reason) ∷ [] }, [])
  carry_out g (task_dropped d mission reason) =
      (record g { log = g.log ++ noted (task_dropped d mission reason) ∷ [] }, [])

  unfoldable pub carry_out_all :
      ReferenceGround F → List (Action F) → ReferenceGround F × List (Message F)
  carry_out_all g [] = (g, [])
  carry_out_all g (action ∷ actions) =
      let (g', sent) = carry_out g action in
      let (g'', rest) = carry_out_all g' actions in (g'', sent ++ rest)

module _ {F : Type 0} ⦃f : Float F⦄ where
  -- `ReferenceGround(fleet, supervisor)`, with the ids of the fleet
  unfoldable pub new_ground : List String → Supervisor F → ReferenceGround F
  unfolding empty_readings
  new_ground fleet supervisor = record {
    supervisor = supervisor;
    readings = empty_readings fleet [];
    pending = [];
    active_id = none;
    active_drones = [];
    now = f.of_nat 0;
    reallocated = none;
    log = [];
  }

  unfoldable pub submit_command :
      ReferenceGround F → Result CommandMessage → ReferenceGround F × Result (Unit {0})
  submit_command g (err e) = caught g e (command_refused e)
  submit_command g (ok message) =
      let (s, actions) = command g.supervisor message in
      (record g { supervisor = s; pending = g.pending ++ actions }, ok tt)

  unfoldable pub submit_mission :
      ReferenceGround F → Result (MissionMessage F) → ReferenceGround F × Result (Unit {0})
  submit_mission g (err e) = caught g e (mission_refused e)
  submit_mission g (ok mission) =
      let (s, planned) = start g.supervisor mission in
      let g' = record g { supervisor = s } in
      elim planned [
        | err e ↦ caught g' e (mission_refused e)
        | ok actions ↦ (record g' { pending = g.pending ++ actions }, ok tt)
      ]

  -- The position that a telemetry message may have.
  unfoldable pub place : DroneReadings F → F → Option (Vector3 F) → DroneReadings F
  place r now none = r
  place r now (some p) = record r { position_world = some p; position_time = some now }

  -- What a message changes, where `r` is the reading of its sender.
  hear_body : ReferenceGround F → F → String → DroneReadings F → Body F → ReferenceGround F
  hear_body g now sender r (telemetry t) =
      let placed = place r now t.position in
      record g {
        readings =
            insert sender
              (record placed {
                armed = some t.armed;
                mode = some t.mode;
                battery_pct = some t.battery_pct;
              })
              g.readings;
        supervisor =
            observe_position (observe_battery g.supervisor sender (some t.battery_pct)) sender
              t.position;
      }
  hear_body g now sender r (progress_made p) = record g {
    readings =
        insert sender
          (record r {
            mission_id = p.mission_id;
            waypoint_index = p.waypoint_index;
            waypoint_count = p.waypoint_count;
            complete = p.complete;
          })
          g.readings;
    supervisor = observe_progress g.supervisor sender p.mission_id p.waypoint_index p.complete;
  }
  hear_body g now sender r _ = g

  unfoldable pub hear : ReferenceGround F → F → Message F → ReferenceGround F
  unfolding hear_body
  hear g now message = elim (lookup message.sender g.readings) [
    | none ↦ g
    | some r ↦ hear_body g now message.sender r message.body
  ]

  unfoldable pub hear_all : ReferenceGround F → F → List (Message F) → ReferenceGround F
  hear_all g now [] = g
  hear_all g now (message ∷ inbox) = hear_all (hear g now message) now inbox

  -- `REALLOCATION_PERIOD_S` is 1.0.
  unfoldable pub decide : ReferenceGround F → F → ReferenceGround F
  decide g now =
      if elim g.reallocated [ none ↦ true | some last ↦ f.le (f.of_nat 1) (f.sub now last) ]
      then (let (s, actions) = reallocate g.supervisor in
          record g { supervisor = s; reallocated = some now; pending = g.pending ++ actions })
      else g

  -- `ReferenceGround.step`
  unfoldable pub step :
      ReferenceGround F → F → List (Message F) → ReferenceGround F × List (Message F)
  step g now inbox =
      let g' = decide (hear_all (record g { now = now }) now inbox) now in
      carry_out_all (record g' { pending = [] }) g'.pending

  unfoldable pub report : ReferenceGround F → Result (StateMessage F)
  report g = build_state_message g.readings g.now g.active_id g.active_drones
