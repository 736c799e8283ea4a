-- ===== src/Controller.antt =====
-- drone_controller.py: everything one drone decides. A method that changes the controller returns
-- the new controller and its result; a method that raises returns what it has written so far.
-- No method reads `drone_id`, which is left out.
pub mod Invariant
pub mod Handover
pub mod Flight
pub mod Path
pub mod Reachable
use swarmsim.Base.{
  ℕ, ◌-◌, ◌≡◌, refl, Bool, true, false, not, ◌&&◌, ◌||◌, Option, none, some, List, [], ◌∷◌, String,
  ◌==◌, is_some, is_text, same_text, length, if◌then◌else◌,
}
use Prim.Native.Nat.{min}
use swarmsim.Float.{Float}
use swarmsim.Errors.{Result, ok, err, ◌>>=◌, empty_path, map_result}
use swarmsim.Trajectory.{Vector3, ◌+ᵥ◌, step_towards}
use swarmsim.Waypoints
use swarmsim.Waypoints.{WaypointQueue, new_queue, current, is_complete, remaining, advance}
use swarmsim.Commands.{mode_for_command}
use swarmsim.Offboard
use swarmsim.Offboard.{Sequencer, OffboardStep, Phase, released}

pub record ControllerOutput (F : Type 0) : Type 0 where
  pub setpoint : Option (Vector3 F)
  pub mode_request : Option String
  pub arm_request : Bool

pub record Progress : Type 0 where
  pub mission_id : Option String
  pub waypoint_index : Option ℕ
  pub waypoint_count : Option ℕ
  pub complete : Bool

pub record Controller (F : Type 0) : Type 0 where
  pub tolerance : F
  pub max_step : F
  pub comms_timeout : F
  pub offboard : Sequencer F
  pub retry_interval : F
  pub mission_id : Option String
  pub queue : Option (WaypointQueue F)
  pub leader : Option String
  pub offset : Vector3 F
  pub leader_done : Bool
  pub handover_mode : Option String
  pub last_handover : Option F
  pub complete : Bool

-- The arguments of one `tick`.
pub record Reading (F : Type 0) : Type 0 where
  pub now : F
  pub position : Option (Vector3 F)
  pub armed : Option Bool
  pub mode : Option String
  pub leader_position : Option (Vector3 F)
  pub leader_updated : Option F

module _ {F : Type 0} where
  -- `DroneController(...)`; the sequencer's ValueError passes through.
  unfoldable pub new_controller : F → F → ℕ → F → F → Vector3 F → Result (Controller F)
  new_controller tolerance max_step warmup_ticks retry_interval comms_timeout origin =
      Offboard.new_sequencer warmup_ticks retry_interval >>= λ offboard. ok (record {
        tolerance = tolerance;
        max_step = max_step;
        comms_timeout = comms_timeout;
        offboard = offboard;
        retry_interval = retry_interval;
        mission_id = none;
        queue = none;
        leader = none;
        offset = origin;
        leader_done = false;
        handover_mode = none;
        last_handover = none;
        complete = false;
      })

  -- `ControllerOutput()`
  abbrev pub nothing : ControllerOutput F
  nothing = record { setpoint = none; mode_request = none; arm_request = false }

  abbrev pub ask_mode : Option String → ControllerOutput F
  ask_mode mode = record { setpoint = none; mode_request = mode; arm_request = false }

  -- `_begin`
  unfoldable pub begin : Controller F → String → Controller F
  unfolding Offboard.start
  begin c mission = record c {
    mission_id = some mission;
    queue = none;
    leader = none;
    leader_done = false;
    handover_mode = none;
    complete = false;
    offboard = Offboard.start c.offboard;
  }

  unfoldable pub assign_path :
      Controller F → String → List (Vector3 F) → Controller F × Result (Unit {0})
  unfolding begin new_queue
  assign_path c mission [] = (c, err empty_path)
  assign_path c mission (w ∷ ws) =
      (record (begin c mission) { queue = some (new_queue (w ∷ ws) c.tolerance) }, ok tt)

  unfoldable pub assign_slot : Controller F → String → String → Vector3 F → Controller F
  unfolding begin
  assign_slot c mission leader offset = record (begin c mission) {
    leader = some leader;
    offset = offset;
  }

  unfoldable pub leader_finished : Controller F → String → Controller F
  leader_finished c mission =
      if is_text c.mission_id mission && is_some c.leader
      then record c { leader_done = true }
      else c

  -- `_handover`
  unfoldable pub handover : Controller F → String → Controller F
  unfolding Offboard.release
  handover c mode = record c {
    offboard = Offboard.release c.offboard;
    handover_mode = some mode;
    last_handover = none;
  }

  unfoldable pub command : Controller F → String → Controller F × Result (Unit {0})
  unfolding handover
  command c name = elim (mode_for_command name) [
    | err e ↦ (c, err e)
    | ok mode ↦ (record (handover c mode) { complete = false }, ok tt)
  ]

  unfoldable pub progress : Controller F → Progress
  unfolding remaining
  progress c = elim c.queue [
    | some q ↦ record {
      mission_id = c.mission_id;
      waypoint_index = some (min (length q.waypoints - remaining q) (length q.waypoints));
      waypoint_count = some (length q.waypoints);
      complete = c.complete;
    }
    | none ↦ record {
      mission_id = c.mission_id;
      waypoint_index = none;
      waypoint_count = none;
      complete = c.complete;
    }
  ]

  -- `_task_done`
  unfoldable pub task_done : Controller F → Bool
  unfolding is_complete
  task_done c = elim c.queue [ some q ↦ is_complete q | none ↦ c.leader_done ]

  unfoldable pub has_task : Controller F → Bool
  has_task c = is_some c.queue || is_some c.leader

-- `armed is False`
abbrev pub is_disarmed : Option Bool → Bool
is_disarmed none = false
is_disarmed (some armed) = not armed

abbrev pub is_released : Phase → Bool
is_released released = true
is_released _ = false

module _ {F : Type 0} ⦃f : Float F⦄ where
  -- `_keep_handing_over`
  unfoldable pub keep_handing_over :
      Controller F → F → Option Bool → Option String → Controller F × ControllerOutput F
  unfolding Offboard.is_due
  keep_handing_over c now armed mode =
      if same_text mode c.handover_mode || is_disarmed armed
      then (c, nothing)
      else if Offboard.is_due now c.last_handover c.retry_interval
      then (record c { last_handover = some now }, ask_mode c.handover_mode)
      else (c, nothing)

  unfoldable pub hand_back :
      Controller F → String → Reading F → Controller F × Result (ControllerOutput F)
  unfolding keep_handing_over
  hand_back c mode r =
      let (c', out) = keep_handing_over (handover c mode) r.now r.armed r.mode in (c', ok out)

  -- The leader's position has not arrived for longer than the timeout.
  unfoldable pub comms_lost : Controller F → Reading F → Bool
  comms_lost c r = elim r.leader_updated [
    | none ↦ false
    | some updated ↦ is_some c.leader && f.lt c.comms_timeout (f.sub r.now updated)
  ]

  -- `_target`; it advances the queue.
  unfoldable pub target :
      Controller F → Vector3 F → Option (Vector3 F) → Controller F × Result (Option (Vector3 F))
  unfolding advance current
  target c position leader_position = elim c.queue [
    | some q ↦
        let q' = (advance q position).0 in
        (
          record c { queue = some q' },
          elim (current q') [
            | none ↦ ok (some position)
            | some goal ↦ map_result some (step_towards position goal c.max_step)
          ],
        )
    | none ↦
        (c, ok (elim leader_position [ none ↦ none | some leader ↦ some (leader +ᵥ c.offset) ]))
  ]

  -- The rest of `tick`, with a target.
  unfoldable pub fly :
      Controller F → Reading F → Vector3 F → Controller F × Result (ControllerOutput F)
  fly c r goal =
      if task_done c
      then hand_back (record c { complete = is_some c.queue || is_some c.leader }) "AUTO.LAND" r
      else (let (o, step) = Offboard.step c.offboard r.now r.armed r.mode in
          let c' = record c { offboard = o } in
          if is_released o.phase then (c', ok nothing) else (
            c',
            ok (record {
              setpoint = if step.stream_setpoint then some goal else none;
              mode_request = if step.ask_offboard then some "OFFBOARD" else none;
              arm_request = step.ask_arm;
            }),
          ))

  unfoldable pub pursue :
      Controller F → Reading F → Vector3 F → Controller F × Result (ControllerOutput F)
  pursue c r position =
      let (c', aim) = target c position r.leader_position in
      elim aim [ err e ↦ (c', err e) | ok none ↦ (c', ok nothing) | ok (some goal) ↦ fly c' r goal ]

  unfoldable pub tick_task :
      Controller F → Reading F → Vector3 F → Controller F × Result (ControllerOutput F)
  tick_task c r position = if comms_lost c r then hand_back c "AUTO.RTL" r else pursue c r position

  -- `DroneController.tick`
  unfoldable pub tick : Controller F → Reading F → Controller F × Result (ControllerOutput F)
  unfolding has_task
  tick c r =
      if is_some c.handover_mode
      then (let (c', out) = keep_handing_over c r.now r.armed r.mode in (c', ok out))
      else elim r.position [
        | none ↦ (c, ok nothing)
        | some position ↦ if has_task c then tick_task c r position else (c, ok nothing)
      ]
