-- ===== src/Vehicle.antt =====
-- scenarios/sim.py: one simulated drone, with the autopilot that its software talks to. A method
-- returns the new vehicle. The generator's draws and the wind are arguments.
-- No method reads `drone_id`, which is left out.
pub mod Autopilot
pub mod Flight
pub mod Guards
use swarmsim.Float.{Float}
use swarmsim.Base.{
  none, some, true, false, Bool, Option, String, ◌==◌, if◌then◌else◌, ◌||◌, ◌&&◌, not,
}
use swarmsim.Trajectory.{Vector3, vector, ◌+ᵥ◌, ◌-ᵥ◌, scale}

pub data RtlPhase : Type 0 where
  climb return_home descend : RtlPhase

pub record VehicleLimits (F : Type 0) : Type 0 where
  pub max_speed : F
  pub max_climb : F
  pub max_descent : F
  pub land_speed : F
  pub position_gain : F
  pub rtl_altitude : F
  pub offboard_loss_timeout : F
  pub preflight_disarm : F
  pub land_disarm : F
  pub wind_rejection : F

pub record Observation (F : Type 0) : Type 0 where
  pub local_position : Option (Vector3 F)
  pub armed : Bool
  pub mode : String
  pub battery_pct : F

pub record Actuation (F : Type 0) : Type 0 where
  pub setpoint_local : Option (Vector3 F)
  pub mode_request : Option String
  pub arm_request : Bool

pub record Vehicle (F : Type 0) : Type 0 where
  pub home : Vector3 F
  pub position : Vector3 F
  pub battery_pct : F
  pub limits : VehicleLimits F
  pub armed : Bool
  pub mode : String
  pub took_off : Bool
  pub setpoint : Option (Vector3 F)
  pub setpoint_time : Option F
  pub hold : Vector3 F
  pub armed_at : Option F
  pub grounded_since : Option F
  pub rtl_phase : RtlPhase

-- `mode in ("OFFBOARD", "AUTO.LAND", "AUTO.RTL", "AUTO.LOITER")`
unfoldable pub is_known_mode : String → Bool
is_known_mode mode =
    mode == "OFFBOARD" || (mode == "AUTO.LAND" || (mode == "AUTO.RTL" || mode == "AUTO.LOITER"))

module _ {F : Type 0} where
  -- `Vehicle(...)`
  unfoldable pub new_vehicle : Vector3 F → F → VehicleLimits F → Vehicle F
  new_vehicle home battery_pct limits = record {
    home = home;
    position = home;
    battery_pct = battery_pct;
    limits = limits;
    armed = false;
    mode = "AUTO.LOITER";
    took_off = false;
    setpoint = none;
    setpoint_time = none;
    hold = home;
    armed_at = none;
    grounded_since = none;
    rtl_phase = climb;
  }

  -- `_enter`
  unfoldable pub enter : Vehicle F → String → Vehicle F
  enter v mode = record v { mode = mode; hold = v.position; rtl_phase = climb }

  -- `_disarm`
  unfoldable pub disarm : Vehicle F → Vehicle F
  disarm v = record v {
    armed = false;
    armed_at = none;
    grounded_since = none;
    setpoint = none;
    setpoint_time = none;
  }

module _ {F : Type 0} ⦃f : Float F⦄ where
  -- GROUND_TOLERANCE_M, 0.05
  abbrev pub ground_tolerance : F
  ground_tolerance = f.div (f.of_nat 5) (f.of_nat 100)

  abbrev pub zero_vector : Vector3 F
  zero_vector = vector (f.of_nat 0) (f.of_nat 0) (f.of_nat 0)

  -- `max(a, b)` and `min(a, b)`, which return `a` where the two compare equal
  abbrev pub greater : F → F → F
  greater a b = if f.lt a b then b else a

  abbrev pub lesser : F → F → F
  lesser a b = if f.lt b a then b else a

  unfoldable pub clamp_velocity : Vector3 F → VehicleLimits F → Vector3 F
  clamp_velocity v limits =
      let horizontal = f.hypot v.x v.y in
      let factor = f.div limits.max_speed horizontal in
      let too_fast = f.lt limits.max_speed horizontal in
      vector (if too_fast then f.mul v.x factor else v.x)
        (if too_fast then f.mul v.y factor else v.y)
        (greater (f.neg limits.max_descent) (lesser limits.max_climb v.z))

  unfoldable pub airborne : Vehicle F → Bool
  airborne v = f.lt ground_tolerance (v.position).z

  -- `observe`; `noise` are the three draws of the generator, scaled by `gps_noise_std_m`.
  unfoldable pub observe : Vehicle F → F → Vector3 F → Observation F
  observe v gps_noise noise =
      let here = v.position -ᵥ v.home in
      record {
        local_position = some (if f.lt (f.of_nat 0) gps_noise then here +ᵥ noise else here);
        armed = v.armed;
        mode = v.mode;
        battery_pct = f.round v.battery_pct 3;
      }

  -- `_setpoints_fresh`
  unfoldable pub setpoints_fresh : Vehicle F → F → Bool
  setpoints_fresh v now = elim v.setpoint_time [
    | none ↦ false
    | some sent ↦ f.le (f.sub now sent) (v.limits).offboard_loss_timeout
  ]

  -- `_request_mode`
  unfoldable pub enter_requested : Vehicle F → F → String → Vehicle F
  enter_requested v now mode =
      if mode == "OFFBOARD" && not (setpoints_fresh v now)
      then v
      else if not (is_known_mode mode)
      then v
      else if not (mode == v.mode)
      then enter v mode
      else v

  -- The parts of `actuate`, in their order.
  unfoldable pub take_setpoint : Vehicle F → F → Option (Vector3 F) → Vehicle F
  take_setpoint v now none = v
  take_setpoint v now (some local) = record v {
    setpoint = some (local +ᵥ v.home);
    setpoint_time = some now;
  }

  unfoldable pub take_mode : Vehicle F → F → Option String → Vehicle F
  take_mode v now none = v
  take_mode v now (some mode) = enter_requested v now mode

  unfoldable pub take_arm : Vehicle F → F → Bool → Vehicle F
  take_arm v now asked =
      if asked && (not v.armed && (v.mode == "OFFBOARD" && setpoints_fresh v now))
      then record v { armed = true; took_off = false; armed_at = some now; grounded_since = none }
      else v

  unfoldable pub actuate : Vehicle F → F → Actuation F → Vehicle F
  actuate v now a =
      take_arm (take_mode (take_setpoint v now a.setpoint_local) now a.mode_request) now
        a.arm_request

  -- The velocity that brings a vehicle down over a place.
  unfoldable pub sink_over : Vehicle F → Vector3 F → Vector3 F
  sink_over v place =
      let above = vector place.x place.y (v.position).z in
      scale (above -ᵥ v.position) (v.limits).position_gain
      +ᵥ vector (f.of_nat 0) (f.of_nat 0) (f.neg (v.limits).land_speed)

  -- The altitude that RTL flies home at.
  unfoldable pub return_altitude : Vehicle F → F
  return_altitude v = greater (v.limits).rtl_altitude (v.hold).z

  -- `_rtl_command` from the return on, and from the descent on
  unfoldable pub rtl_return : Vehicle F → Vehicle F × Vector3 F
  rtl_return v =
      if f.le (f.hypot (f.sub (v.position).x (v.home).x) (f.sub (v.position).y (v.home).y))
        (f.div (f.of_nat 5) (f.of_nat 10))
      then (record v { rtl_phase = descend }, sink_over v v.home)
      else (
        v,
        scale (vector (v.home).x (v.home).y (return_altitude v) -ᵥ v.position)
            (v.limits).position_gain,
      )

  rtl_in : RtlPhase → Vehicle F → Vehicle F × Vector3 F
  rtl_in climb v =
      if f.le (f.sub (return_altitude v) (f.div (f.of_nat 2) (f.of_nat 10))) (v.position).z
      then rtl_return (record v { rtl_phase = return_home })
      else (v, vector (f.of_nat 0) (f.of_nat 0) (v.limits).max_climb)
  rtl_in return_home v = rtl_return v
  rtl_in descend v = (v, sink_over v v.home)

  unfoldable pub rtl_command : Vehicle F → Vehicle F × Vector3 F
  unfolding rtl_in
  rtl_command v = rtl_in v.rtl_phase v

  -- `(self._hold - self.position).scale(gain)`
  unfoldable pub hold_command : Vehicle F → Vector3 F
  hold_command v = scale (v.hold -ᵥ v.position) (v.limits).position_gain

  -- `_command`, of a mode other than OFFBOARD
  unfoldable pub auto_command : Vehicle F → Vehicle F × Vector3 F
  auto_command v =
      if v.mode == "AUTO.LAND"
      then (v, sink_over v v.hold)
      else if v.mode == "AUTO.RTL"
      then rtl_command v
      else (v, hold_command v)

  -- `_command`
  pursue_goal : Vehicle F → Option (Vector3 F) → Vehicle F × Vector3 F
  pursue_goal v none = auto_command v
  pursue_goal v (some goal) =
      if v.mode == "OFFBOARD"
      then (v, scale (goal -ᵥ v.position) (v.limits).position_gain)
      else auto_command v

  unfoldable pub velocity_command : Vehicle F → Vehicle F × Vector3 F
  unfolding pursue_goal
  velocity_command v = pursue_goal v v.setpoint

  -- `_auto_disarm`
  unfoldable pub auto_disarm : Vehicle F → F → Vehicle F
  auto_disarm v now =
      if airborne v
      then record v { grounded_since = none }
      else if not v.took_off
      then elim v.armed_at [
        | none ↦ v
        | some since ↦ if f.le (v.limits).preflight_disarm (f.sub now since) then disarm v else v
      ]
      else elim v.grounded_since [
        | none ↦ record v { grounded_since = some now }
        | some since ↦ if f.le (v.limits).land_disarm (f.sub now since) then disarm v else v
      ]

  -- The parts of `step`, in their order: the battery, the failsafe, and the movement.
  unfoldable pub drained : Vehicle F → F → F → Vehicle F
  drained v dt rate = record v {
    battery_pct = greater (f.of_nat 0) (f.sub v.battery_pct (f.mul rate dt));
  }

  -- `self.battery_pct == 0.0`
  unfoldable pub is_flat : Vehicle F → Bool
  is_flat v = f.le v.battery_pct (f.of_nat 0) && f.le (f.of_nat 0) v.battery_pct

  unfoldable pub drain : Vehicle F → F → F → Vehicle F
  drain v dt rate =
      let v' = drained v dt rate in
      if not (airborne v)
      then v
      else if is_flat v' && not (v.mode == "AUTO.LAND")
      then enter v' "AUTO.LAND"
      else v'

  unfoldable pub failsafe : Vehicle F → F → Vehicle F
  failsafe v now =
      if v.mode == "OFFBOARD" && not (setpoints_fresh v now) then enter v "AUTO.LOITER" else v

  unfoldable pub drift_of : Vehicle F → Vector3 F → Vector3 F
  drift_of v disturbance =
      if airborne v
      then scale disturbance (f.sub (f.of_nat 1) (v.limits).wind_rejection)
      else zero_vector

  -- On the ground and not climbing: no taxiing.
  unfoldable pub allowed : Vehicle F → Vector3 F → Vector3 F
  allowed v velocity =
      if not (airborne v) && f.le velocity.z (f.of_nat 0) then zero_vector else velocity

  unfoldable pub above_ground : Vector3 F → Vector3 F
  above_ground p = if f.lt p.z (f.of_nat 0) then vector p.x p.y (f.of_nat 0) else p

  unfoldable pub move : Vehicle F → F → Vector3 F → Vehicle F
  move v dt disturbance =
      let (v', wanted) = velocity_command v in
      let velocity = allowed v' (clamp_velocity wanted (v'.limits)) in
      let moved = above_ground (v'.position +ᵥ scale (velocity +ᵥ drift_of v' disturbance) dt) in
      record v' {
        took_off = if f.lt ground_tolerance moved.z then true else v'.took_off;
        position = moved;
      }

  -- `Vehicle.step`
  unfoldable pub step : Vehicle F → F → F → Vector3 F → F → Vehicle F
  step v now dt disturbance rate =
      if not v.armed
      then v
      else auto_disarm (move (failsafe (drain v dt rate) now) dt disturbance) now
