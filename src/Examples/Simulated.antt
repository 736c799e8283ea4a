-- ===== src/Examples/Simulated.antt =====
-- A simulated vehicle with its software, and the state that a swarm publishes.
use swarmsim.Dict.{Dict}
use swarmsim.Trajectory.{vector, Vector3}
use swarmsim.Base.{some, true, false, refl, [], ◌∷◌, ◌≡◌, ◌<◌, ◌⊎◌, All}
use swarmsim.Examples.Drone.{drone}
use swarmsim.Examples.Numbers.{ℤ, pos, float_of_whole, float_of_whole-IsOrdered}
use swarmsim.SwarmState.{DroneReadings, mission_complete}
use swarmsim.SwarmState.Completion.{Landed, mission_complete-Landed}
use swarmsim.Vehicle
use swarmsim.Vehicle.{
  Vehicle, VehicleLimits, Actuation, new_vehicle, actuate, observe, airborne, is_flat,
  setpoints_fresh,
}
use swarmsim.Vehicle.Autopilot
use swarmsim.Vehicle.Autopilot.{IsSane, Calls}
use swarmsim.Vehicle.Flight.{vehicle-IsSane}
use swarmsim.Vehicle.Guards.{step_guards, actuate_guards}
use swarmsim.Reference.{ReferenceDrone, DroneInfo, Message, new_drone, command_given, slot_given}

abbrev landed_reading : DroneReadings ℤ
landed_reading = record {
  position_world = some (vector (pos 8) (pos 0) (pos 0));
  position_time = some (pos 40);
  armed = some false;
  mode = some "AUTO.LAND";
  battery_pct = some (pos 70);
  mission_id = some "m1";
  waypoint_index = some 2;
  waypoint_count = some 2;
  complete = true;
}

abbrev readings : Dict (DroneReadings ℤ)
readings = ("drone_1", landed_reading) ∷ []

mission_complete-Landed_example :
    (mission_complete readings "m1" ("drone_1" ∷ []) ≡ true
      → (0 < 1) × All (Landed readings "m1") ("drone_1" ∷ []))
    × (0 < 1
        → All (Landed readings "m1") ("drone_1" ∷ [])
        → mission_complete readings "m1" ("drone_1" ∷ []) ≡ true)
mission_complete-Landed_example = mission_complete-Landed readings "m1" ("drone_1" ∷ [])

abbrev pub limits : VehicleLimits ℤ
limits = record {
  max_speed = pos 5;
  max_climb = pos 3;
  max_descent = pos 1;
  land_speed = pos 1;
  position_gain = pos 1;
  rtl_altitude = pos 10;
  offboard_loss_timeout = pos 1;
  preflight_disarm = pos 10;
  land_disarm = pos 2;
  wind_rejection = pos 1;
}

abbrev parked : Vehicle ℤ
parked = new_vehicle (vector (pos 0) (pos 0) (pos 0)) (pos 50) limits

-- A setpoint five metres up, with OFFBOARD and arming asked for.
abbrev take_off : Actuation ℤ
take_off = record {
  setpoint_local = some (vector (pos 0) (pos 0) (pos 5));
  mode_request = some "OFFBOARD";
  arm_request = true;
}

abbrev pub ready : Vehicle ℤ
ready = actuate parked (pos 1) take_off

abbrev pub calm : Vector3 ℤ
calm = vector (pos 0) (pos 0) (pos 0)

abbrev climbing : Vehicle ℤ
climbing = Vehicle.step ready (pos 1) (pos 1) calm (pos 1)

vehicle-IsSane_example : IsSane climbing
vehicle-IsSane_example =
    vehicle-IsSane (vector (pos 0) (pos 0) (pos 0)) (pos 50) limits climbing
      float_of_whole-IsOrdered refl
      (Vehicle.Autopilot.then_call ready climbing
        (Vehicle.Autopilot.then_call parked ready Vehicle.Autopilot.no_call
          (Vehicle.Autopilot.actuated (pos 1) take_off))
        (Vehicle.Autopilot.stepped (pos 1) (pos 1) calm (pos 1)))

pub ready_armed : ready.armed ≡ true
unfolding actuate new_vehicle Vehicle.take_arm Vehicle.take_mode Vehicle.enter_requested
    setpoints_fresh Vehicle.take_setpoint Vehicle.is_known_mode Vehicle.enter
ready_armed = refl

step_guards_example :
    (climbing.mode ≡ "OFFBOARD"
      → (ready.mode ≡ "OFFBOARD") × (setpoints_fresh ready (pos 1) ≡ true))
    × (airborne ready ≡ true → is_flat climbing ≡ true → climbing.mode ≡ "AUTO.LAND")
step_guards_example = step_guards ready (pos 1) (pos 1) calm (pos 1) ready_armed

actuate_guards_example :
    (ready.mode ≡ "OFFBOARD" → (parked.mode ≡ "OFFBOARD") ⊎ (setpoints_fresh ready (pos 1) ≡ true))
    × (ready.armed ≡ true
        → (parked.armed ≡ true)
          ⊎ ((true ≡ true) × (ready.mode ≡ "OFFBOARD") × (setpoints_fresh ready (pos 1) ≡ true)))
actuate_guards_example = actuate_guards parked (pos 1) take_off

abbrev first_drone : DroneInfo ℤ
first_drone = record { drone_id = "drone_1"; home = vector (pos 0) (pos 0) (pos 0) }

abbrev pub software : ReferenceDrone ℤ
software = new_drone first_drone drone

abbrev pub fly_home : Message ℤ
fly_home = record { sender = "ground"; recipient = "drone_1"; body = command_given "rtl" }

abbrev follow_leader : Message ℤ
follow_leader = record {
  sender = "ground";
  recipient = "drone_1";
  body = slot_given "m1" "drone_2" (vector (pos 3) (pos 0) (pos 0));
}
