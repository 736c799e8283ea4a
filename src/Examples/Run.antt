-- ===== src/Examples/Run.antt =====
-- A run of one drone, which is in the air when the operator commands it home.
use swarmsim.Base.{Option, is_some, none, some, true, refl, [], ◌∷◌, ◌≡◌, List, ◌++◌, keep, inr}
use swarmsim.Errors.{Result, ok, err, is_ok}
use swarmsim.Dict.{Dict, keys, insert, lookup}
use swarmsim.Planning.{numbered}
use swarmsim.Fleet.{sort_ids, second_number}
use swarmsim.Supervisor.Start.{command}
use swarmsim.Supervisor.Reallocate.{reallocate}
use swarmsim.Trajectory.{vector, scale, ◌+ᵥ◌, ◌-ᵥ◌}
use swarmsim.Examples.Numbers.{ℤ, pos, float_of_whole}
use swarmsim.Examples.Client.{python, python-IsFaithful}
use swarmsim.Examples.Simulated.{software, ready, calm, limits}
use swarmsim.Examples.Drone.{drone}
use swarmsim.Wind.{new_wind}
use swarmsim.Reference.{ReferenceDrone, Message}
use swarmsim.Reference
use swarmsim.Ground.{ReferenceGround, new_ground}
use swarmsim.Ground
use swarmsim.Supervisor.State.{new_supervisor}
use swarmsim.Scenario.{ScenarioSpec, Event, MissionData, command_event}
use swarmsim.Harness.{
  happen, happen_all, command_payload, advance, step_crafts, move_crafts, Craft, Draws, step, run,
  time_of, mission_payload,
}
use swarmsim.Harness.Swarm.{SwarmConfig, reference}
use swarmsim.Harness.Commands.{Swarm}
use swarmsim.Harness.RoundTrip.{parsed_of, mission_payload-parse}
use swarmsim.Payloads.{
  parse_mission_payload, parse_command_payload, payload_of, require_version, is_version, among,
  optional_uuid,
}
use swarmsim.Json.{find_member}
use swarmsim.Controller
use swarmsim.Vehicle
use swarmsim.Vehicle.{observe, actuate, new_vehicle}
use swarmsim.Commands.{mode_for_command}
use swarmsim.Network.{deliver_all, cut_at, without}
use swarmsim.Network.Delivery.{reaches}
use swarmsim.Harness.Mail.{advance_mail}
use swarmsim.Harness.Frames.{Records, run-Records}
use swarmsim.Harness.Obedience.{IsReady, Obeys, command_obeyed}
use swarmsim.SwarmState.{build_state_message}

abbrev survey_data : MissionData ℤ
survey_data = record {
  mission_type = "formation";
  formation = some "v";
  waypoints = vector (pos 1) (pos 2) (pos 3) ∷ [];
  drone_count = 3;
  spacing = pos 2;
}

mission_payload-parse_example :
    parse_mission_payload python (some (mission_payload "m1" survey_data))
    ≡ ok (parsed_of "m1" survey_data)
mission_payload-parse_example =
    mission_payload-parse python "m1" survey_data python-IsFaithful refl
      (record { allowed_type = inr refl; allowed_formation = inr (inr refl) })

abbrev config : SwarmConfig ℤ
config = record { battery_threshold = pos 20; controller = λ id. drone; planner = none }

abbrev home_call : Event ℤ
home_call = record { at = pos 0; happens = command_event "rtl" }

abbrev spec : ScenarioSpec ℤ
spec = record {
  mission_ids = λ n. "m1";
  drones = 1;
  duration = pos 2;
  world = record {
    dt = pos 1;
    wind_mean = calm;
    wind_gust_std = pos 0;
    gust_time_constant = pos 5;
    gps_noise_std = pos 0;
    battery_drain = pos 0;
    limits = limits;
  };
  initial_battery_pct = pos 90;
  events = home_call ∷ [];
}

abbrev aloft : Swarm ℤ
aloft = record {
  ground = new_ground ("drone_1" ∷ []) (new_supervisor ("drone_1" ∷ []) (pos 20) none);
  crafts = ("drone_1", record { software = software; vehicle = ready }) ∷ [];
  inbox = λ name. [];
  cut_off = [];
  pending = (0, home_call) ∷ [];
  wind = new_wind spec.world;
  trace = record { homes = "drone_1" ∷ []; missions = []; frames = [] };
}

abbrev draws : Draws ℤ
draws = record { noise = λ name. calm; gauss = λ a b c. calm }

abbrev reached : Result (Swarm ℤ) → Swarm ℤ
reached (ok w) = w
reached (err e) = aloft

abbrev called : Result (Swarm ℤ)
called = step (reference python config) spec 0 draws aloft

abbrev after_two : Result (Swarm ℤ)
after_two = step (reference python config) spec 1 draws (reached called)

reached_lem : (r : Result (Swarm ℤ)) → is_ok r ≡ true → r ≡ ok (reached r)
reached_lem (ok w) h = refl
reached_lem (err e) h = absurd (cc)

abbrev found : Option (Craft ℤ (ReferenceDrone ℤ)) → Craft ℤ (ReferenceDrone ℤ)
found (some craft) = craft
found none = record { software = software; vehicle = ready }

found_lem : (o : Option (Craft ℤ (ReferenceDrone ℤ))) → is_some o ≡ true → o ≡ some (found o)
found_lem (some craft) h = refl
found_lem none h = absurd (cc)

abbrev flying : Craft ℤ (ReferenceDrone ℤ)
flying = found (lookup "drone_1" (reached called).crafts)

-- A step without the event, and what the drone sends on it.
abbrev alone : Result (Swarm ℤ)
alone = advance (reference python config) spec (pos 0) draws aloft

abbrev sent : Result (Dict (Craft ℤ (ReferenceDrone ℤ)) × List (Message ℤ))
sent =
    step_crafts (reference python config) spec (pos 0) draws.noise aloft.crafts
      (without "ground" aloft.inbox)

abbrev gathered :
    Result (Dict (Craft ℤ (ReferenceDrone ℤ)) × List (Message ℤ))
    → Dict (Craft ℤ (ReferenceDrone ℤ)) × List (Message ℤ)
gathered (ok out) = out
gathered (err e) = ([], [])

gathered_lem :
    (r : Result (Dict (Craft ℤ (ReferenceDrone ℤ)) × List (Message ℤ)))
    → is_ok r ≡ true
    → r ≡ ok (gathered r)
gathered_lem (ok out) h = refl
gathered_lem (err e) h = absurd (cc)

computed :
    (is_ok called ≡ true)
    × (is_ok after_two ≡ true)
    × (is_some (lookup "drone_1" (reached called).crafts) ≡ true)
    × ((flying.vehicle).armed ≡ true)
    × (is_ok alone ≡ true)
    × (is_ok sent ≡ true)
unfolding step happen_all happen reference Ground.submit_command parse_command_payload
    command_payload payload_of require_version is_version find_member among optional_uuid advance
    step_crafts Reference.step Reference.receive_all Controller.tick observe Ground.report
    build_state_message Reference.new_drone Reference.to_world numbered keys Ground.step
    Ground.carry_out_all Ground.decide Ground.hear_all new_ground command new_supervisor sort_ids
    reallocate Ground.carry_out insert second_number deliver_all Reference.send
    Reference.progress_is_due Reference.same_progress cut_at Reference.receive Controller.command
    mode_for_command Reference.follow Ground.hear lookup move_crafts actuate new_vehicle
    Vehicle.take_arm Vehicle.take_mode Vehicle.enter_requested Vehicle.setpoints_fresh
    Vehicle.take_setpoint Vehicle.is_known_mode Vehicle.enter Vehicle.step Reference.to_local
    Vehicle.auto_disarm Vehicle.airborne Vehicle.move Vehicle.above_ground ◌+ᵥ◌
    Vehicle.velocity_command Vehicle.failsafe Vehicle.drain scale Vehicle.allowed
    Vehicle.clamp_velocity ◌-ᵥ◌ Vehicle.drift_of
computed = (refl, refl, refl, refl, refl, refl)

first_step : step (reference python config) spec 0 draws aloft ≡ ok (reached called)
first_step = reached_lem called computed.0

second_step : step (reference python config) spec 1 draws (reached called) ≡ ok (reached after_two)
second_step = reached_lem after_two computed.1

two_steps : run (reference python config) spec 2 0 (λ n. draws) aloft ≡ ok (reached after_two)
unfolding run
two_steps = rw (first_step, run, second_step) refl

run-Records_example : Records (reference python config) spec 2 aloft (reached after_two)
run-Records_example =
    run-Records (reference python config) spec 2 0 (λ n. draws) aloft (reached after_two) two_steps

aloft-IsReady : IsReady aloft "drone_1" (time_of 0)
unfolding new_ground new_supervisor sort_ids second_number keys cut_at
aloft-IsReady = record {
  nothing_pending = refl;
  one_each = (refl, tt);
  not_ground = refl;
  in_run = refl;
  in_fleet = refl;
  one_task = (refl, tt);
  not_everyone = refl;
  ground_in_contact = refl;
  in_contact = refl;
}

command_obeyed_example :
    Obeys python config spec
      (time_of 1)
      draws
      "AUTO.RTL"
      "drone_1"
      flying
      (reached called)
      (reached after_two)
command_obeyed_example =
    command_obeyed python config spec 0 draws draws aloft (reached called) (reached after_two) 0
      home_call "rtl" "AUTO.RTL" "drone_1" flying refl refl refl (unfold mode_for_command in refl)
      aloft-IsReady first_step (found_lem (lookup "drone_1" (reached called).crafts) computed.2)
      computed.3 second_step

advance_mail_example :
    (reached alone).inbox "ground"
    ≡ keep (reaches (cut_at (pos 0) aloft.cut_off) (keys aloft.crafts) "ground") (
        ((reference python config).ground_step aloft.ground (pos 0) (aloft.inbox "ground")).1
        ++ (gathered sent).1)
unfolding keys
advance_mail_example =
    advance_mail (reference python config) spec (pos 0) draws aloft (reached alone) (gathered sent)
      "ground" (refl, tt) refl (gathered_lem sent computed.5) (reached_lem alone computed.4) refl
