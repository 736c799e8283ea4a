-- ===== src/Harness.antt =====
-- scenarios/harness.py: the run of a scenario. The ground's and the drones' software is a parameter,
-- the SystemUnderTest of scenarios/sut.py. An error of either ends the run.
pub mod RoundTrip
pub mod Frames
pub mod Mail
pub mod Swarm
pub mod Crafts
pub mod Sent
pub mod Commands
pub mod Obedience
use swarmsim.Base.{
  none, some, true, false, [], ◌∷◌, zero, suc, ℕ, if◌then◌else◌, map, ◌-◌, Bool, List, Option,
  String, ◌++◌, ◌+◌,
}
use swarmsim.Int.{pos, negsuc}
use swarmsim.Float.{Float}
use swarmsim.Trajectory.{Vector3, vector}
use swarmsim.Dict.{Dict, lookup, insert, keys}
use swarmsim.Errors.{Result, not_an_int, overflow, ok, ◌>>=◌, ◌>>◌, no_such_drone, or_raise}
use swarmsim.Json.{Conversions, Json, object, member, end, integer, text, array, number, array_of}
use swarmsim.Nodes.{path_values}
use swarmsim.SwarmState.{StateMessage}
use swarmsim.Vehicle
use swarmsim.Vehicle.{Vehicle, new_vehicle, Observation, Actuation, observe, actuate, airborne}
use swarmsim.Reference.{Message, DroneInfo}
use swarmsim.Assertions.{DroneSample, Frame, Trace}
use swarmsim.Scenario.{
  MissionData, EventData, Event, ScenarioSpec, mission_event, command_event, battery_event,
  comms_loss_event, fleet_of,
}
use swarmsim.Wind.{Wind, WorldConfig, new_wind, blow}
use swarmsim.Network.{Inbox, without, without_all, deliver_all, cut_at}

-- SystemUnderTest, with the methods of its GroundSoftware and DroneSoftware, on their states.
pub record SystemUnderTest (F G D : Type 0) : Type 0 where
  pub new_ground : List (DroneInfo F) → G
  pub new_drone : DroneInfo F → List (DroneInfo F) → D
  pub submit_mission : G → Json F → G × Result (Unit {0})
  pub submit_command : G → Json F → G × Result (Unit {0})
  pub ground_step : G → F → List (Message F) → G × List (Message F)
  pub report : G → Result (StateMessage F)
  pub drone_step :
      D → F → Observation F → List (Message F) → D × Result (Actuation F × List (Message F))

-- A drone: its software and its vehicle.
pub record Craft (F D : Type 0) : Type 0 where
  pub software : D
  pub vehicle : Vehicle F

pub record World (F G D : Type 0) : Type 0 where
  pub ground : G
  pub crafts : Dict (Craft F D)
  pub inbox : Inbox F
  pub cut_off : List (List String × F)
  pub pending : List (ℕ × Event F)
  pub wind : Wind F
  pub trace : Trace F

-- What the generators draw on a step: the noise of each drone's GPS, and the gusts' parts.
pub record Draws (F : Type 0) : Type 0 where
  pub noise : String → Vector3 F
  pub gauss : F → F → F → Vector3 F

module _ {F : Type 0} ⦃f : Float F⦄ where
  -- `DT_S`
  abbrev pub dt : F
  dt = f.div (f.of_nat 1) (f.of_nat 10)

  -- `now` of a step
  abbrev pub time_of : ℕ → F
  time_of n = f.round (f.mul (f.of_nat n) dt) 6

  -- `event.at_s <= now + 1e-9`
  abbrev pub is_due : F → Event F → Bool
  is_due now event = f.le event.at (f.add now (f.div (f.of_nat 1) (f.of_nat 1000000000)))

  unfoldable pub mission_payload : String → MissionData F → Json F
  mission_payload id mission = object (
      member "version" (integer (pos 1)) (
        member "mission_id" (text id) (
          member "type" (text mission.mission_type) (
            member "formation" (text (elim mission.formation [ none ↦ "line" | some name ↦ name ]))
              (member "waypoints" (array (array_of (path_values mission.waypoints))) (
                member "drone_count" (integer (pos mission.drone_count))
                  (member "spacing_m" (number mission.spacing) end)))))))

  -- The payload of an operator's command.
  unfoldable pub command_payload : String → Json F
  command_payload name =
      object (member "version" (integer (pos 1)) (member "command" (text name) end))

  -- `list(enumerate(spec.events))`
  abbrev pub enumerate : ℕ → List (Event F) → List (ℕ × Event F)
  enumerate index [] = []
  enumerate index (event ∷ events) = (index, event) ∷ enumerate (index + 1) events

  -- `int(round(spec.duration_s / DT_S))`; a range of a negative number is empty.
  abbrev pub steps_of : Conversions F → ScenarioSpec F → Result ℕ
  steps_of python s =
      let rounded = f.round (f.div s.duration dt) 0 in
      or_raise (python.whole_of rounded) (if f.is_nan rounded then not_an_int else overflow)
      >>= λ steps. elim steps [ pos n ↦ ok n | negsuc n ↦ ok 0 ]

  module _ {D : Type 0} where
    -- `for vehicle in vehicles.values()`
    unfoldable pub move_crafts : F → F → Vector3 F → Dict (Craft F D) → Dict (Craft F D)
    move_crafts rate now disturbance [] = []
    move_crafts rate now disturbance ((name, craft) ∷ crafts) =
        (name, record craft { vehicle = Vehicle.step craft.vehicle now dt disturbance rate })
        ∷ move_crafts rate now disturbance crafts

    unfoldable pub samples_of : Dict (Craft F D) → List (DroneSample F)
    samples_of [] = []
    samples_of ((name, craft) ∷ crafts) =
        let v = craft.vehicle in
        record {
          drone_id = name;
          position = v.position;
          armed = v.armed;
          mode = v.mode;
          battery_pct = v.battery_pct;
          airborne = airborne v;
        }
        ∷ samples_of crafts

    -- The frame that a step records.
    unfoldable pub frame_of : F → Dict (Craft F D) → StateMessage F → Frame F
    unfolding samples_of
    frame_of now crafts report = record {
      t = f.round (f.add now dt) 6;
      drones = samples_of crafts;
      reported_mission_id = elim report.mission [ none ↦ none | some m ↦ some m.id ];
      reported_complete = elim report.mission [ none ↦ false | some m ↦ m.complete ];
    }

  module _ {G D : Type 0} (sut : SystemUnderTest F G D) (s : ScenarioSpec F) where
    -- The branches of the loop over the events that are due.
    unfoldable pub happen : F → World F G D → ℕ → EventData F → Result (World F G D)
    unfolding mission_payload command_payload
    happen now w index (mission_event mission) =
        let payload = mission_payload (s.mission_ids index) mission in
        let t = w.trace in
        let (g, done) = sut.submit_mission w.ground payload in
        done
        >> ok (record w {
          ground = g;
          trace = record t { missions = t.missions ++ (now, s.mission_ids index) ∷ [] };
        })
    happen now w index (command_event name) =
        let (g, done) = sut.submit_command w.ground (command_payload name) in
        done >> ok (record w { ground = g })
    happen now w index (battery_event drone pct) =
        or_raise (lookup drone w.crafts) no_such_drone >>= λ (craft : Craft F D).
        let v = craft.vehicle in
        ok (record w {
          crafts =
              insert drone (record craft { vehicle = record v { battery_pct = pct } }) w.crafts;
        })
    happen now w index (comms_loss_event drones duration) =
        ok (record w { cut_off = w.cut_off ++ (drones, f.add now duration) ∷ [] })

    -- `while pending and pending[0][1].at_s <= now + 1e-9`
    unfoldable pub happen_all : F → List (ℕ × Event F) → World F G D → Result (World F G D)
    unfolding happen
    happen_all now [] w = ok (record w { pending = [] })
    happen_all now ((index, event) ∷ pending) w = elim (is_due now event) [
      | false ↦ ok (record w { pending = (index, event) ∷ pending })
      | true ↦ happen now w index event.happens >>= λ w'. happen_all now pending w'
    ]

    -- `for drone_id, drone_software in software.items()`
    unfoldable pub step_crafts :
        F
        → (String → Vector3 F)
        → Dict (Craft F D)
        → Inbox F
        → Result (Dict (Craft F D) × List (Message F))
    step_crafts now noise [] inbox = ok ([], [])
    step_crafts now noise ((name, craft) ∷ crafts) inbox =
        let seen = observe craft.vehicle (s.world).gps_noise_std (noise name) in
        let (d, stepped) = sut.drone_step craft.software now seen (inbox name) in
        stepped >>= λ (act : Actuation F × List (Message F)).
        step_crafts now noise crafts inbox >>= λ (rest : Dict (Craft F D) × List (Message F)). ok (
          (name, record { software = d; vehicle = actuate craft.vehicle now act.0 }) ∷ rest.0,
          act.1 ++ rest.1,
        )

    -- A step, after its events.
    unfoldable pub advance : F → Draws F → World F G D → Result (World F G D)
    unfolding step_crafts without_all move_crafts frame_of
    advance now draws w =
        let cut = cut_at now w.cut_off in
        let crew = keys w.crafts in
        let (g, told) = sut.ground_step w.ground now (w.inbox "ground") in
        step_crafts now draws.noise w.crafts (without "ground" w.inbox)
        >>= λ (out : Dict (Craft F D) × List (Message F)).
            let (wind, disturbance) = blow w.wind dt draws.gauss in
            let crafts = move_crafts (s.world).battery_drain now disturbance out.0 in
            let t = w.trace in
            sut.report g >>= λ report. ok (record w {
              ground = g;
              crafts = crafts;
              wind = wind;
              inbox =
                  deliver_all cut crew (told ++ out.1)
                    (without_all crew (without "ground" w.inbox));
              trace = record t { frames = t.frames ++ frame_of now crafts report ∷ [] };
            })

    -- The body of `for step in range(steps)`
    unfoldable pub step : ℕ → Draws F → World F G D → Result (World F G D)
    unfolding happen_all advance
    step n draws w =
        let now = time_of n in happen_all now w.pending w >>= λ w'. advance now draws w'

    -- The loop, with the steps left.
    unfoldable pub run : ℕ → ℕ → (ℕ → Draws F) → World F G D → Result (World F G D)
    unfolding step
    run zero n draws w = ok w
    run (suc left) n draws w = step n (draws n) w >>= λ w'. run left (n + 1) draws w'

    -- The fleet's software and vehicles, on their pads.
    crafts_of : List (DroneInfo F) → List (DroneInfo F) → Dict (Craft F D) → Dict (Craft F D)
    crafts_of fleet [] crafts = crafts
    crafts_of fleet (d ∷ ds) crafts = crafts_of fleet ds (
        insert d.drone_id
          (record {
            software = sut.new_drone d fleet;
            vehicle = new_vehicle d.home s.initial_battery_pct (s.world).limits;
          })
          crafts)

    -- The world before the first step of run_scenario.
    unfoldable pub new_world : World F G D
    unfolding crafts_of
    new_world =
        let fleet = fleet_of s in
        record {
          ground = sut.new_ground fleet;
          crafts = crafts_of fleet fleet [];
          inbox = λ name. [];
          cut_off = [];
          pending = enumerate 0 s.events;
          wind = new_wind s.world;
          trace = record {
            homes = map (λ (d : DroneInfo F). d.drone_id) fleet;
            missions = [];
            frames = [];
          };
        }

    -- `run_scenario`, up to the trace: its `steps` is `int(round(...))`.
    unfoldable pub run_scenario : Conversions F → (ℕ → Draws F) → Result (Trace F)
    run_scenario python draws = steps_of python s >>= λ steps.
        run steps 0 draws new_world >>= λ (w : World F G D). ok w.trace
