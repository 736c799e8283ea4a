-- ===== src/Harness/Swarm.antt =====
-- scenarios/sut.py: ReferenceSwarm, this repository's swarm as a system under test.
use swarmsim.Base.{some, map, String, Option}
use swarmsim.Float.{Float}
use swarmsim.Errors.{map_result}
use swarmsim.Json.{Conversions}
use swarmsim.Payloads.{parse_mission_payload, parse_command_payload}
use swarmsim.Nodes.Dispatcher.{mission_of}
use swarmsim.Controller.{Controller}
use swarmsim.Supervisor.State.{new_supervisor, Planner}
use swarmsim.Reference.{ReferenceDrone, DroneInfo, new_drone}
use swarmsim.Reference
use swarmsim.Ground.{ReferenceGround, new_ground, submit_mission, submit_command, report}
use swarmsim.Ground
use swarmsim.Harness.{SystemUnderTest}

-- What ReferenceSwarm is configured with; `controller` makes a drone's controller.
pub record SwarmConfig (F : Type 0) : Type 0 where
  pub battery_threshold : F
  pub controller : String → Controller F
  pub planner : Option (Planner F)

module _ {F : Type 0} ⦃f : Float F⦄ (python : Conversions F) where
  unfoldable pub reference :
      SwarmConfig F → SystemUnderTest F (ReferenceGround F) (ReferenceDrone F)
  reference config = record {
    new_ground = λ fleet.
        let ids = map (λ (d : DroneInfo F). d.drone_id) fleet in
        new_ground ids (new_supervisor ids config.battery_threshold config.planner);
    new_drone = λ info fleet. new_drone info (config.controller info.drone_id);
    submit_mission = λ g payload.
        submit_mission g (map_result mission_of (parse_mission_payload python (some payload)));
    submit_command = λ g payload. submit_command g (parse_command_payload python (some payload));
    ground_step = Ground.step;
    report = report;
    drone_step = Reference.step;
  }
