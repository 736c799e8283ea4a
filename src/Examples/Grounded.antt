-- ===== src/Examples/Grounded.antt =====
-- A ground of four drones: a mission for two of them is submitted, and the leader runs low.
use swarmsim.Base.{none, true, refl, [], ◌∷◌, ◌≡◌}
use swarmsim.Errors.{ok}
use swarmsim.Examples.Numbers.{ℤ, pos, float_of_whole}
use swarmsim.Examples.Planned.{fleet, survey, rested, fleet-Distinct}
use swarmsim.Fleet.{sort_ids, second_number}
use swarmsim.Ground.{ReferenceGround, new_ground, submit_mission}
use swarmsim.Ground
use swarmsim.Ground.Announcements.{IsReady, in_progress}
use swarmsim.Ground.Reports.{GroundCalls, no_more, and_then, mission_asked, stepped, step_reports}
use swarmsim.Reference.{Message, telemetry}
use swarmsim.Supervisor.State.{new_supervisor}
use swarmsim.Supervisor.Reachable.{no_call, reachable-IsValid}
use swarmsim.SwarmState.{build_state_message}

abbrev pub at_dawn : ReferenceGround ℤ
at_dawn = new_ground fleet rested

abbrev asked : ReferenceGround ℤ
asked = (submit_mission at_dawn (ok survey)).0

abbrev under_way : ReferenceGround ℤ
under_way = (Ground.step asked (pos 0) []).0

-- The leader says that its battery is at ten percent.
abbrev battery_low : Message ℤ
battery_low = record {
  sender = "drone_1";
  recipient = "ground";
  body =
      telemetry (record { position = none; armed = true; mode = "OFFBOARD"; battery_pct = pos 10 });
}

abbrev relieved : ReferenceGround ℤ
relieved = (Ground.step under_way (pos 2) (battery_low ∷ [])).0

abbrev so_far : GroundCalls at_dawn under_way
so_far =
    and_then asked under_way (and_then at_dawn asked no_more (mission_asked (ok survey)))
      (stepped (pos 0) [])

rested-IsReady : IsReady rested
unfolding new_supervisor sort_ids second_number
rested-IsReady = record {
  fleet = (reachable-IsValid fleet (pos 20) none rested fleet-Distinct tt no_call).0.fleet;
  numbers = refl;
  dicts = tt;
}

step_reports_example :
    (relieved.pending ≡ [])
    × (Ground.report relieved
        ≡ build_state_message relieved.readings relieved.now
            (in_progress relieved.supervisor).0
            (in_progress relieved.supervisor).1)
unfolding new_supervisor
step_reports_example =
    step_reports fleet rested under_way (pos 2) (battery_low ∷ []) rested-IsReady refl so_far
