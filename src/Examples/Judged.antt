-- ===== src/Examples/Judged.antt =====
-- A trace of two frames, and a suite of one scenario.
use swarmsim.Trajectory.{norm, ◌-ᵥ◌, vector, distance_to}
use swarmsim.Errors.{ok, is_ok, map_result}
use swarmsim.Assertions.Battery.{
  no_task_below_battery, watch_drones, watch_frames, watch_sample, hold_on, tasked_while_low,
}
use swarmsim.Assertions.Stretches.{Stretch, no_task_below_battery-Stretch}
use swarmsim.Base.{
  none, some, true, false, refl, [], ◌∷◌, Bool, ◌≡◌, String, All, contains, length, ◌<◌,
}
use swarmsim.Examples.Numbers.{ℤ, pos, float_of_whole, float_of_whole-IsStrict}
use swarmsim.Assertions.{keep_frames, Frame, DroneSample, Trace, mission_completes, sample}
use swarmsim.Assertions.Distances.{Closest, closest_in, min_separation, airborne_in, in_window}
use swarmsim.Assertions.Separation.{Pairs, min_separation-Apart}
use swarmsim.Suite.{AssertionOutcome, Declared, Expectations, SuiteReport}
use swarmsim.Fleet.{sort_by}

abbrev shown : Bool → String → DroneSample ℤ
shown up mode = record {
  drone_id = "drone_1";
  position = vector (pos 0) (pos 0) (pos 0);
  armed = up;
  mode = mode;
  battery_pct = pos 80;
  airborne = up;
}

abbrev trace : Trace ℤ
trace = record {
  homes = "drone_1" ∷ [];
  missions = (pos 1, "m1") ∷ [];
  frames =
      record {
        t = pos 1;
        drones = shown true "OFFBOARD" ∷ [];
        reported_mission_id = some "m1";
        reported_complete = false;
      }
      ∷ record {
        t = pos 9;
        drones = shown false "AUTO.LAND" ∷ [];
        reported_mission_id = some "m1";
        reported_complete = true;
      }
      ∷ [];
}

-- Eight seconds after its dispatch.
mission_completes_run : (mission_completes trace (pos 60)).measured ≡ some (pos 8)
unfolding mission_completes
mission_completes_run = refl

abbrev declared : Declared
declared = record { name = "line"; expect = "pass"; expect_reason = none }

abbrev suite : SuiteReport ℤ
suite = record {
  sut = "reference";
  seeds = 1 ∷ [];
  scenarios =
      record {
        spec = declared;
        verdicts =
            record {
              scenario = "line";
              sut = "reference";
              seed = 1;
              outcomes = mission_completes trace (pos 60) ∷ [];
            }
            ∷ [];
        killed_by = some ("no-landing" ∷ []);
      }
      ∷ [];
  errors = [];
  mutants = some ("no-landing" ∷ []);
  expectations = none;
}

abbrev known_gap : Expectations
known_gap = record { expect_fail = ("line", "gusts") ∷ []; source = none }

-- The drone flies for eight seconds at 80 percent, which is below 90.
abbrev low_trace : Trace ℤ
low_trace = record trace {
  frames =
      record {
        t = pos 1;
        drones = shown true "OFFBOARD" ∷ [];
        reported_mission_id = none;
        reported_complete = false;
      }
      ∷ record {
        t = pos 9;
        drones = shown true "OFFBOARD" ∷ [];
        reported_mission_id = none;
        reported_complete = false;
      }
      ∷ [];
}

low_trace_lem :
    map_result
      (λ (o : AssertionOutcome ℤ). o.passed)
      (no_task_below_battery low_trace (pos 90) (pos 3))
    ≡ ok false
unfolding no_task_below_battery watch_drones watch_frames watch_sample hold_on tasked_while_low
    sample
low_trace_lem = refl

no_task_below_battery-Stretch_example :
    (All (λ d. All (λ frame. is_ok (sample frame d) ≡ true) low_trace.frames) low_trace.homes
      → is_ok (no_task_below_battery low_trace (pos 90) (pos 10)) ≡ true)
    × ((o : AssertionOutcome ℤ) (drone : String)
        → no_task_below_battery low_trace (pos 90) (pos 10) ≡ ok o
        → o.passed ≡ true
        → contains drone low_trace.homes ≡ true
        → ¬ Stretch drone (pos 90) (pos 10) low_trace.frames)
no_task_below_battery-Stretch_example = no_task_below_battery-Stretch low_trace (pos 90) (pos 10)

-- Two drones in the air, five metres apart.
abbrev abreast : Trace ℤ
abreast = record {
  homes = "drone_1" ∷ "drone_2" ∷ [];
  missions = [];
  frames =
      record {
        t = pos 3;
        drones =
            record {
              drone_id = "drone_1";
              position = vector (pos 0) (pos 0) (pos 4);
              armed = true;
              mode = "OFFBOARD";
              battery_pct = pos 80;
              airborne = true;
            }
            ∷ record {
              drone_id = "drone_2";
              position = vector (pos 0) (pos 5) (pos 4);
              armed = true;
              mode = "OFFBOARD";
              battery_pct = pos 80;
              airborne = true;
            }
            ∷ [];
        reported_mission_id = none;
        reported_complete = false;
      }
      ∷ [];
}

far_enough :
    (All
      (λ (c : Closest ℤ). float_of_whole.is_nan c.distance ≡ false)
      (closest_in abreast (pos 0) none))
    × ((min_separation abreast (pos 2) (pos 0) none).passed ≡ true)
unfolding min_separation sort_by distance_to norm ◌-ᵥ◌
far_enough = ((refl, tt), refl)

min_separation-Apart_example :
    (0 < length (closest_in abreast (pos 0) none))
    × All
        (λ (frame : Frame ℤ).
          Pairs
            (λ (a b : DroneSample ℤ).
              float_of_whole.lt (distance_to a.position b.position) (pos 2) ≡ false)
            (airborne_in frame.drones))
        (keep_frames (in_window (pos 0) none) abreast.frames)
min_separation-Apart_example =
    min_separation-Apart abreast (pos 2) (pos 0) none float_of_whole-IsStrict far_enough.0
      far_enough.1
