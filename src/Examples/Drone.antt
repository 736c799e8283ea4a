-- ===== src/Examples/Drone.antt =====
-- A drone that flies a path of two waypoints, a follower, and their sequencers.
use swarmsim.Errors.{ok}
use swarmsim.Base.{
  none, some, true, false, refl, [], ◌∷◌, ℕ, List, ◌≡◌, All, String, ◌≤◌, Bool, is_text,
}
use swarmsim.Examples.Numbers.{ℤ, pos, float_of_whole}
use swarmsim.Controller.Handover.{after, outputs, Asks, command_overrides}
use swarmsim.Controller.Path.{path_completes, progress_advances}
use swarmsim.Controller.Flight.{tick_asks}
use swarmsim.Controller.Invariant.{IsValid}
use swarmsim.Controller.Reachable.{
  Calls, no_call, then_call, path_given, ticked, reachable_controller-IsValid,
}
use swarmsim.Controller.{
  Controller, assign_path, assign_slot, command, progress, tick, new_controller, target, has_task,
  comms_lost, Reading, ControllerOutput, tick_task, pursue, fly, task_done,
}
use swarmsim.Offboard.{idle, warmup, released, request_mode, Sequencer, Tick, quiet, is_armed}
use swarmsim.Offboard
use swarmsim.Commands.{mode_for_command}
use swarmsim.Trajectory.{distance_to, norm, ◌-ᵥ◌, Vector3, vector, step_towards}
use swarmsim.Offboard.Progress
use swarmsim.Offboard.Progress.{mode_requests}

abbrev at : ℕ → ℕ → ℕ → Vector3 ℤ
at x y z = vector (pos x) (pos y) (pos z)

abbrev idle_sequencer : Sequencer ℤ
idle_sequencer = record {
  warmup_ticks = 2;
  retry_interval = pos 2;
  phase = idle;
  streamed = 0;
  last_request = none;
}

abbrev pub drone : Controller ℤ
drone = record {
  tolerance = pos 1;
  max_step = pos 4;
  comms_timeout = pos 3;
  offboard = idle_sequencer;
  retry_interval = pos 2;
  mission_id = none;
  queue = none;
  leader = none;
  offset = at 0 0 0;
  leader_done = false;
  handover_mode = none;
  last_handover = none;
  complete = false;
}

abbrev reads : ℕ → Vector3 ℤ → String → Bool → Reading ℤ
reads now p mode armed = record {
  now = pos now;
  position = some p;
  armed = some armed;
  mode = some mode;
  leader_position = none;
  leader_updated = none;
}

abbrev visits : List (Reading ℤ)
visits = reads 0 (at 0 0 5) "AUTO.LOITER" true ∷ reads 1 (at 8 1 5) "OFFBOARD" true ∷ []

abbrev on_path : Controller ℤ
on_path = (assign_path drone "m1" (at 0 0 5 ∷ at 8 0 5 ∷ [])).0

abbrev flying : Calls drone on_path
flying = then_call drone on_path no_call (path_given "m1" (at 0 0 5 ∷ at 8 0 5 ∷ []))

pub drone_is_new : new_controller (pos 1) (pos 4) 2 (pos 2) (pos 3) (at 0 0 0) ≡ ok drone
unfolding new_controller Offboard.new_sequencer
drone_is_new = refl

path_completes_example :
    let c' = after on_path visits in
    ((progress c').complete ≡ true) × (c'.handover_mode ≡ some "AUTO.LAND")
unfolding distance_to norm ◌-ᵥ◌
path_completes_example =
    path_completes drone "m1" (at 0 0 5) (at 8 0 5 ∷ []) visits refl
      (at 0 0 5, refl, refl, (at 8 1 5, refl, refl, tt))

on_path-IsValid : IsValid on_path
on_path-IsValid =
    reachable_controller-IsValid (pos 1) (pos 4) 2 (pos 2) (pos 3) (at 0 0 0) drone on_path
      drone_is_new flying

abbrev after_path : Controller ℤ
after_path = (tick on_path (reads 0 (at 0 0 5) "AUTO.LOITER" true)).0

reachable_controller-IsValid_example : IsValid after_path
reachable_controller-IsValid_example =
    reachable_controller-IsValid (pos 1) (pos 4) 2 (pos 2) (pos 3) (at 0 0 0) drone after_path
      drone_is_new
      (then_call on_path after_path flying (ticked (reads 0 (at 0 0 5) "AUTO.LOITER" true)))

command_overrides_example :
    let c' = (command on_path "rtl").0 in
    All (Asks "AUTO.RTL") (outputs c' visits) × ((progress (after c' visits)).complete ≡ false)
unfolding mode_for_command
command_overrides_example = command_overrides on_path "rtl" "AUTO.RTL" visits refl

abbrev follower : Controller ℤ
follower = assign_slot drone "m1" "drone_1" (at 0 3 0)

-- The leader was last heard four seconds ago.
abbrev silence : Reading ℤ
silence = record {
  now = pos 9;
  position = some (at 1 1 5);
  armed = some true;
  mode = some "OFFBOARD";
  leader_position = some (at 2 2 5);
  leader_updated = some (pos 5);
}

-- On the way: between the waypoints, in the warm-up.
abbrev under_way : Reading ℤ
under_way = reads 0 (at 3 0 5) "AUTO.LOITER" true

progress_advances_example :
    (j : ℕ) × ((progress (after on_path visits)).waypoint_index ≡ some j)
    × ((progress (after on_path visits)).waypoint_count ≡ some 2)
    × ((progress (after on_path visits)).mission_id ≡ on_path.mission_id)
    × (0 ≤ j)
    × (j ≤ 2)
    × ((progress (after on_path visits)).complete ≡ true → j ≡ 2)
unfolding assign_path
progress_advances_example =
    progress_advances on_path
      (record { waypoints = at 0 0 5 ∷ at 8 0 5 ∷ []; tolerance = pos 1; index = 0 }) visits
      on_path-IsValid refl

abbrev sent : ControllerOutput ℤ
sent = record { setpoint = some (at 0 0 5); mode_request = none; arm_request = false }

tick_asks_example :
    (p : Vector3 ℤ) × (goal : Vector3 ℤ) × (some (at 3 0 5) ≡ some p)
    × ((target on_path p none).1 ≡ ok (some goal))
    × (some (at 0 0 5) ≡ some goal)
    × (on_path.handover_mode ≡ none)
    × (has_task on_path ≡ true)
    × (comms_lost on_path under_way ≡ false)
    × (false ≡ true → is_text (some "AUTO.LOITER") "OFFBOARD" ≡ true)
unfolding tick assign_path tick_task pursue target fly comms_lost step_towards distance_to norm ◌-ᵥ◌
    task_done Offboard.step
tick_asks_example = tick_asks on_path under_way sent refl refl refl

abbrev tells : ℕ → String → Bool → Tick ℤ
tells now mode armed = record { now = pos now; armed = some armed; mode = some mode }

abbrev warm_up : List (Tick ℤ)
warm_up = tells 0 "AUTO.LOITER" false ∷ tells 1 "AUTO.LOITER" false ∷ []

abbrev warm : Sequencer ℤ
warm = Offboard.after (Offboard.start idle_sequencer) warm_up

abbrev waiting_ticks : List (Tick ℤ)
waiting_ticks =
    tells 2 "AUTO.LOITER" false ∷ tells 3 "AUTO.LOITER" false ∷ tells 4 "AUTO.LOITER" false ∷ []

abbrev asking : Sequencer ℤ
asking = record idle_sequencer { phase = request_mode; streamed = 2 }

-- Asked at 2, not at 3, and again at 4.
mode_requests_run : mode_requests asking waiting_ticks ≡ pos 2 ∷ pos 4 ∷ []
unfolding mode_requests Offboard.step
mode_requests_run = refl

abbrev free : Sequencer ℤ
free = record idle_sequencer { phase = released }
