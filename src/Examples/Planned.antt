-- ===== src/Examples/Planned.antt =====
-- A supervisor of four drones: a mission for two of them, and a drone that runs low.
use swarmsim.Formation.{line_formation}
use swarmsim.Errors.{ok, is_ok, err, bad_drone_count}
use swarmsim.Fleet.{sort_ids, second_number}
use swarmsim.Base.{
  none, some, refl, [], ◌∷◌, List, ℕ, Distinct, ◌≡◌, String, true, false, contains, keep, not, ◌⊎◌,
  ◌&&◌,
}
use swarmsim.Examples.Numbers.{ℤ, pos, float_of_whole, float_of_whole-IsOrdered, negsuc}
use swarmsim.Planning.{
  MissionMessage, MissionPlan, plan_mission, drone_names, plan_swarm_waypoints, formation_offsets,
  slots, plan_drones,
}
use swarmsim.Planning.Missions.{plan_mission-IsFlyable, plan_mission_ok, acceptable}
use swarmsim.Planning.Plans.{IsFlyable, size, has_part}
use swarmsim.Supervisor.State.{
  Supervisor, Mission, new_supervisor, observe_battery, plan_ids, low, finished, Action, assign,
  slot, active_mission, mission_drones,
}
use swarmsim.Supervisor.Start.{
  start, unusable, eligible, choose_plan, launch, without_path, first_leaderless, send_home,
  assign_all, slot_all,
}
use swarmsim.Supervisor.Reallocate.{
  reallocate, relieve, must_go, replacement, busy, charged, first_idle,
}
use swarmsim.Supervisor.Missions.{ReturnsDicts, new_mission}
use swarmsim.Supervisor.Launches.{start_tasks_fit, tasked}
use swarmsim.Supervisor.Guarantees.{
  IsValid, reallocate-IsValid, reallocate-sent_home, reallocate_settles,
}
use swarmsim.Supervisor.Reachable.{
  Calls, no_call, then_call, battery_seen, started, reachable-IsValid,
}
use swarmsim.Supervisor.Tasks.{reallocate_tasks_fit, TakesOver, relieve_reslots}
use swarmsim.Supervisor.Checking.{unusable_sound, IsDicts}
use swarmsim.Supervisor.Messages.{assigned, slotted, sent_home}
use swarmsim.Dict.{lookup, insert, keys}
use swarmsim.Trajectory.{Vector3, vector}

abbrev pub fleet : List String
fleet = "drone_1" ∷ "drone_2" ∷ "drone_3" ∷ "drone_4" ∷ []

abbrev spot : ℕ → Vector3 ℤ
spot x = vector (pos x) (pos 0) (pos 5)

abbrev pub survey : MissionMessage ℤ
survey = record {
  mission_id = "m1";
  mission_type = "formation";
  formation = "line";
  waypoints = spot 0 ∷ spot 8 ∷ [];
  drone_count = 2;
  spacing = pos 3;
}

-- The leader flies the path, and the follower its slot three metres behind.
abbrev survey_plan : MissionPlan ℤ
survey_plan = record {
  mission_id = "m1";
  paths = ("drone_1", spot 0 ∷ spot 8 ∷ []) ∷ [];
  followers = ("drone_2", ("drone_1", vector (negsuc 2) (pos 0) (pos 0))) ∷ [];
}

abbrev pub rested : Supervisor ℤ
rested = new_supervisor fleet (pos 20) none

-- `drone_4` is known to be charged.
abbrev charged_one : Supervisor ℤ
charged_one = observe_battery rested "drone_4" (some (pos 90))

abbrev on_mission : Supervisor ℤ
on_mission = (start charged_one survey).0

-- The leader runs low.
abbrev running_low : Supervisor ℤ
running_low = observe_battery on_mission "drone_1" (some (pos 10))

abbrev history : Calls rested running_low
history =
    then_call on_mission running_low
      (then_call charged_one on_mission
        (then_call rested charged_one no_call (battery_seen "drone_4" (some (pos 90))))
        (started survey))
      (battery_seen "drone_1" (some (pos 10)))

pub fleet-Distinct : Distinct fleet
fleet-Distinct = (refl, (refl, (refl, (refl, tt))))

reachable-IsValid_example :
    IsValid running_low
    × (running_low.drones ≡ sort_ids fleet)
    × (running_low.threshold ≡ pos 20)
    × (running_low.planner ≡ none)
reachable-IsValid_example =
    reachable-IsValid fleet (pos 20) none running_low fleet-Distinct tt history

charged_one-IsValid : IsValid charged_one
charged_one-IsValid =
    (reachable-IsValid fleet (pos 20) none charged_one fleet-Distinct tt
      (then_call rested charged_one no_call (battery_seen "drone_4" (some (pos 90))))).0

running_low-IsValid : IsValid running_low
running_low-IsValid =
    (reachable-IsValid fleet (pos 20) none running_low fleet-Distinct tt history).0

on_mission_lem : running_low.mission ≡ some (new_mission survey survey_plan)
unfolding start new_supervisor observe_battery eligible low choose_plan plan_mission launch lookup
    insert sort_ids drone_names plan_swarm_waypoints formation_offsets slots line_formation plan_ids
    plan_drones send_home assign_all slot_all mission_drones keys
on_mission_lem = refl

abbrev launch_messages : List (Action ℤ)
launch_messages =
    assign "drone_1" "m1" (spot 0 ∷ spot 8 ∷ [])
    ∷ slot "drone_2" "m1" "drone_1" (vector (negsuc 2) (pos 0) (pos 0))
    ∷ active_mission (some "m1") ("drone_1" ∷ "drone_2" ∷ [])
    ∷ []

launch_messages_lem : (start charged_one survey).1 ≡ ok launch_messages
unfolding start new_supervisor observe_battery eligible low choose_plan plan_mission launch lookup
    insert sort_ids drone_names plan_swarm_waypoints formation_offsets slots line_formation plan_ids
    plan_drones send_home assign_all slot_all mission_drones keys second_number
launch_messages_lem = refl

no_planner : ReturnsDicts charged_one.planner
unfolding observe_battery new_supervisor lookup insert sort_ids
no_planner = tt

start_tasks_fit_example :
    Distinct (tasked launch_messages)
    × ((k : String)
        → contains k (tasked launch_messages) ≡ true
        → (contains k charged_one.drones ≡ true) × (low charged_one k ≡ false))
start_tasks_fit_example =
    start_tasks_fit charged_one survey launch_messages no_planner charged_one-IsValid
      launch_messages_lem

abbrev mission_now : Mission ℤ
mission_now = new_mission survey survey_plan

reallocate-sent_home_example :
    sent_home (reallocate running_low).1
    ≡ keep
        (λ d. not (contains d []) && (low running_low d && not (finished mission_now d)))
        (plan_ids survey_plan)
reallocate-sent_home_example =
    reallocate-sent_home running_low mission_now running_low-IsValid on_mission_lem

reallocate-IsValid_example :
    IsValid (reallocate running_low).0
    × (m' : Mission ℤ) × ((reallocate running_low).0.mission ≡ some m')
    × (size m'.plan ≡ size survey_plan)
reallocate-IsValid_example =
    reallocate-IsValid running_low mission_now running_low-IsValid on_mission_lem

reallocate_settles_example :
    reallocate (reallocate running_low).0 ≡ ((reallocate running_low).0, [])
reallocate_settles_example =
    reallocate_settles running_low float_of_whole-IsOrdered running_low-IsValid

reallocate_tasks_fit_example :
    (contains "drone_4" (assigned (reallocate running_low).1) ≡ true
      → TakesOver running_low mission_now "drone_4")
    × (contains "drone_4" (slotted (reallocate running_low).1) ≡ true
        → TakesOver running_low mission_now "drone_4" ⊎ (has_part survey_plan "drone_4" ≡ true))
reallocate_tasks_fit_example =
    reallocate_tasks_fit running_low mission_now "drone_4" running_low-IsValid on_mission_lem

-- The follower is low too, was sent home with nobody to take over, and is still in the plan.
abbrev both_low : Supervisor ℤ
both_low = observe_battery running_low "drone_2" (some (pos 5))

abbrev dropped_follower : Mission ℤ
dropped_follower = record mission_now { dropped = "drone_2" ∷ [] }

relieve_reslots_example :
    contains "drone_2" (slotted (relieve both_low dropped_follower "drone_1").1) ≡ true
unfolding must_go low finished replacement busy charged start new_supervisor observe_battery
    eligible choose_plan plan_mission launch lookup insert sort_ids drone_names plan_swarm_waypoints
    formation_offsets slots line_formation first_idle keys
relieve_reslots_example =
    relieve_reslots both_low dropped_follower "drone_1" "drone_4" "drone_2" (spot 0 ∷ spot 8 ∷ [])
      (vector (negsuc 2) (pos 0) (pos 0)) refl refl refl refl

survey_plan_lem : plan_mission survey fleet ≡ ok survey_plan
unfolding plan_mission drone_names plan_swarm_waypoints formation_offsets slots insert
    line_formation
survey_plan_lem = refl

plan_mission-IsFlyable_example :
    IsFlyable survey_plan
    × (size survey_plan ≡ 2)
    × ((k : String) → has_part survey_plan k ≡ contains k ("drone_1" ∷ "drone_2" ∷ []))
    × (survey_plan.mission_id ≡ "m1")
plan_mission-IsFlyable_example =
    plan_mission-IsFlyable survey fleet survey_plan fleet-Distinct survey_plan_lem

plan_mission_ok_example : is_ok (plan_mission survey fleet) ≡ acceptable survey fleet
plan_mission_ok_example = plan_mission_ok survey fleet

-- A mission of no drones is not planned: this raises.
plan_mission_raises : plan_mission (record survey { drone_count = 0 }) fleet ≡ err bad_drone_count
unfolding plan_mission drone_names plan_swarm_waypoints
plan_mission_raises = refl

survey_plan-IsDicts : IsDicts survey_plan
unfolding keys
survey_plan-IsDicts = record { paths_once = (refl, tt); followers_once = (refl, tt) }

survey_plan_usable : unusable survey_plan survey fleet ≡ none
unfolding unusable keys sort_ids without_path first_leaderless
survey_plan_usable = refl

unusable_sound_example :
    IsFlyable survey_plan
    × (size survey_plan ≡ 2)
    × ((k : String) → has_part survey_plan k ≡ true → contains k fleet ≡ true)
    × (survey_plan.mission_id ≡ "m1")
unusable_sound_example =
    unusable_sound survey_plan survey fleet survey_plan-IsDicts survey_plan_usable
