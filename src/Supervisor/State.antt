-- ===== src/Supervisor/State.antt =====
-- supervisor.py: the supervisor's state, its actions, and what the swarm reports to it. A method
-- that changes the supervisor returns the new one. A set of ids is a list that names each once.
use swarmsim.Fleet.{sort_ids}
use swarmsim.Trajectory.{Vector3}
use swarmsim.Float.{Float}
use swarmsim.Planning.{MissionPlan, MissionMessage}
use swarmsim.Base.{
  none, some, false, [], ◌∷◌, String, ℕ, Option, List, Bool, if◌then◌else◌, contains, is_some,
  is_text, ◌++◌,
}
use swarmsim.Dict.{lookup, insert, keys, Dict}

-- Why a plan cannot be flown; the source says each as a text.
pub data Problem : Type 0 where
  not_a_plan : Problem
  other_mission : String → Problem
  both_roles : List String → Problem
  wrong_count : ℕ → Problem
  unfit : List String → Problem
  empty_paths : List String → Problem
  leaderless : String → String → Problem

-- Why a mission is rejected or a task is dropped.
pub data Reason : Type 0 where
  -- how many are needed, how many are fit, and which are low
  too_few_fit : ℕ → ℕ → List String → Reason
  planner_failed : Reason
  unusable_plan : Problem → Reason
  nobody_left : Reason

pub data Action (F : Type 0) : Type 0 where
  assign : String → String → List (Vector3 F) → Action F
  slot : String → String → String → Vector3 F → Action F
  command_drone : String → String → Action F
  active_mission : Option String → List String → Action F
  rejected : String → Reason → Action F
  task_dropped : String → String → Reason → Action F

-- What a call of another party's planner ends in.
pub data Planned (F : Type 0) : Type 0 where
  raised : Planned F
  another_value : Planned F
  planned : MissionPlan F → Planned F

abbrev pub Planner : Type 0 → Type 0
Planner F = MissionMessage F → List String → Dict (Vector3 F) → Planned F

pub record TaskProgress : Type 0 where
  pub waypoint_index : Option ℕ
  pub complete : Bool

pub record Mission (F : Type 0) : Type 0 where
  pub mission_id : String
  pub plan : MissionPlan F
  pub progress : Dict TaskProgress
  pub retired : List String
  pub dropped : List String

pub record Supervisor (F : Type 0) : Type 0 where
  pub drones : List String
  pub threshold : F
  pub battery : Dict (Option F)
  pub positions : Dict (Vector3 F)
  pub planner : Option (Planner F)
  pub mission : Option (Mission F)

-- `ids.add(d)`
abbrev pub add_id : String → List String → List String
add_id d ids = if contains d ids then ids else d ∷ ids

module _ {F : Type 0} where
  -- `{d: None for d in drones}`
  unknown_batteries : List String → Dict (Option F) → Dict (Option F)
  unknown_batteries [] batteries = batteries
  unknown_batteries (d ∷ ds) batteries = unknown_batteries ds (insert d none batteries)

  -- `MissionSupervisor(drones, battery_threshold_pct, planner)`
  unfoldable pub new_supervisor : List String → F → Option (Planner F) → Supervisor F
  unfolding unknown_batteries
  new_supervisor drones threshold planner = record {
    drones = sort_ids drones;
    threshold = threshold;
    battery = unknown_batteries (sort_ids drones) [];
    positions = [];
    planner = planner;
    mission = none;
  }

  unfoldable pub observe_battery : Supervisor F → String → Option F → Supervisor F
  observe_battery s drone battery =
      if is_some (lookup drone s.battery)
      then record s { battery = insert drone battery s.battery }
      else s

  -- `armed` is not read here, and left out.
  unfoldable pub observe_position : Supervisor F → String → Option (Vector3 F) → Supervisor F
  observe_position s drone none = s
  observe_position s drone (some position) =
      if is_some (lookup drone s.battery)
      then record s { positions = insert drone position s.positions }
      else s

  unfoldable pub observe_progress :
      Supervisor F → String → Option String → Option ℕ → Bool → Supervisor F
  observe_progress s drone mission_id waypoint_index complete = elim s.mission [
    | none ↦ s
    | some m ↦
        if is_text mission_id m.mission_id
        then record s {
          mission = some (record m {
            progress =
                insert drone (record { waypoint_index = waypoint_index; complete = complete })
                  m.progress;
          });
        }
        else s
  ]

  -- The drones of a plan, in id order (`_mission_drones`).
  unfoldable pub plan_ids : MissionPlan F → List String
  plan_ids plan = sort_ids (keys plan.paths ++ keys plan.followers)

  unfoldable pub mission_drones : Supervisor F → List String
  mission_drones s = elim s.mission [ none ↦ [] | some m ↦ plan_ids m.plan ]

  -- `_finished`
  unfoldable pub finished : Mission F → String → Bool
  finished m drone = elim (lookup drone m.progress) [ none ↦ false | some p ↦ p.complete ]

module _ {F : Type 0} ⦃f : Float F⦄ where
  -- `_low`
  unfoldable pub low : Supervisor F → String → Bool
  low s drone = elim (lookup drone s.battery) [
    | none ↦ false
    | some none ↦ false
    | some (some battery) ↦ f.lt battery s.threshold
  ]
