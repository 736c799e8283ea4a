-- ===== src/Supervisor/Start.antt =====
-- supervisor.py: how a mission is planned onto the drones and started, and what a swarm command
-- does.
use swarmsim.Supervisor.State.{
  Action, Reason, Planned, Supervisor, assign, slot, planner_failed, Problem, command_drone,
  unusable_plan, not_a_plan, low, leaderless, planned, active_mission, rejected, other_mission,
  plan_ids, too_few_fit, both_roles, wrong_count, mission_drones, unfit, empty_paths, raised,
  another_value,
}
use swarmsim.Fleet.{sort_ids}
use swarmsim.Errors.{Result, map_result, ◌>>=◌, ok, err}
use swarmsim.Trajectory.{Vector3}
use swarmsim.Float.{Float}
use swarmsim.Base.{
  none, some, [], ◌∷◌, List, String, if◌then◌else◌, Option, map, keep, num_eq, not, ltb, length,
  contains, take, ◌++◌, ◌==◌,
}
use swarmsim.Dict.{lookup, insert, keys, Dict}
use swarmsim.Planning.{plan_mission, plan_drones, MissionPlan, MissionMessage, CommandMessage}

module _ {F : Type 0} where
  -- `[d for d, path in plan.paths.items() if not path]`
  unfoldable pub without_path : Dict (List (Vector3 F)) → List String
  without_path [] = []
  without_path ((d, path) ∷ paths) =
      let rest = without_path paths in if num_eq (length path) 0 then d ∷ rest else rest

  -- The first follower whose leader flies no path.
  unfoldable pub first_leaderless : List String → Dict (String × Vector3 F) → Option Problem
  first_leaderless leaders [] = none
  first_leaderless leaders ((follower, (leader, _)) ∷ followers) =
      let rest = first_leaderless leaders followers in
      if contains leader leaders then rest else some (leaderless follower leader)

  -- `_unusable`, on a plan
  unfoldable pub unusable : MissionPlan F → MissionMessage F → List String → Option Problem
  unusable plan mission offered =
      let both = sort_ids (keep (λ d. contains d (keys plan.followers)) (keys plan.paths)) in
      let drones = keys plan.paths ++ keys plan.followers in
      let outside = keep (λ d. not (contains d offered)) drones in
      let empty = without_path plan.paths in
      if not (plan.mission_id == mission.mission_id)
      then some (other_mission plan.mission_id)
      else if ltb 0 (length both)
      then some (both_roles both)
      else if not (num_eq (length drones) mission.drone_count)
      then some (wrong_count (length drones))
      else if ltb 0 (length outside)
      then some (unfit outside)
      else if ltb 0 (length empty)
      then some (empty_paths empty)
      else first_leaderless (keys plan.paths) plan.followers

  -- `{d: self._positions[d] for d in eligible if d in self._positions}`
  unfoldable pub known_positions :
      Dict (Vector3 F) → List String → Dict (Vector3 F) → Dict (Vector3 F)
  known_positions positions [] known = known
  known_positions positions (d ∷ ds) known =
      known_positions positions ds
        (elim (lookup d positions) [ none ↦ known | some p ↦ insert d p known ])

  -- `Command(drone, "rtl") for drone in ...`
  unfoldable pub send_home : List String → List (Action F)
  send_home = map (λ d. command_drone d "rtl")

  unfoldable pub assign_all : String → Dict (List (Vector3 F)) → List (Action F)
  assign_all mission [] = []
  assign_all mission ((d, path) ∷ paths) = assign d mission path ∷ assign_all mission paths

  unfoldable pub slot_all : String → Dict (String × Vector3 F) → List (Action F)
  slot_all mission [] = []
  slot_all mission ((d, (leader, offset)) ∷ followers) =
      slot d mission leader offset ∷ slot_all mission followers

-- What `_plan` returns.
pub data Choice (F : Type 0) : Type 0 where
  flown : MissionPlan F → Choice F
  refused : Reason → Choice F

module _ {F : Type 0} ⦃f : Float F⦄ where
  -- A planner's answer, checked.
  unfoldable pub checked : Planned F → MissionMessage F → List String → Choice F
  checked raised mission offered = refused planner_failed
  checked another_value mission offered = refused (unusable_plan not_a_plan)
  checked (planned plan) mission offered = elim (unusable plan mission offered) [
    | some problem ↦ refused (unusable_plan problem)
    | none ↦ flown plan
  ]

  -- `_plan`
  unfoldable pub choose_plan : Supervisor F → MissionMessage F → List String → Result (Choice F)
  choose_plan s mission eligible = elim s.planner [
    | none ↦ map_result flown (plan_mission mission (take mission.drone_count eligible))
    | some planner ↦ ok (
        checked (planner mission eligible (known_positions s.positions eligible [])) mission
          eligible)
  ]

  -- The drones that are fit to fly: those not known to be low.
  unfoldable pub eligible : Supervisor F → List String
  eligible s = keep (λ d. not (low s d)) s.drones

  -- `start` from where the plan is known. `superseded` are the drones of the mission before.
  unfoldable pub launch :
      Supervisor F
      → MissionMessage F
      → List String
      → MissionPlan F
      → Supervisor F × Result (List (Action F))
  launch s mission superseded plan =
      let s' = record s {
        mission = some (record {
          mission_id = mission.mission_id;
          plan = plan;
          progress = [];
          retired = [];
          dropped = [];
        });
      } in
      (
        s',
        plan_drones plan >>= λ drones. ok (
            send_home (sort_ids (keep (λ d. not (contains d drones)) superseded))
            ++ (assign_all plan.mission_id plan.paths
                ++ (slot_all plan.mission_id plan.followers
                    ++ (active_mission (some plan.mission_id) (plan_ids plan) ∷ [])))),
      )

  unfoldable pub start : Supervisor F → MissionMessage F → Supervisor F × Result (List (Action F))
  start s mission =
      let fit = eligible s in
      if ltb (length fit) mission.drone_count
      then (
        s,
        ok (
            rejected mission.mission_id
              (too_few_fit mission.drone_count (length fit) (keep (low s) s.drones))
            ∷ []),
      )
      else elim (choose_plan s mission fit) [
        | err e ↦ (s, err e)
        | ok (refused reason) ↦ (s, ok (rejected mission.mission_id reason ∷ []))
        | ok (flown plan) ↦ launch s mission (mission_drones s) plan
      ]

  -- `MissionSupervisor.command`
  unfoldable pub command : Supervisor F → CommandMessage → Supervisor F × List (Action F)
  command s message = (
    record s { mission = none },
    map (λ d. command_drone d message.command) s.drones ++ active_mission none [] ∷ [],
  )
