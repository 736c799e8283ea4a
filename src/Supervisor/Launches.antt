-- ===== src/Supervisor/Launches.antt =====
-- Who flies a mission that `start` has launched, and who is sent home (supervisor.py).
use swarmsim.Fleet.{sort_ids}
use swarmsim.Supervisor.Relief.{IsSound}
use swarmsim.Errors.{ok}
use swarmsim.Dict.{keys}
use swarmsim.Planning.Plans.{IsFlyable}
use swarmsim.Supervisor.Guarantees.{IsValid}
use swarmsim.Planning.{MissionMessage, MissionPlan}
use swarmsim.Supervisor.State.{Action, Supervisor, Reason, rejected, low, mission_drones}
use swarmsim.Float.{Float}
use swarmsim.Supervisor.Messages.{assigned, slotted}
use swarmsim.Base.{
  true, false, inl, inr, refl, [], ◌∷◌, List, String, ◌++◌, ◌≡◌, Distinct, contains, keep, not,
  Distinct-append, arith, contains-append,
}
use swarmsim.Supervisor.Start.{start}
use swarmsim.Supervisor.Missions.{
  ReturnsDicts, refuses, launches, start-Started, launch_actions, launch_actions-messages,
  contains-eligible, new_mission,
}

module _ {F : Type 0} where
  -- The drones that a list of actions gives a task.
  abbrev pub tasked : List (Action F) → List String
  tasked actions = assigned actions ++ slotted actions

  launched-tasked :
      (home : List String) (plan : MissionPlan F)
      → tasked (launch_actions home plan) ≡ keys plan.paths ++ keys plan.followers
  launched-tasked home plan = let (a, b, _) = launch_actions-messages home plan in rw (a, b) refl

  rejected-tasked :
      (mission : String) (reason : Reason) (actions : List (Action F))
      → actions ≡ rejected mission reason ∷ []
      → tasked actions ≡ []
  unfolding assigned slotted
  rejected-tasked mission reason actions e = rw e refl

module _ {F : Type 0} ⦃f : Float F⦄ where
  -- Whatever `start` sends, no drone is given two tasks, and a drone that is given one is of the
  -- fleet and not known to be low: under the default planner, and under any other that returns
  -- plans of two dicts.
  pub start_tasks_fit :
      (s : Supervisor F) (mission : MissionMessage F) (actions : List (Action F))
      → ReturnsDicts s.planner
      → IsValid s
      → (start s mission).1 ≡ ok actions
      → Distinct (tasked actions)
        × ((k : String)
            → contains k (tasked actions) ≡ true
            → (contains k s.drones ≡ true) × (low s k ≡ false))
  start_tasks_fit s mission actions r v e = elim (start-Started s mission r v.fleet) [
    | refuses _ (inl (x, e')) ↦ absurd (cc)
    | refuses _ (inr (reason, e')) ↦
        rw (rejected-tasked mission.mission_id reason actions (cc)) (tt, λ k h. absurd (cc))
    | launches plan fl _ (inl (x, c, e')) ↦ absurd (cc)
    | launches plan fl _ (inr (drones, p, e')) ↦
        let home = sort_ids (keep (λ d. not (contains d drones)) (mission_drones s)) in
        let same : launch_actions home plan ≡ actions = cc in
        let b = fl.flyable in
        rw (← same, launched-tasked home plan)
          (
            Distinct-append (keys plan.paths) (keys plan.followers) b.distinct_paths
                b.distinct_followers b.apart,
            λ k h. ground (
              arith,
              contains-append k (keys plan.paths) (keys plan.followers),
              fl.from_offered k,
              contains-eligible s k,
            ),
          )
  ]

  new_mission-IsSound :
      (mission : MissionMessage F) (plan : MissionPlan F)
      → IsFlyable plan
      → IsSound (new_mission mission plan)
  new_mission-IsSound mission plan b = record {
    flyable = b;
    retired_out = λ k h. absurd (cc);
    dropped_in = λ k h. absurd (cc);
  }

  -- `start` keeps the supervisor valid, also when it raises.
  pub start-IsValid :
      (s : Supervisor F) (mission : MissionMessage F)
      → ReturnsDicts s.planner
      → IsValid s
      → IsValid (start s mission).0
  start-IsValid s mission r v = elim (start-Started s mission r v.fleet) [
    | refuses same _ ↦ rw same v
    | launches plan fl same _ ↦
        rw same (record { fleet = v.fleet; sound = new_mission-IsSound mission plan fl.flyable })
  ]
