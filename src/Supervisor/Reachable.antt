-- ===== src/Supervisor/Reachable.antt =====
-- Every state of the supervisor (supervisor.py): what its methods can do, one after another.
use swarmsim.Fleet.{sort_ids}
use swarmsim.Fleet.Sorting.{sort_ids-Distinct}
use swarmsim.Dict.{lookup}
use swarmsim.Trajectory.{Vector3}
use swarmsim.Planning.{MissionMessage, CommandMessage}
use swarmsim.Float.{Float}
use swarmsim.Base.{
  none, some, inl, inr, refl, [], ◌∷◌, List, String, ◌≡◌, Option-cases, arith, Bool-cases, ◌∙◌,
  Option, is_some, map, ℕ, Bool, Distinct, ◌++◌, is_text,
}
use swarmsim.Supervisor.Start.{start, command, launch}
use swarmsim.Supervisor.Guarantees.{IsValid, reallocate-IsValid, reallocate-none, Sound}
use swarmsim.Supervisor.Launches.{start-IsValid}
use swarmsim.Supervisor.Missions.{ReturnsDicts}
use swarmsim.Supervisor.State.{
  observe_battery, observe_position, observe_progress, new_supervisor, Supervisor, Planner,
  command_drone, active_mission,
}
use swarmsim.Supervisor.Reallocate.{reallocate, close_pass}

-- One call of a method of the supervisor.
pub data Call {F : Type 0} ⦃f : Float F⦄ (s : Supervisor F) : Supervisor F → Type 0 where
  battery_seen : (drone : String) (b : Option F) → Call s (observe_battery s drone b)
  position_seen : (drone : String) (p : Option (Vector3 F)) → Call s (observe_position s drone p)
  progress_seen :
      (drone : String) (mission_id : Option String) (i : Option ℕ) (complete : Bool)
      → Call s (observe_progress s drone mission_id i complete)
  started : (mission : MissionMessage F) → Call s (start s mission).0
  commanded : (message : CommandMessage) → Call s (command s message).0
  reallocated_now : Call s (reallocate s).0

-- Any number of calls, one after another.
pub data Calls {F : Type 0} ⦃f : Float F⦄ (s : Supervisor F) : Supervisor F → Type 0 where
  no_call : Calls s s
  then_call : (s' s'' : Supervisor F) → Calls s s' → Call s' s'' → Calls s s''

module _ {F : Type 0} ⦃f : Float F⦄ where
  -- What no call changes: the fleet, the threshold and the planner.
  unfoldable pub Same : Supervisor F → Supervisor F → Type 0
  Same s s' = (s'.drones ≡ s.drones) × (s'.threshold ≡ s.threshold) × (s'.planner ≡ s.planner)

  start-Same : (s : Supervisor F) (mission : MissionMessage F) → Same s (start s mission).0
  unfolding start launch Same
  start-Same s mission = ground arith

  reallocate-Same : (s : Supervisor F) → Same s (reallocate s).0
  unfolding reallocate close_pass Same
  reallocate-Same s = elim (Option-cases s.mission) [
    | inl e ↦ rw (e, reallocate) (refl, refl, refl)
    | inr (m, e) ↦ rw (e, reallocate) (refl, refl, refl)
  ]

  pub Call-Same : (s s' : Supervisor F) → Call s s' → Same s s'
  unfolding observe_battery observe_position observe_progress command Same
  Call-Same s s' (battery_seen drone b) = ground arith
  Call-Same s s' (position_seen drone none) = (refl, refl, refl)
  Call-Same s s' (position_seen drone (some p)) = ground arith
  Call-Same s s' (progress_seen drone id i complete) = ground arith
  Call-Same s s' (started mission) = start-Same s mission
  Call-Same s s' (commanded message) = (refl, refl, refl)
  Call-Same s s' reallocated_now = reallocate-Same s

  progress-IsValid :
      (s : Supervisor F) (drone : String) (id : Option String) (i : Option ℕ) (complete : Bool)
      → IsValid s
      → IsValid (observe_progress s drone id i complete)
  unfolding observe_progress
  progress-IsValid s drone id i complete v = elim (Option-cases s.mission) [
    | inl e ↦ rw (e, observe_progress) v
    | inr (m, e) ↦ elim (Bool-cases (is_text id m.mission_id)) [
      | inr other ↦ rw (e, other, observe_progress) v
      | inl same ↦
          let w : Sound (some m) = rw e at v.sound in
          rw (e, same, observe_progress)
            (record {
              fleet = v.fleet;
              sound = record {
                flyable = w.flyable;
                retired_out = w.retired_out;
                dropped_in = w.dropped_in;
              };
            })
    ]
  ]

  Call-IsValid : (s s' : Supervisor F) → ReturnsDicts s.planner → Call s s' → IsValid s → IsValid s'
  unfolding observe_battery observe_position command
  Call-IsValid s s' r (battery_seen drone b) v =
      elim (Bool-cases (is_some (lookup drone s.battery))) [
        | inl known ↦ rw (known, observe_battery) (record { fleet = v.fleet; sound = v.sound })
        | inr unknown ↦ rw (unknown, observe_battery) v
      ]
  Call-IsValid s s' r (position_seen drone none) v = v
  Call-IsValid s s' r (position_seen drone (some p)) v =
      elim (Bool-cases (is_some (lookup drone s.battery))) [
        | inl known ↦ rw (known, observe_position) (record { fleet = v.fleet; sound = v.sound })
        | inr unknown ↦ rw (unknown, observe_position) v
      ]
  Call-IsValid s s' r (progress_seen drone id i complete) v =
      progress-IsValid s drone id i complete v
  Call-IsValid s s' r (started mission) v = start-IsValid s mission r v
  Call-IsValid s s' r (commanded message) v = record { fleet = v.fleet; sound = tt }
  Call-IsValid s s' r reallocated_now v = elim (Option-cases s.mission) [
    | inl e ↦ rw (reallocate-none s e) v
    | inr (m, e) ↦ (reallocate-IsValid s m v e).0
  ]

  calls_keep :
      (s s' : Supervisor F)
      → ReturnsDicts s.planner
      → IsValid s
      → Calls s s'
      → IsValid s' × Same s s'
  unfolding Same
  calls_keep s s' r v no_call = (v, (refl, refl, refl))
  calls_keep s s' r v (then_call before after calls call) =
      let (v', (a, b, c)) = calls_keep s before r v calls in
      let (a', b', c') = Call-Same before after call in
      (Call-IsValid before after (rw c r) call v', (a' ∙ a, b' ∙ b, c' ∙ c))

  new_supervisor-IsValid :
      (drones : List String) (threshold : F) (planner : Option (Planner F))
      → Distinct drones
      → IsValid (new_supervisor drones threshold planner)
  unfolding new_supervisor
  new_supervisor-IsValid drones threshold planner d = record {
    fleet = sort_ids-Distinct drones d;
    sound = tt;
  }

  -- From a new supervisor of drones that are named once each, whatever is reported, asked and
  -- commanded, and however often it decides: the fleet, the threshold and the planner stay, and
  -- the plan of a mission in progress can be flown, drones that were replaced have left it, and
  -- drones that were sent home without a replacement are still in it.
  pub reachable-IsValid :
      (drones : List String) (threshold : F) (planner : Option (Planner F)) (s : Supervisor F)
      → Distinct drones
      → ReturnsDicts planner
      → Calls (new_supervisor drones threshold planner) s
      → IsValid s × (s.drones ≡ sort_ids drones) × (s.threshold ≡ threshold) × (s.planner ≡ planner)
  unfolding new_supervisor Same
  reachable-IsValid drones threshold planner s d r calls =
      let first = new_supervisor drones threshold planner in
      let (v, (a, b, c)) =
        calls_keep first s r (new_supervisor-IsValid drones threshold planner d) calls in
      (v, a, b, c)

  -- A swarm command goes to every drone of the fleet, and ends the mission: after it, until a
  -- mission is started, `reallocate` sends nothing and changes nothing.
  command_ends :
      (s : Supervisor F) (message : CommandMessage)
      → ((command s message).1
          ≡ map (λ d. command_drone d message.command) s.drones ++ active_mission none [] ∷ [])
        × (reallocate (command s message).0 ≡ ((command s message).0, []))
  unfolding command
  command_ends s message = (refl, reallocate-none (command s message).0 refl)
