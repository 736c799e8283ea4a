-- ===== src/Ground/Orders.antt =====
-- What the reference ground sends on the step after a swarm command was submitted to it.
use mathlib.Core.List.{append-nil}
use swarmsim.Base.{
  none, some, true, [], ◌∷◌, List, String, map, ◌++◌, refl, ap, ◌∙◌, ◌≡◌, inl, inr, arith,
  Bool-cases, Option-cases, Option, Bool,
}
use swarmsim.Float.{Float}
use swarmsim.Trajectory.{Vector3}
use swarmsim.SwarmState.{DroneReadings}
use swarmsim.Dict.{lookup}
use swarmsim.Errors.{ok}
use swarmsim.Planning.{CommandMessage}
use swarmsim.Supervisor.State.{
  Supervisor, Action, command_drone, active_mission, observe_battery, observe_position,
  observe_progress,
}
use swarmsim.Supervisor.Start.{command}
use swarmsim.Supervisor.Reallocate.{reallocate}
use swarmsim.Reference.{
  Message, Body, command_given, telemetry, progress_made, assignment, slot_given, pose,
}
use swarmsim.Ground.{
  ReferenceGround, submit_command, hear, hear_body, hear_all, decide, carry_out, carry_out_all,
  step,
}

module _ {F : Type 0} where
  -- The message of a swarm command.
  abbrev pub order : String → String → Message F
  order name d = record { sender = "ground"; recipient = d; body = command_given name }

  carry_out-orders :
      (ds : List String) (name : String) (g : ReferenceGround F)
      → (carry_out_all g (map (λ d. command_drone d name) ds ++ active_mission none [] ∷ [])).1
        ≡ map (order name) ds
  unfolding carry_out_all carry_out
  carry_out-orders [] name g = refl
  carry_out-orders (d ∷ ds) name g =
      ap (λ (ms : List (Message F)). order name d ∷ ms) (carry_out-orders ds name g)

  -- The ground has no mission in progress, and these actions are pending.
  record IsIdle (actions : List (Action F)) (g : ReferenceGround F) : Type 0 where
    no_mission : (g.supervisor).mission ≡ none
    waiting : g.pending ≡ actions

module _ {F : Type 0} ⦃f : Float F⦄ where
  -- What is heard of the drones starts no mission.
  idle_observed :
      (s : Supervisor F) (drone : String) (b : Option F) (p : Option (Vector3 F))
      → s.mission ≡ none
      → (observe_position (observe_battery s drone b) drone p).mission ≡ none
  unfolding observe_position observe_battery
  idle_observed s drone b none h = ground arith
  idle_observed s drone b (some p) h = ground arith

  body-IsIdle :
      (actions : List (Action F)) (g : ReferenceGround F) (now : F) (sender : String)
      (r : DroneReadings F) (body : Body F)
      → IsIdle actions g
      → IsIdle actions (hear_body g now sender r body)
  unfolding hear_body observe_progress
  body-IsIdle actions g now sender r (telemetry t) h = record {
    no_mission = idle_observed g.supervisor sender (some t.battery_pct) t.position h.no_mission;
    waiting = h.waiting;
  }
  body-IsIdle actions g now sender r (progress_made p) h = record {
    no_mission = rw (h.no_mission) refl;
    waiting = h.waiting;
  }
  body-IsIdle actions g now sender r (assignment m ws) h = h
  body-IsIdle actions g now sender r (slot_given m l o) h = h
  body-IsIdle actions g now sender r (command_given n) h = h
  body-IsIdle actions g now sender r (pose p) h = h

  hear_all-IsIdle :
      (actions : List (Action F)) (inbox : List (Message F)) (g : ReferenceGround F) (now : F)
      → IsIdle actions g
      → IsIdle actions (hear_all g now inbox)
  unfolding hear_all hear
  hear_all-IsIdle actions [] g now h = h
  hear_all-IsIdle actions (m ∷ inbox) g now h =
      hear_all-IsIdle actions inbox (hear g now m) now heard
    where
      heard : IsIdle actions (hear g now m)
      heard = elim (Option-cases (lookup m.sender g.readings)) [
        | inl e ↦ rw (e, hear) h
        | inr (r, e) ↦ rw (e, hear) (body-IsIdle actions g now m.sender r m.body h)
      ]

  decide-IsIdle :
      (actions : List (Action F)) (g : ReferenceGround F) (now : F)
      → IsIdle actions g
      → IsIdle actions (decide g now)
  unfolding decide reallocate
  decide-IsIdle actions g now h =
      let due : Bool = elim g.reallocated [
        | none ↦ true
        | some last ↦ f.le (f.of_nat 1) (f.sub now last)
      ] in
      elim (Bool-cases due) [
        | inr early ↦ rw (early, decide) h
        | inl late ↦
            rw (late, decide, h.no_mission)
              (record { no_mission = refl; waiting = append-nil g.pending ∙ h.waiting })
      ]

  -- Where nothing was pending, the ground sends on its next step the command to every drone of its
  -- fleet and nothing else, whatever it hears.
  pub step-orders :
      (g : ReferenceGround F) (message : CommandMessage) (now : F) (inbox : List (Message F))
      → g.pending ≡ []
      → (step (submit_command g (ok message)).0 now inbox).1
        ≡ map (order message.command) (g.supervisor).drones
  unfolding step submit_command command
  step-orders g message now inbox none_pending =
      let actions =
        map (λ d. command_drone d message.command) (g.supervisor).drones
        ++ active_mission none [] ∷ [] in
      let g₁ = (submit_command g (ok message)).0 in
      let start : IsIdle actions (record g₁ { now = now }) = record {
        no_mission = refl;
        waiting = ap (λ (before : List (Action F)). before ++ actions) none_pending;
      } in
      let h =
        decide-IsIdle actions (hear_all (record g₁ { now = now }) now inbox) now
          (hear_all-IsIdle actions inbox (record g₁ { now = now }) now start) in
      rw (h.waiting) (carry_out-orders (g.supervisor).drones message.command _)
