-- ===== src/Ground/Reports.antt =====
-- Every state that the ground reaches (scenarios/sut.py), whatever it is sent.
use swarmsim.Ground.{
  ReferenceGround, new_ground, submit_mission, submit_command, hear_body, hear, hear_all, decide,
  carry_out, carry_out_all, place, caught,
}
use swarmsim.Ground
use swarmsim.Ground.Announcements.{announce, in_progress, IsReady}
use swarmsim.Supervisor.State.{
  Supervisor, Action, active_mission, assign, slot, command_drone, rejected, task_dropped,
}
use swarmsim.Reference.{Message}
use swarmsim.SwarmState.{build_state_message}
use swarmsim.Errors.{Result}
use swarmsim.Planning.{MissionMessage, CommandMessage}
use swarmsim.Float.{Float}
use swarmsim.Base.{none, refl, [], ◌∷◌, List, String, Option, ◌≡◌, ◌∙◌, sym, ap}
use swarmsim.Ground.Tells.{Tells, mission-Tells, command-Tells, decide-Tells, hear_all-Tells}

-- What reaches the ground: a payload of a mission or of a command, or a step with its messages.
pub data GroundCall {F : Type 0} ⦃f : Float F⦄ (g : ReferenceGround F)
    : ReferenceGround F → Type 0 where
  mission_asked : (r : Result (MissionMessage F)) → GroundCall g (submit_mission g r).0
  command_asked : (r : Result CommandMessage) → GroundCall g (submit_command g r).0
  stepped : (now : F) (inbox : List (Message F)) → GroundCall g (Ground.step g now inbox).0

pub data GroundCalls {F : Type 0} ⦃f : Float F⦄ (g : ReferenceGround F)
    : ReferenceGround F → Type 0 where
  no_more : GroundCalls g g
  and_then : (g' g'' : ReferenceGround F) → GroundCalls g g' → GroundCall g' g'' → GroundCalls g g''

module _ {F : Type 0} ⦃f : Float F⦄ where
  -- What carrying actions out changes of what is reported.
  carry_out_all-announce :
      (actions : List (Action F)) (g : ReferenceGround F)
      → (((carry_out_all g actions).0.active_id, (carry_out_all g actions).0.active_drones)
          ≡ announce g.active_id g.active_drones actions)
        × ((carry_out_all g actions).0.supervisor ≡ g.supervisor)
        × ((carry_out_all g actions).0.pending ≡ g.pending)
  unfolding carry_out_all carry_out announce
  carry_out_all-announce [] g = (refl, refl, refl)
  carry_out_all-announce (active_mission id ds ∷ rest) g =
      carry_out_all-announce rest (record g { active_id = id; active_drones = ds })
  carry_out_all-announce (assign d m p ∷ rest) g = carry_out_all-announce rest g
  carry_out_all-announce (slot d m l o ∷ rest) g = carry_out_all-announce rest g
  carry_out_all-announce (command_drone d n ∷ rest) g = carry_out_all-announce rest g
  carry_out_all-announce (rejected m r ∷ rest) g =
      carry_out_all-announce rest (carry_out g (rejected m r)).0
  carry_out_all-announce (task_dropped d m r ∷ rest) g =
      carry_out_all-announce rest (carry_out g (task_dropped d m r)).0

  -- What a step does, before it carries anything out.
  decided : ReferenceGround F → F → List (Message F) → ReferenceGround F
  decided g now inbox = decide (hear_all (record g { now = now }) now inbox) now

  decided-Tells :
      (g : ReferenceGround F) (now : F) (inbox : List (Message F))
      → Tells g
      → Tells (decided g now inbox)
  unfolding decided
  decided-Tells g now inbox t =
      let g₀ = record g { now = now } in
      decide-Tells (hear_all g₀ now inbox) now
        (hear_all-Tells now inbox g₀ (record { ready = t.ready; tells = t.tells }))

  step_told :
      (g : ReferenceGround F) (now : F) (inbox : List (Message F))
      → Tells g
      → IsReady (Ground.step g now inbox).0.supervisor
        × (((Ground.step g now inbox).0.active_id, (Ground.step g now inbox).0.active_drones)
            ≡ in_progress (Ground.step g now inbox).0.supervisor)
        × ((Ground.step g now inbox).0.pending ≡ [])
  unfolding Ground.step decided
  step_told g now inbox t =
      let g₁ = decided g now inbox in
      let t₁ = decided-Tells g now inbox t in
      let (told, same, empty) = carry_out_all-announce g₁.pending (record g₁ { pending = [] }) in
      (rw same t₁.ready, told ∙ t₁.tells ∙ ap (λ s. in_progress s) (sym same), empty)

  step-Tells :
      (g : ReferenceGround F) (now : F) (inbox : List (Message F))
      → Tells g
      → Tells (Ground.step g now inbox).0
  unfolding announce
  step-Tells g now inbox t =
      let (ready, told, empty) = step_told g now inbox t in
      record { ready = ready; tells = rw empty told }

  calls-Tells : (g g' : ReferenceGround F) → Tells g → GroundCalls g g' → Tells g'
  calls-Tells g g' t no_more = t
  calls-Tells g g' t (and_then g₁ _ calls (mission_asked r)) =
      mission-Tells g₁ r (calls-Tells g g₁ t calls)
  calls-Tells g g' t (and_then g₁ _ calls (command_asked r)) =
      command-Tells g₁ r (calls-Tells g g₁ t calls)
  calls-Tells g g' t (and_then g₁ _ calls (stepped now inbox)) =
      step-Tells g₁ now inbox (calls-Tells g g₁ t calls)

  new_ground-Tells :
      (fleet : List String) (s : Supervisor F)
      → IsReady s
      → s.mission ≡ none
      → Tells (new_ground fleet s)
  unfolding new_ground announce in_progress
  new_ground-Tells fleet s r e = record { ready = r; tells = rw e refl }

  -- From a new ground whose supervisor has no mission, names each drone of its fleet once, each
  -- with a number, and has a planner that returns dicts, whatever missions and commands are
  -- submitted and however often it steps: after a step nothing is pending, and the ground reports
  -- the mission that the supervisor has in progress, or none, with exactly the drones that its plan
  -- has at that moment, whichever drones were replaced.
  pub step_reports :
      (fleet : List String) (s : Supervisor F) (g : ReferenceGround F) (now : F)
      (inbox : List (Message F))
      → IsReady s
      → s.mission ≡ none
      → GroundCalls (new_ground fleet s) g
      → ((Ground.step g now inbox).0.pending ≡ [])
        × (Ground.report (Ground.step g now inbox).0
            ≡ build_state_message
                (Ground.step g now inbox).0.readings
                (Ground.step g now inbox).0.now
                (in_progress (Ground.step g now inbox).0.supervisor).0
                (in_progress (Ground.step g now inbox).0.supervisor).1)
  unfolding Ground.report
  step_reports fleet s g now inbox r e calls =
      let g' = (Ground.step g now inbox).0 in
      let t = calls-Tells (new_ground fleet s) g (new_ground-Tells fleet s r e) calls in
      let (_, told, empty) = step_told g now inbox t in
      (
        empty,
        ap (λ (m : Option String × List String). build_state_message g'.readings g'.now m.0 m.1)
            told,
      )
