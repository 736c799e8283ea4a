-- ===== src/Ground/Changes.antt =====
-- What the supervisor's other methods (supervisor.py) announce, and what observing keeps.
use swarmsim.Planning.{CommandMessage}
use swarmsim.Float.{Float}
use swarmsim.Trajectory.{Vector3}
use swarmsim.Supervisor.Guarantees.{reallocate-none}
use swarmsim.Base.{
  map, is_text, ℕ, sym, none, some, inl, inr, refl, [], ◌∷◌, Option, List, String, ◌≡◌, ◌∙◌, length,
  Bool-cases, length-append, arith, Option-cases, ap, Bool,
}
use swarmsim.Supervisor.State.{
  Supervisor, Mission, Action, command_drone, plan_ids, observe_battery, observe_position,
  observe_progress, add_id,
}
use swarmsim.Supervisor.Start.{command}
use swarmsim.Supervisor.Reallocate.{
  reallocate, relieve, relieve_all, close_pass, must_go, replacement,
}
use swarmsim.Supervisor.HandOver.{hand_over_rest}
use swarmsim.Ground.Announcements.{announce, in_progress, announce_last}

module _ {F : Type 0} ⦃f : Float F⦄ where
  relieve_silent :
      (s : Supervisor F) (m : Mission F) (d : String)
      → ((relieve s m d).0.mission_id ≡ m.mission_id)
        × (length (relieve s m d).1 ≡ 0 → (relieve s m d).0 ≡ m)
  unfolding relieve
  relieve_silent s m d = elim (Bool-cases (must_go s m d)) [
    | inr rests ↦ rw (rests, relieve) (refl, λ h. refl)
    | inl must ↦ elim (Option-cases (replacement s m)) [
      | inl e ↦ rw (must, e, relieve) (refl, λ h. absurd (omega arith))
      | inr (r, e) ↦
          rw (must, e, relieve)
            (
              (hand_over_rest (record m { retired = add_id d m.retired }) d r).0,
              λ h. absurd (omega arith),
            )
    ]
  ]

  relieve_all_silent :
      (s : Supervisor F) (ds : List String) (m : Mission F)
      → ((relieve_all s ds m).0.mission_id ≡ m.mission_id)
        × (length (relieve_all s ds m).1 ≡ 0 → (relieve_all s ds m).0 ≡ m)
  unfolding relieve_all
  relieve_all_silent s [] m = (refl, λ h. refl)
  relieve_all_silent s (d ∷ ds) m =
      let m₁ = (relieve s m d).0 in
      let (id, quiet) = relieve_silent s m d in
      let (ids, quiets) = relieve_all_silent s ds m₁ in
      let count = length-append (relieve s m d).1 (relieve_all s ds m₁).1 in
      (ids ∙ id, λ h. quiets (omega (arith, count)) ∙ quiet (omega (arith, count)))

module _ {F : Type 0} ⦃f : Float F⦄ where
  close_pass_announces :
      (s : Supervisor F) (m after : Mission F) (actions : List (Action F)) (id : Option String)
      (ds : List String)
      → (after.mission_id ≡ m.mission_id) × (length actions ≡ 0 → after ≡ m)
      → (id, ds) ≡ in_progress (record s { mission = some m })
      → announce id ds (close_pass s (after, actions)).1
        ≡ in_progress (close_pass s (after, actions)).0
  unfolding close_pass announce in_progress
  close_pass_announces s m after [] id ds (same, quiet) now =
      now ∙ ap (λ m'. in_progress (record s { mission = some m' })) (sym (quiet refl))
  close_pass_announces s m after (a ∷ actions) id ds (same, quiet) now =
      announce_last id (some after.mission_id) ds (plan_ids after.plan) (a ∷ actions)

  pub reallocate_announces :
      (s : Supervisor F) (id : Option String) (ds : List String)
      → (id, ds) ≡ in_progress s
      → announce id ds (reallocate s).1 ≡ in_progress (reallocate s).0
  unfolding announce in_progress reallocate close_pass
  reallocate_announces s id ds now = elim (Option-cases s.mission) [
    | inl e ↦ rw (reallocate-none s e) now
    | inr (m, e) ↦
        let r = relieve_all s (plan_ids m.plan) m in
        rw (e, reallocate)
          (close_pass_announces s m r.0 r.1 id ds (relieve_all_silent s (plan_ids m.plan) m)
            (now ∙ ap (λ m'. in_progress (record s { mission = m' })) e))
  ]

  pub command_announces :
      (s : Supervisor F) (message : CommandMessage) (id : Option String) (ds : List String)
      → announce id ds (command s message).1 ≡ in_progress (command s message).0
  unfolding command in_progress
  command_announces s message id ds =
      announce_last id none ds [] (map (λ d. command_drone d message.command) s.drones)

  pub battery_keeps :
      (s : Supervisor F) (drone : String) (b : Option F)
      → in_progress (observe_battery s drone b) ≡ in_progress s
  unfolding observe_battery in_progress
  battery_keeps s drone b = ground arith

  pub position_keeps :
      (s : Supervisor F) (drone : String) (p : Option (Vector3 F))
      → in_progress (observe_position s drone p) ≡ in_progress s
  unfolding observe_position in_progress
  position_keeps s drone none = refl
  position_keeps s drone (some p) = ground arith

  pub progress_keeps :
      (s : Supervisor F) (drone : String) (id : Option String) (i : Option ℕ) (complete : Bool)
      → in_progress (observe_progress s drone id i complete) ≡ in_progress s
  unfolding observe_progress in_progress
  progress_keeps s drone id i complete = elim (Option-cases s.mission) [
    | inl e ↦ rw (e, observe_progress) (rw e refl)
    | inr (m, e) ↦ elim (Bool-cases (is_text id m.mission_id)) [
      | inr other ↦ rw (e, other, observe_progress) (rw e refl)
      | inl same ↦ rw (e, same, observe_progress) refl
    ]
  ]
