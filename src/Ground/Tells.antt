-- ===== src/Ground/Tells.antt =====
-- What keeps the ground's account of the mission in progress (scenarios/sut.py).
use swarmsim.Ground.{
  ReferenceGround, new_ground, submit_mission, submit_command, hear_body, hear, hear_all, decide,
  carry_out, carry_out_all, place, caught,
}
use swarmsim.Ground
use swarmsim.Ground.Announcements.{
  announce, in_progress, announce-append, IsReady, start_announces, start-raises,
}
use swarmsim.Ground.Changes.{
  reallocate_announces, command_announces, battery_keeps, position_keeps, progress_keeps,
}
use swarmsim.Supervisor.Reachable.{
  Call, battery_seen, position_seen, progress_seen, started, commanded, reallocated_now, Call-Same,
  Same,
}
use swarmsim.Supervisor.State.{
  Supervisor, Action, observe_battery, observe_position, observe_progress,
}
use swarmsim.Supervisor.Start.{start, command}
use swarmsim.Supervisor.Reallocate.{reallocate}
use swarmsim.Reference.{
  Message, Body, assignment, slot_given, command_given, pose, progress_made, telemetry,
}
use swarmsim.SwarmState.{DroneReadings}
use swarmsim.Errors.{Error, Result, ok, err, Result-cases, is_value_error}
use swarmsim.Planning.{MissionMessage, CommandMessage}
use swarmsim.Dict.{lookup}
use swarmsim.Float.{Float}
use swarmsim.Base.{
  Bool, true, none, some, inl, inr, [], ◌∷◌, List, String, Option, ◌≡◌, ◌∙◌, ◌++◌, sym, ap,
  Bool-cases, Option-cases,
}

module _ {F : Type 0} ⦃f : Float F⦄ where
  -- Once what is pending is carried out, the ground reports the mission in progress.
  pub record Tells (g : ReferenceGround F) : Type 0 where
    pub ready : IsReady g.supervisor
    pub tells : announce g.active_id g.active_drones g.pending ≡ in_progress g.supervisor

  Call-IsReady : (s s' : Supervisor F) → Call s s' → IsReady s → IsReady s'
  unfolding Same
  Call-IsReady s s' call r =
      let (same, _, planner) = Call-Same s s' call in
      record { fleet = rw same r.fleet; numbers = rw same r.numbers; dicts = rw planner r.dicts }

  -- More actions after those that are pending.
  pending_then :
      (g : ReferenceGround F) (s' : Supervisor F) (actions : List (Action F))
      → Tells g
      → ((id : Option String) (ds : List String)
          → (id, ds) ≡ in_progress g.supervisor
          → announce id ds actions ≡ in_progress s')
      → announce g.active_id g.active_drones (g.pending ++ actions) ≡ in_progress s'
  pending_then g s' actions t h =
      let a = announce g.active_id g.active_drones g.pending in
      announce-append g.active_id g.active_drones g.pending actions ∙ h a.0 a.1 t.tells

  caught-Tells :
      (g : ReferenceGround F) (e : Error) (entry : Ground.Logged F)
      → Tells g
      → Tells (caught g e entry).0
  caught-Tells g e entry t = elim (Bool-cases (is_value_error e)) [
    | inl is ↦ rw is (record { ready = t.ready; tells = t.tells })
    | inr other ↦ rw other t
  ]

  pub mission-Tells :
      (g : ReferenceGround F) (r : Result (MissionMessage F))
      → Tells g
      → Tells (submit_mission g r).0
  unfolding submit_mission
  mission-Tells g (err e) t = caught-Tells g e (Ground.mission_refused e) t
  mission-Tells g (ok mission) t =
      let s' = (start g.supervisor mission).0 in
      let r' = Call-IsReady g.supervisor s' (started mission) t.ready in
      elim (Result-cases (start g.supervisor mission).1) [
        | inl (actions, e) ↦
            rw (e, submit_mission)
              (record {
                ready = r';
                tells =
                    pending_then g s' actions t (λ id ds now.
                      start_announces g.supervisor mission actions id ds t.ready e now);
              })
        | inr (x, e) ↦
            let same = start-raises g.supervisor mission x t.ready e in
            rw (e, submit_mission)
              (caught-Tells (record g { supervisor = s' }) x (Ground.mission_refused x)
                (record { ready = r'; tells = t.tells ∙ ap (λ s. in_progress s) (sym same) }))
      ]

  pub command-Tells :
      (g : ReferenceGround F) (r : Result CommandMessage) → Tells g → Tells (submit_command g r).0
  unfolding submit_command
  command-Tells g (err e) t = caught-Tells g e (Ground.command_refused e) t
  command-Tells g (ok message) t =
      let s' = (command g.supervisor message).0 in
      record {
        ready = Call-IsReady g.supervisor s' (commanded message) t.ready;
        tells =
            pending_then g s' (command g.supervisor message).1 t
              (λ id ds now. command_announces g.supervisor message id ds);
      }

  body-Tells :
      (g : ReferenceGround F) (now : F) (sender : String) (r : DroneReadings F) (body : Body F)
      → Tells g
      → Tells (hear_body g now sender r body)
  unfolding hear_body
  body-Tells g now sender r (telemetry m) t =
      let s₁ = observe_battery g.supervisor sender (some m.battery_pct) in
      let s₂ = observe_position s₁ sender m.position in
      record {
        ready =
            Call-IsReady s₁ s₂ (position_seen sender m.position)
              (Call-IsReady g.supervisor s₁ (battery_seen sender (some m.battery_pct)) t.ready);
        tells =
            t.tells
            ∙ sym (
                position_keeps s₁ sender m.position
                ∙ battery_keeps g.supervisor sender (some m.battery_pct));
      }
  body-Tells g now sender r (progress_made p) t =
      let s' = observe_progress g.supervisor sender p.mission_id p.waypoint_index p.complete in
      record {
        ready =
            Call-IsReady g.supervisor s'
              (progress_seen sender p.mission_id p.waypoint_index p.complete) t.ready;
        tells =
            t.tells
            ∙ sym (progress_keeps g.supervisor sender p.mission_id p.waypoint_index p.complete);
      }
  body-Tells g now sender r (assignment m p) t = t
  body-Tells g now sender r (slot_given m l o) t = t
  body-Tells g now sender r (command_given n) t = t
  body-Tells g now sender r (pose p) t = t

  pub hear_all-Tells :
      (now : F) (inbox : List (Message F)) (g : ReferenceGround F)
      → Tells g
      → Tells (hear_all g now inbox)
  unfolding hear_all hear
  hear_all-Tells now [] g t = t
  hear_all-Tells now (m ∷ inbox) g t = hear_all-Tells now inbox (hear g now m) heard
    where
      heard : Tells (hear g now m)
      heard = elim (Option-cases (lookup m.sender g.readings)) [
        | inl e ↦ rw (e, hear) t
        | inr (r, e) ↦ rw (e, hear) (body-Tells g now m.sender r m.body t)
      ]

  pub decide-Tells : (g : ReferenceGround F) (now : F) → Tells g → Tells (decide g now)
  unfolding decide
  decide-Tells g now t =
      let due : Bool = elim g.reallocated [
        | none ↦ true
        | some last ↦ f.le (f.of_nat 1) (f.sub now last)
      ] in
      let s' = (reallocate g.supervisor).0 in
      elim (Bool-cases due) [
        | inr early ↦ rw (early, decide) t
        | inl late ↦
            rw (late, decide)
              (record {
                ready = Call-IsReady g.supervisor s' reallocated_now t.ready;
                tells =
                    pending_then g s' (reallocate g.supervisor).1 t
                      (λ id ds h. reallocate_announces g.supervisor id ds h);
              })
      ]
