-- ===== src/Harness/Commands.antt =====
-- A command of the operator, from the scenario's event to the autopilots of the reference swarm.
use swarmsim.Base.{
  none, some, true, false, [], ◌∷◌, ℕ, List, String, map, keep, ◌++◌, refl, sym, ap, ◌∙◌, ◌≡◌, inl,
  inr, arith, contains, Distinct,
}
use swarmsim.Float.{Float}
use swarmsim.Dict.{Dict, keys}
use swarmsim.Errors.{ok, Result-cases, ok-injective}
use swarmsim.Json.{Conversions, text}
use swarmsim.Payloads.{among}
use swarmsim.Commands.{mode_for_command}
use swarmsim.Wind.{blow}
use swarmsim.Reference.{Message, ReferenceDrone}
use swarmsim.Reference.Chatter.{Chatter}
use swarmsim.Ground.{ReferenceGround, submit_command}
use swarmsim.Ground.Orders.{order, step-orders}
use swarmsim.Network.{without, cut_at}
use swarmsim.Network.Delivery.{reaches}
use swarmsim.Scenario.{ScenarioSpec, Event, command_event}
use swarmsim.Harness.{
  SystemUnderTest, World, Craft, Draws, advance, happen, happen_all, step_crafts, move_crafts,
  is_due, dt,
}
use swarmsim.Harness.Swarm.{SwarmConfig, reference}
use swarmsim.Harness.RoundTrip.{command_payload-parse}
use swarmsim.Harness.Mail.{advance_mail}
use swarmsim.Harness.Sent.{keep-append, keep-Chatter, orders_kept, crafts-Chatter}

known_command :
    (F : Type 0) (name mode : String)
    → mode_for_command name ≡ ok mode
    → among {F = F} ("rtl" ∷ "land" ∷ "hold" ∷ []) (text name) ≡ some name
unfolding mode_for_command among
known_command F name mode h = ground arith

module _ {F : Type 0} ⦃f : Float F⦄ {G D : Type 0} (sut : SystemUnderTest F G D)
    (s : ScenarioSpec F) where
  -- The parts of a step that raised nothing.
  pub record Advanced (now : F) (draws : Draws F) (w w' : World F G D) : Type 0 where
    pub out : Dict (Craft F D) × List (Message F)
    pub stepped : step_crafts sut s now draws.noise w.crafts (without "ground" w.inbox) ≡ ok out
    pub moved :
        w'.crafts ≡ move_crafts (s.world).battery_drain now (blow w.wind dt draws.gauss).1 out.0
    pub same_pending : w'.pending ≡ w.pending

  pub advance-Advanced :
      (now : F) (draws : Draws F) (w w' : World F G D)
      → advance sut s now draws w ≡ ok w'
      → Advanced now draws w w'
  unfolding advance
  advance-Advanced now draws w w' h =
      let g = sut.ground_step w.ground now (w.inbox "ground") in
      elim (Result-cases (step_crafts sut s now draws.noise w.crafts (without "ground" w.inbox))) [
        | inr (x, e) ↦ absurd (ground arith)
        | inl (out, e) ↦ elim (Result-cases (sut.report g.0)) [
          | inr (x, r) ↦ absurd (ground arith)
          | inl (report, r) ↦
              let same = sym (ok-injective (rw (e, r) at h)) in
              record {
                out = out;
                stepped = e;
                moved = ap (λ (u : World F G D). u.crafts) same;
                same_pending = ap (λ (u : World F G D). u.pending) same;
              }
        ]
      ]

abbrev pub Swarm : Type 0 → Type 0
Swarm F = World F (ReferenceGround F) (ReferenceDrone F)

module _ {F : Type 0} ⦃f : Float F⦄ (python : Conversions F) (config : SwarmConfig F)
    (s : ScenarioSpec F) where
  -- The world once the command was submitted, on the step at whose time it is due.
  abbrev pub commanded : Swarm F → String → Swarm F
  commanded w name = record w {
    ground = (submit_command w.ground (ok (record { command = name; mission_id = none }))).0;
    pending = [];
  }

  happen_command :
      (now : F) (w : Swarm F) (index : ℕ) (name mode : String)
      → mode_for_command name ≡ ok mode
      → happen (reference python config) s now w index (command_event name)
        ≡ ok (record w {
          ground = (submit_command w.ground (ok (record { command = name; mission_id = none }))).0;
        })
  unfolding happen reference submit_command
  happen_command now w index name mode known =
      rw (command_payload-parse python name (known_command F name mode known), submit_command) refl

  pub submitted :
      (now : F) (w : Swarm F) (index : ℕ) (event : Event F) (name mode : String)
      → mode_for_command name ≡ ok mode
      → event.happens ≡ command_event name
      → is_due now event ≡ true
      → happen_all (reference python config) s now ((index, event) ∷ []) w ≡ ok (commanded w name)
  unfolding happen_all
  submitted now w index event name mode known e due =
      let happened = happen_command now w index name mode known in
      rw (due, happen_all, e, happened) refl

  -- What waits for a drone in contact after the step on which the command is due: the command, and
  -- what the other drones say of themselves.
  pub ordered :
      (now : F) (draws : Draws F) (w w' : Swarm F) (name drone : String)
      → (w.ground).pending ≡ []
      → Distinct (keys w.crafts)
      → contains "ground" (keys w.crafts) ≡ false
      → contains drone (keys w.crafts) ≡ true
      → contains drone ((w.ground).supervisor).drones ≡ true
      → Distinct ((w.ground).supervisor).drones
      → contains "*" ((w.ground).supervisor).drones ≡ false
      → contains "ground" (cut_at now w.cut_off) ≡ false
      → contains drone (cut_at now w.cut_off) ≡ false
      → advance (reference python config) s now draws (commanded w name) ≡ ok w'
      → (rest : List (Message F)) × Chatter rest × (w'.inbox drone ≡ order name drone ∷ rest)
  ordered now draws w w' name drone idle d apart flies member dm star heard held h =
      let w₁ = commanded w name in
      let parts = advance-Advanced (reference python config) s now draws w₁ w' h in
      let sent = (parts.out).1 in
      let p = reaches (cut_at now w.cut_off) (keys w.crafts) drone in
      let told : ((reference python config).ground_step w₁.ground now (w.inbox "ground")).1
          ≡ map (order name) ((w.ground).supervisor).drones =
        unfold reference in
        (step-orders w.ground (record { command = name; mission_id = none }) now (w.inbox "ground")
          idle) in
      let mail =
        advance_mail (reference python config) s now draws w₁ w' parts.out drone d apart
          parts.stepped h (ground arith) in
      (
        keep p sent,
        keep-Chatter p sent (
            crafts-Chatter python config s now draws.noise (without "ground" w.inbox) w.crafts
              parts.out parts.stepped),
        mail
            ∙ ap (λ (ms : List (Message F)). keep p (ms ++ sent)) told
            ∙ keep-append p (map (order name) ((w.ground).supervisor).drones) sent
            ∙ ap (λ (ms : List (Message F)). ms ++ keep p sent)
                (orders_kept (cut_at now w.cut_off) (keys w.crafts) ((w.ground).supervisor).drones
                  drone name member dm star heard held),
      )
