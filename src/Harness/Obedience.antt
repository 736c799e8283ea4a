-- ===== src/Harness/Obedience.antt =====
-- A drone of the reference swarm obeys a command of the operator on the step after it was sent.
use swarmsim.Base.{
  none, some, true, false, [], ◌∷◌, ℕ, List, String, ◌+◌, refl, sym, ap, ◌∙◌, ◌≡◌, arith, ◌==◌,
  contains, Distinct, eq_iff,
}
use swarmsim.Float.{Float}
use swarmsim.Trajectory.{Vector3}
use swarmsim.Dict.{Dict, lookup, keys}
use swarmsim.Errors.{ok, ok-injective}
use swarmsim.Json.{Conversions}
use swarmsim.Commands.{mode_for_command}
use swarmsim.Vehicle
use swarmsim.Vehicle.{Vehicle, Actuation, observe, actuate}
use swarmsim.Wind.{blow}
use swarmsim.Reference.{Message, ReferenceDrone, receive_all}
use swarmsim.Reference
use swarmsim.Reference.Chatter.{Chatter, receive_all-command, step_alike}
use swarmsim.Reference.Overrides.{command_reaches}
use swarmsim.Ground.Orders.{order}
use swarmsim.Network.{without, cut_at}
use swarmsim.Scenario.{ScenarioSpec, Event, command_event}
use swarmsim.Harness.{Craft, Draws, step, advance, happen_all, is_due, time_of, dt}
use swarmsim.Harness.Swarm.{SwarmConfig, reference}
use swarmsim.Harness.Crafts.{step_crafts-Acts, lookup-move_crafts}
use swarmsim.Harness.Commands.{advance-Advanced, Swarm, commanded, submitted, ordered}

-- The ground has nothing pending, the drone is one of the run and of the ground's fleet, and neither
-- is cut off.
pub record IsReady {F : Type 0} ⦃f : Float F⦄ (w : Swarm F) (drone : String) (now : F)
    : Type 0 where
  pub nothing_pending : (w.ground).pending ≡ []
  pub one_each : Distinct (keys w.crafts)
  pub not_ground : contains "ground" (keys w.crafts) ≡ false
  pub in_run : contains drone (keys w.crafts) ≡ true
  pub in_fleet : contains drone ((w.ground).supervisor).drones ≡ true
  pub one_task : Distinct ((w.ground).supervisor).drones
  pub not_everyone : contains "*" ((w.ground).supervisor).drones ≡ false
  pub ground_in_contact : contains "ground" (cut_at now w.cut_off) ≡ false
  pub in_contact : contains drone (cut_at now w.cut_off) ≡ false

module _ {F : Type 0} ⦃f : Float F⦄ (python : Conversions F) (config : SwarmConfig F)
    (s : ScenarioSpec F) where
  -- What a drone does that finds the command and such talk: it asks for no setpoint, and has its
  -- vehicle in the command's mode.
  obeyed :
      (d : ReferenceDrone F) (v : Vehicle F) (now noise_std : F) (noise : Vector3 F)
      (drone name mode : String) (rest : List (Message F)) (asked : Actuation F)
      (outbox : List (Message F))
      → Chatter rest
      → mode_for_command name ≡ ok mode
      → v.armed ≡ true
      → (Reference.step d now (observe v noise_std noise) (order name drone ∷ rest)).1
        ≡ ok (asked, outbox)
      → (asked.setpoint_local ≡ none) × ((actuate v now asked).mode ≡ mode)
  obeyed d v now noise_std noise drone name mode rest asked outbox talk known armed h =
      let seen = observe v noise_std noise in
      let (a, outbox', stepped, unset, there) =
        command_reaches d v now noise_std noise (order name drone) name mode refl known armed in
      let alike : (Reference.step d now seen (order name drone ∷ rest)).1
          ≡ (Reference.step d now seen (order name drone ∷ [])).1 =
        step_alike d now seen (order name drone ∷ rest) (order name drone ∷ [])
          (receive_all-command rest d now (order name drone) name mode talk refl known) in
      let same : a ≡ asked =
        ap (λ (o : Actuation F × List (Message F)). o.0)
          (ok-injective (sym stepped ∙ sym alike ∙ h)) in
      (rw (same) at unset, rw (same) at there)

  -- The vehicle of a drone after a step, whose software asked on that step for no setpoint and had
  -- it in a mode before it moved.
  pub record Obeys (now : F) (draws : Draws F) (mode drone : String)
      (craft : Craft F (ReferenceDrone F)) (w w' : Swarm F) : Type 0 where
    pub asked : Actuation F
    pub no_setpoint : asked.setpoint_local ≡ none
    pub in_mode : (actuate craft.vehicle now asked).mode ≡ mode
    pub software : ReferenceDrone F
    pub found :
        lookup drone w'.crafts
        ≡ some (record {
          software = software;
          vehicle =
              Vehicle.step
                (actuate craft.vehicle now asked)
                now
                dt
                (blow w.wind dt draws.gauss).1
                (s.world).battery_drain;
        })

  -- The step after a command: a drone that finds it with such talk obeys.
  next-Obeys :
      (n : ℕ) (draws : Draws F) (w w' : Swarm F) (name mode drone : String)
      (craft : Craft F (ReferenceDrone F)) (rest : List (Message F))
      → w.pending ≡ []
      → mode_for_command name ≡ ok mode
      → ("ground" == drone) ≡ false
      → Chatter rest
      → w.inbox drone ≡ order name drone ∷ rest
      → lookup drone w.crafts ≡ some craft
      → (craft.vehicle).armed ≡ true
      → step (reference python config) s n draws w ≡ ok w'
      → Obeys (time_of n) draws mode drone craft w w'
  unfolding step happen_all
  next-Obeys n draws w w' name mode drone craft rest idle known other talk mail flies armed h =
      let now : F = time_of n in
      let v = record w { pending = [] } in
      let moved : advance (reference python config) s now draws v ≡ ok w' = rw (idle) at h in
      let parts = advance-Advanced (reference python config) s now draws v w' moved in
      let acts =
        step_crafts-Acts (reference python config) s now draws.noise (without "ground" w.inbox)
          drone craft w.crafts parts.out parts.stepped flies in
      let found : without "ground" w.inbox drone ≡ order name drone ∷ rest = rw (other) mail in
      let seen = observe craft.vehicle (s.world).gps_noise_std (draws.noise drone) in
      let here : (Reference.step craft.software now seen (without "ground" w.inbox drone)).1
          ≡ ok (acts.asked, acts.outbox) =
        unfold reference in (acts.stepped) in
      let heard : (Reference.step craft.software now seen (order name drone ∷ rest)).1
          ≡ ok (acts.asked, acts.outbox) =
        ap (λ (inbox : List (Message F)). (Reference.step craft.software now seen inbox).1)
          (sym found)
        ∙ here in
      let (unset, there) =
        obeyed craft.software craft.vehicle now (s.world).gps_noise_std (draws.noise drone) drone
          name mode rest acts.asked acts.outbox talk known armed heard in
      record {
        asked = acts.asked;
        no_setpoint = unset;
        in_mode = there;
        software = _;
        found =
            ap (λ (crafts : Dict (Craft F (ReferenceDrone F))). lookup drone crafts) parts.moved
            ∙ lookup-move_crafts (s.world).battery_drain now (blow w.wind dt draws.gauss).1
                (parts.out).0 drone _ acts.found;
      }

  -- A command of the operator takes effect on every drone in contact within two steps of a run. On a
  -- step whose one event that is due is the command of a swarm, where the ground has nothing pending
  -- and neither it nor the drone is cut off, the command goes out; on the next step, whatever the
  -- drone and the others were doing, the drone asks for no setpoint, and its vehicle, if it is
  -- armed, is in the command's mode before it moves. No two drones of the fleet have one name, and
  -- none is called ground or *; the two steps raise nothing.
  pub command_obeyed :
      (n : ℕ) (draws draws' : Draws F) (w w₁ w₂ : Swarm F) (index : ℕ) (event : Event F)
      (name mode drone : String) (craft : Craft F (ReferenceDrone F))
      → w.pending ≡ (index, event) ∷ []
      → event.happens ≡ command_event name
      → is_due (time_of n) event ≡ true
      → mode_for_command name ≡ ok mode
      → IsReady w drone (time_of n)
      → step (reference python config) s n draws w ≡ ok w₁
      → lookup drone w₁.crafts ≡ some craft
      → (craft.vehicle).armed ≡ true
      → step (reference python config) s (n + 1) draws' w₁ ≡ ok w₂
      → Obeys (time_of (n + 1)) draws' mode drone craft w₁ w₂
  unfolding step
  command_obeyed n draws draws' w w₁ w₂ index event name mode drone craft one e due known r h flies
        armed h' =
      let now : F = time_of n in
      let sent =
        ap (λ (pending : List (ℕ × Event F)). happen_all (reference python config) s now pending w)
          one
        ∙ submitted python config s now w index event name mode known e due in
      let went : advance (reference python config) s now draws (commanded python config s w name)
          ≡ ok w₁ =
        rw (sent) at h in
      let (rest, talk, mail) =
        ordered python config s now draws w w₁ name drone r.nothing_pending r.one_each r.not_ground
          r.in_run r.in_fleet r.one_task r.not_everyone r.ground_in_contact r.in_contact went in
      let idle =
        (advance-Advanced (reference python config) s now draws (commanded python config s w name)
          w₁ went).same_pending in
      next-Obeys (n + 1) draws' w₁ w₂ name mode drone craft rest idle known
        (ground (arith, r.not_ground, r.in_run, eq_iff "ground" drone)) talk mail flies armed h'
