-- ===== src/Reference/Overrides.antt =====
-- A command of the swarm on its way to a drone's autopilot (scenarios/sut.py, drone_controller.py
-- and scenarios/sim.py together).
use swarmsim.Reference.{
  step, receive_all, ReferenceDrone, Message, command_given, follow, receive, reading_of, send,
  actuation_of, to_local,
}
use swarmsim.Trajectory.{Vector3}
use swarmsim.Errors.{ok, err, unknown_command}
use swarmsim.Float.{Float}
use swarmsim.Base.{
  none, some, true, false, refl, String, ◌≡◌, if◌then◌else◌, ◌==◌, Bool, arith, eq_iff, [], ◌∷◌,
  List, ap, inl, inr, Bool-cases, eq_refl,
}
use swarmsim.Controller
use swarmsim.Controller.Invariant.{mode_for_command-ne_offboard}
use swarmsim.Controller.{
  Controller, ControllerOutput, keep_handing_over, nothing, ask_mode, handover,
}
use swarmsim.Commands.{mode_for_command}
use swarmsim.Vehicle.{
  Vehicle, actuate, take_setpoint, take_mode, take_arm, enter_requested, enter, is_known_mode,
  Actuation, observe, Observation,
}

mode_for_command-known :
    (name mode : String) → mode_for_command name ≡ ok mode → is_known_mode mode ≡ true
mode_for_command-known name mode e =
    by_name (name == "rtl") (name == "land") (name == "hold") (unfold mode_for_command in e)
  where
    known : (m : String) → is_known_mode m ≡ true → ok m ≡ ok mode → is_known_mode mode ≡ true
    known m k e = let same : m ≡ mode = cc in rw (← same) k

    by_name :
        (rtl land hold : Bool)
        → (if rtl
            then ok "AUTO.RTL"
            else if land
            then ok "AUTO.LAND"
            else if hold
            then ok "AUTO.LOITER"
            else err unknown_command)
          ≡ ok mode
        → is_known_mode mode ≡ true
    by_name true land hold = known "AUTO.RTL" (unfold is_known_mode in refl)
    by_name false true hold = known "AUTO.LAND" (unfold is_known_mode in refl)
    by_name false false true = known "AUTO.LOITER" (unfold is_known_mode in refl)
    by_name false false false = λ e. cc

module _ {F : Type 0} ⦃f : Float F⦄ where
  -- What a drone asks for on the first tick after a command.
  abbrev asked : String → String → ControllerOutput F
  asked now_in mode = if now_in == mode then nothing else ask_mode (some mode)

  tick_first :
      (c : Controller F) (r : Controller.Reading F) (now_in mode : String)
      → c.handover_mode ≡ some mode
      → c.last_handover ≡ none
      → r.armed ≡ some true
      → r.mode ≡ some now_in
      → (Controller.tick c r).1 ≡ ok (asked now_in mode)
  unfolding Controller.tick keep_handing_over
  tick_first c r now_in mode h l a m = ground arith

  asked_lem :
      (now_in mode : String) (out : ControllerOutput F)
      → out ≡ asked now_in mode
      → (out.mode_request ≡ (if now_in == mode then none else some mode))
        × (out.arm_request ≡ false)
  asked_lem now_in mode out e = (ground arith, ground arith)

  take_mode_asked :
      (v : Vehicle F) (now : F) (mode : String)
      → is_known_mode mode ≡ true
      → (mode == "OFFBOARD") ≡ false
      → (take_mode v now (if v.mode == mode then none else some mode)).mode ≡ mode
  unfolding take_mode enter_requested enter
  take_mode_asked v now mode k n = elim (Bool-cases (v.mode == mode)) [
    | inl same ↦ rw (same, take_mode) ((eq_iff v.mode mode).0 same)
    | inr other ↦ rw (other, take_mode) (ground (arith, eq_iff mode v.mode, eq_refl mode))
  ]

  actuate_asked :
      (v : Vehicle F) (now : F) (a : Actuation F) (mode : String)
      → is_known_mode mode ≡ true
      → (mode == "OFFBOARD") ≡ false
      → a.setpoint_local ≡ none
      → a.mode_request ≡ (if v.mode == mode then none else some mode)
      → a.arm_request ≡ false
      → (actuate v now a).mode ≡ mode
  unfolding actuate take_setpoint take_arm
  actuate_asked v now a mode k n none_sent wanted unarmed =
      ground (arith, take_mode_asked v now mode k n)

  receive_command :
      (d : ReferenceDrone F) (now : F) (message : Message F) (name mode : String)
      → message.body ≡ command_given name
      → mode_for_command name ≡ ok mode
      → let (d', result) = receive d now message in
        (result ≡ ok tt)
        × (d'.controller.handover_mode ≡ some mode)
        × (d'.controller.last_handover ≡ none)
  unfolding receive Controller.command handover follow
  receive_command d now message name mode b e = ground arith

  asked_nowhere :
      (d : ReferenceDrone F) (now_in mode : String) → to_local d (asked now_in mode).setpoint ≡ none
  unfolding to_local
  asked_nowhere d now_in mode = ground arith

  -- A step with one message, where nothing raises.
  step_one :
      (d : ReferenceDrone F) (now : F) (seen : Observation F) (message : Message F)
      (out : ControllerOutput F)
      → let d₁ = (receive d now message).0 in
        let ticked = Controller.tick d₁.controller (reading_of d₁ now seen) in
        (receive d now message).1 ≡ ok tt
        → ticked.1 ≡ ok out
        → let d₂ = record d₁ { controller = ticked.0 } in
          (step d now seen (message ∷ [])).1 ≡ ok (actuation_of d₂ out, (send d₂ now seen).1)
  unfolding step receive_all
  step_one d now seen message out heard ticked = ground arith

  -- A drone that is armed, hears a command of the swarm and no other message, asks its autopilot on
  -- that very step for no setpoint, and has it in the command's mode: whatever task it was flying,
  -- and however noisy its position is.
  pub command_reaches :
      (d : ReferenceDrone F) (v : Vehicle F) (now gps_noise : F) (noise : Vector3 F)
      (message : Message F) (name mode : String)
      → message.body ≡ command_given name
      → mode_for_command name ≡ ok mode
      → v.armed ≡ true
      → (a : Actuation F) × (outbox : List (Message F)) × ((step d now
            (observe v gps_noise noise)
            (message ∷ [])).1
          ≡ ok (a, outbox))
        × (a.setpoint_local ≡ none)
        × ((actuate v now a).mode ≡ mode)
  command_reaches d v now gps_noise noise message name mode b e armed =
      let seen = observe v gps_noise noise in
      let (heard, handed, fresh) = receive_command d now message name mode b e in
      let d₁ = (receive d now message).0 in
      let out = asked v.mode mode in
      let ticked : (Controller.tick d₁.controller (reading_of d₁ now seen)).1 ≡ ok out =
        tick_first d₁.controller (reading_of d₁ now seen) v.mode mode handed fresh
          (unfold observe in (ap some armed)) (unfold observe in refl) in
      let d₂ = record d₁ {
        controller = (Controller.tick d₁.controller (reading_of d₁ now seen)).0;
      } in
      let unset : to_local d₂ out.setpoint ≡ none = asked_nowhere d₂ v.mode mode in
      (
        actuation_of d₂ out,
        (send d₂ now seen).1,
        step_one d now seen message out heard ticked,
        unset,
        actuate_asked v now (actuation_of d₂ out) mode (mode_for_command-known name mode e)
            (mode_for_command-ne_offboard name mode e) unset (asked_lem v.mode mode out refl).0
            (asked_lem v.mode mode out refl).1,
      )
