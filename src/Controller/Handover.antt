-- ===== src/Controller/Handover.antt =====
-- What a drone does once it has handed its vehicle back to PX4 (drone_controller.py): after a
-- swarm command, and when its leader has been silent for too long.
use swarmsim.Base.{◌≡◌, refl, ◌⊎◌, false, none, some, List, [], ◌∷◌, String, arith, All}
use swarmsim.Float.{Float}
use swarmsim.Errors.{Result, ok, err}
use swarmsim.Commands.{mode_for_command}
use swarmsim.Controller.{
  Controller, ControllerOutput, Reading, command, progress, tick, keep_handing_over,
}

module _ {F : Type 0} where
  -- The controller asks the vehicle for nothing, or for `mode` alone.
  abbrev pub Asks : String → Result (ControllerOutput F) → Type 0
  Asks mode (err e) = ⊥
  Asks mode (ok out) =
      (out.setpoint ≡ none)
      × (out.arm_request ≡ false)
      × ((out.mode_request ≡ none) ⊎ (out.mode_request ≡ some mode))

module _ {F : Type 0} ⦃f : Float F⦄ where
  -- The controller after a list of ticks, and what it gave on each.
  unfoldable pub after : Controller F → List (Reading F) → Controller F
  after c [] = c
  after c (r ∷ rs) = after (tick c r).0 rs

  unfoldable pub outputs : Controller F → List (Reading F) → List (Result (ControllerOutput F))
  outputs c [] = []
  outputs c (r ∷ rs) = (tick c r).1 ∷ outputs (tick c r).0 rs

  tick_handed :
      (c : Controller F) (r : Reading F) (mode : String)
      → c.handover_mode ≡ some mode
      → let (c', out) = tick c r in
        Asks mode out
        × (c'.handover_mode ≡ some mode)
        × (c'.complete ≡ c.complete)
        × (c'.retry_interval ≡ c.retry_interval)
  unfolding tick keep_handing_over
  tick_handed c r mode h = ground arith

  pub handed_over :
      (c : Controller F) (rs : List (Reading F)) (mode : String)
      → c.handover_mode ≡ some mode
      → All (Asks mode) (outputs c rs)
        × ((after c rs).handover_mode ≡ some mode)
        × ((after c rs).complete ≡ c.complete)
  unfolding after outputs
  handed_over c [] mode h = (tt, h, refl)
  handed_over c (r ∷ rs) mode h =
      let (asks, still, same, _) = tick_handed c r mode h in
      let (rest, last, done) = handed_over (tick c r).0 rs mode still in
      ((asks, rest), last, ground arith)

  -- After a swarm command that names a PX4 mode, and until a new task comes, no tick sends a
  -- setpoint or asks for arming or for any mode but that one, whatever the drone reads, and the
  -- drone never reports its task complete.
  pub command_overrides :
      (c : Controller F) (name mode : String) (rs : List (Reading F))
      → mode_for_command name ≡ ok mode
      → let c' = (command c name).0 in
        All (Asks mode) (outputs c' rs) × ((progress (after c' rs)).complete ≡ false)
  unfolding command progress
  command_overrides c name mode rs e =
      let c' = (command c name).0 in
      let (asks, _, same) = handed_over c' rs mode (ground arith) in (asks, ground arith)
