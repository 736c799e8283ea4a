-- ===== src/Nodes/Steps.antt =====
-- A step of the controller's node next to a step of the reference drone (scenarios/sut.py).
use swarmsim.Errors.{Result}
use swarmsim.Trajectory.{Vector3}
use swarmsim.Vehicle.{Observation}
use swarmsim.Json.{Conversions}
use swarmsim.Base.{true, List}
use swarmsim.Float.{Float}
use swarmsim.Controller
use swarmsim.Controller.{Controller}
use swarmsim.Reference
use swarmsim.Reference.{Message}
use swarmsim.Nodes.ControllerNode.{ControllerNode, Output, on_local_pose, on_state, on_tick}
use swarmsim.Nodes.Refinement.{deliver_all}

module _ {F : Type 0} ⦃f : Float F⦄ (python : Conversions F) where
  -- The messages that came, the vehicle's pose and state, and a tick.
  heard : ControllerNode F → F → Observation F → Vector3 F → List (Message F) → ControllerNode F
  heard n now seen local inbox =
      on_state (on_local_pose (deliver_all python n now inbox) local).0 seen.armed seen.mode

  unfoldable pub node_step :
      ControllerNode F
      → F
      → Observation F
      → Vector3 F
      → List (Message F)
      → ControllerNode F × Result (List (Output F))
  unfolding heard
  node_step n now seen local inbox = on_tick (heard n now seen local inbox) now true true
