-- ===== src/Examples/Nodes.antt =====
-- The node of a drone that is commanded home, a dispatcher, and payloads that are refused.
use swarmsim.Json.{Members, text, array, member, end, nil, integer, number}
use swarmsim.Base.{some, refl, [], ◌∷◌, List, ◌≡◌, ◌++◌}
use swarmsim.Examples.Numbers.{ℤ, pos, float_of_whole}
use swarmsim.Examples.Client.{python, python-IsFaithful}
use swarmsim.Examples.Simulated.{software}
use swarmsim.Examples.Grounded.{at_dawn}
use swarmsim.Examples.Planned.{fleet}
use swarmsim.Payloads.Escapes.{Escapes}
use swarmsim.Vehicle
use swarmsim.Vehicle.{Vehicle}
use swarmsim.Reference
use swarmsim.Supervisor.State.{Action, active_mission, command_drone}
use swarmsim.Ground
use swarmsim.Nodes.ControllerNode.{ControllerNode, new_node}
use swarmsim.Nodes.Dispatcher.{Dispatcher, new_dispatcher, carry_out}
use swarmsim.Nodes.Aggregator.{Aggregator, new_aggregator}
use swarmsim.Nodes.Dispatch.{SameMission, published_by, listen, all_latched, dispatch_refines}

abbrev node : ControllerNode ℤ
node = new_node (software.info).home software.controller

abbrev actions : List (Action ℤ)
actions =
    command_drone "drone_3" "rtl" ∷ active_mission (some "m1") ("drone_1" ∷ "drone_2" ∷ []) ∷ []

abbrev dispatcher : Dispatcher ℤ
dispatcher = new_dispatcher fleet (pos 20)

abbrev aggregator : Aggregator ℤ
aggregator = new_aggregator fleet

dispatch_refines_example :
    ((carry_out dispatcher actions).published
      ≡ dispatcher.published ++ published_by at_dawn actions)
    × SameMission python
        (listen python aggregator (all_latched actions))
        (Ground.carry_out_all at_dawn actions).0
unfolding new_aggregator Ground.new_ground
dispatch_refines_example =
    dispatch_refines python dispatcher aggregator at_dawn actions python-IsFaithful
      (record { same_id = refl; same_drones = refl })

-- A formation that is a list.
abbrev payload : Members ℤ
payload = member "version" (integer (pos 1)) (
    member "type" (text "formation") (
      member "formation" (array nil) (
        member "waypoints" (array nil) (
          member "drone_count" (integer (pos 2))
            (member "spacing_m" (number (pos 3)) (member "mission_id" (text "m1") end))))))
