-- ===== src/Nodes.antt =====
-- nodes/: what the ROS nodes share. A message is a text on a topic: plain, or what json.dumps makes
-- of a value, which json.loads gives back.
pub mod Dispatcher
pub mod Aggregator
pub mod ControllerNode
pub mod Delivery
pub mod Refinement
pub mod Steps
pub mod Dispatch
use Prim.Native.String
use swarmsim.Base.{none, some, true, false, [], ◌∷◌, Bool, String, Option, List, ℕ}
use swarmsim.Int.{pos}
use swarmsim.Float.{Float}
use swarmsim.Trajectory.{Vector3}
use swarmsim.Controller.{Progress}
use swarmsim.Json.{
  Json, Items, Members, null, boolean, integer, number, text, array, object, member, end, array_of,
}

pub data Content (F : Type 0) : Type 0 where
  plain : String → Content F
  dumped : Json F → Content F

pub record Publication (F : Type 0) : Type 0 where
  pub topic : String
  pub content : Content F

-- `f"/{drone}/{topic}"`
abbrev pub topic_of : String → String → String
topic_of drone name = String.◌++◌ "/" (String.◌++◌ drone (String.◌++◌ "/" name))

module _ {F : Type 0} where
  -- An id that a message may have; what is no text equals no id.
  unfoldable pub id_of : Json F → Option String
  id_of (text s) = some s
  id_of _ = none

  -- An index or a count of a progress message, which is null or an int that is not negative.
  unfoldable pub index_of : Json F → Option ℕ
  index_of (integer (pos n)) = some n
  index_of _ = none

  unfoldable pub vector_value : Vector3 F → Json F
  vector_value v = array (array_of (number v.x ∷ number v.y ∷ number v.z ∷ []))

  unfoldable pub path_values : List (Vector3 F) → List (Json F)
  path_values [] = []
  path_values (w ∷ ws) = vector_value w ∷ path_values ws

  unfoldable pub text_values : List String → List (Json F)
  text_values [] = []
  text_values (s ∷ ss) = text s ∷ text_values ss

  unfoldable pub id_value : Option String → Json F
  id_value none = null
  id_value (some s) = text s

  unfoldable pub count_value : Option ℕ → Json F
  count_value none = null
  count_value (some n) = integer (pos n)

  -- `Progress.as_dict`
  unfoldable pub progress_value : Progress → Json F
  progress_value p = object (
      member "mission_id" (id_value p.mission_id) (
        member "waypoint_index" (count_value p.waypoint_index) (
          member "waypoint_count" (count_value p.waypoint_count)
            (member "complete" (boolean p.complete) end))))
