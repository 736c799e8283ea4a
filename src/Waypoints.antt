-- ===== src/Waypoints.antt =====
-- waypoints.py: which waypoint a drone pursues. The methods that change the queue return the new
-- queue and their result.
use swarmsim.Base.{
  ℕ, ◌+◌, ◌-◌, Bool, true, false, Option, none, some, List, length, get_elem?, leb, if◌then◌else◌,
}
use swarmsim.Float.{Float}
use swarmsim.Errors.{Result, ok}
use swarmsim.Trajectory.{Vector3, distance_to, step_towards}

pub record WaypointQueue (F : Type 0) : Type 0 where
  pub waypoints : List (Vector3 F)
  pub tolerance : F
  pub index : ℕ

module _ {F : Type 0} where
  -- `WaypointQueue(waypoints, tolerance_m)`
  unfoldable pub new_queue : List (Vector3 F) → F → WaypointQueue F
  new_queue waypoints tolerance = record { waypoints = waypoints; tolerance = tolerance; index = 0 }

  unfoldable pub current : WaypointQueue F → Option (Vector3 F)
  current q = if leb (length q.waypoints) q.index then none else get_elem? q.waypoints q.index

  unfoldable pub is_complete : WaypointQueue F → Bool
  is_complete q = leb (length q.waypoints) q.index

  -- `max(0, len(self.waypoints) - self._index)`: the subtraction on ℕ stops at 0.
  unfoldable pub remaining : WaypointQueue F → ℕ
  remaining q = length q.waypoints - q.index

module _ {F : Type 0} ⦃f : Float F⦄ where
  unfoldable pub advance : WaypointQueue F → Vector3 F → WaypointQueue F × Bool
  unfolding current
  advance q position = elim (current q) [
    | none ↦ (q, false)
    | some target ↦
        if f.le (distance_to position target) q.tolerance
        then (record q { index = q.index + 1 }, true)
        else (q, false)
  ]

  -- `WaypointQueue.step`
  unfoldable pub step : WaypointQueue F → Vector3 F → F → WaypointQueue F × Result (Vector3 F)
  unfolding advance
  step q position max_step =
      let (q', _) = advance q position in
      (
        q',
        elim (current q') [
          | none ↦ ok position
          | some target ↦ step_towards position target max_step
        ],
      )
