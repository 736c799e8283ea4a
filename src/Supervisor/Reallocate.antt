-- ===== src/Supervisor/Reallocate.antt =====
-- supervisor.py: the periodic decision, which hands a low drone's task to an idle one.
use swarmsim.Trajectory.{Vector3}
use swarmsim.Float.{Float}
use swarmsim.Supervisor.State.{
  Mission, Action, Supervisor, assign, slot, plan_ids, add_id, low, command_drone, finished,
  task_dropped, active_mission, nobody_left,
}
use swarmsim.Base.{
  none, some, false, [], ◌∷◌, List, String, ℕ, Bool, drop, if◌then◌else◌, contains, Option, not,
  ◌++◌, ◌==◌, ◌||◌, ◌&&◌, length, ◌-◌, is_empty,
}
use Prim.Native.Nat.{min}
use swarmsim.Dict.{lookup, insert, erase, keys, Dict}

module _ {F : Type 0} where
  -- The first waypoint that a drone has still to fly: `waypoint_index` where it is known, else 0.
  unfoldable pub flown_so_far : Mission F → String → ℕ
  flown_so_far m drone = elim (lookup drone m.progress) [
    | none ↦ 0
    | some p ↦ elim p.waypoint_index [ none ↦ 0 | some i ↦ i ]
  ]

  -- `path[min(start, len(path) - 1):]`; of an empty path nothing is left.
  unfoldable pub rest_of : List (Vector3 F) → ℕ → List (Vector3 F)
  rest_of path start = drop (min start (length path - 1)) path

  -- The followers of `gone` follow `replacement`.
  unfoldable pub retarget : String → String → Dict (String × Vector3 F) → Dict (String × Vector3 F)
  retarget gone replacement [] = []
  retarget gone replacement ((follower, (leader, offset)) ∷ rest) =
      (follower, (if leader == gone then replacement else leader, offset))
      ∷ retarget gone replacement rest

  -- The slots sent to them.
  unfoldable pub retarget_slots :
      String → String → String → Dict (String × Vector3 F) → List (Action F)
  retarget_slots mission gone replacement [] = []
  retarget_slots mission gone replacement ((follower, (leader, offset)) ∷ rest) =
      let more = retarget_slots mission gone replacement rest in
      if leader == gone then slot follower mission replacement offset ∷ more else more

  -- `_hand_over` of a path, and of a slot
  unfoldable pub hand_path :
      Mission F → String → String → List (Vector3 F) → Mission F × List (Action F)
  hand_path m gone replacement path =
      let rest = rest_of path (flown_so_far m gone) in
      (
        record m {
          plan = record (m.plan) {
            paths = insert replacement rest (erase gone (m.plan).paths);
            followers = retarget gone replacement (m.plan).followers;
          };
        },
        assign replacement m.mission_id rest
            ∷ retarget_slots m.mission_id gone replacement (m.plan).followers,
      )

  unfoldable pub hand_slot :
      Mission F → String → String → String × Vector3 F → Mission F × List (Action F)
  hand_slot m gone replacement (leader, offset) = (
    record m {
      plan = record (m.plan) {
        followers = insert replacement (leader, offset) (erase gone (m.plan).followers);
      };
    },
    slot replacement m.mission_id leader offset ∷ [],
  )

  -- `_hand_over`. The last case, where `pop` raises, is that of a drone outside the plan.
  unfoldable pub hand_over : Mission F → String → String → Mission F × List (Action F)
  hand_over m gone replacement = elim (lookup gone (m.plan).paths) [
    | some path ↦ hand_path m gone replacement path
    | none ↦ elim (lookup gone (m.plan).followers) [
      | some place ↦ hand_slot m gone replacement place
      | none ↦ (m, [])
    ]
  ]

  -- `drone not in busy`
  unfoldable pub busy : Mission F → String → Bool
  busy m d =
      contains d (keys (m.plan).paths)
      || (contains d (keys (m.plan).followers) || (contains d m.retired || contains d m.dropped))

module _ {F : Type 0} ⦃f : Float F⦄ where
  -- `battery is not None and battery >= self.battery_threshold_pct`
  unfoldable pub charged : Supervisor F → String → Bool
  charged s d = elim (lookup d s.battery) [
    | none ↦ false
    | some none ↦ false
    | some (some battery) ↦ f.le s.threshold battery
  ]

  -- `_replacement`
  unfoldable pub first_idle : Supervisor F → Mission F → List String → Option String
  first_idle s m [] = none
  first_idle s m (d ∷ ds) =
      let later = first_idle s m ds in if not (busy m d) && charged s d then some d else later

  unfoldable pub replacement : Supervisor F → Mission F → Option String
  replacement s m = first_idle s m s.drones

  -- `drone in mission.dropped or not self._low(drone) or self._finished(drone)`, negated
  unfoldable pub must_go : Supervisor F → Mission F → String → Bool
  must_go s m d = not (contains d m.dropped) && (low s d && not (finished m d))

  -- The body of the loop of `reallocate`, for one drone.
  unfoldable pub relieve : Supervisor F → Mission F → String → Mission F × List (Action F)
  relieve s m d =
      if must_go s m d
      then elim (replacement s m) [
        | none ↦ (
          record m { dropped = add_id d m.dropped },
          command_drone d "rtl" ∷ task_dropped d m.mission_id nobody_left ∷ [],
        )
        | some r ↦
            let (m', actions) = hand_over (record m { retired = add_id d m.retired }) d r in
            (m', command_drone d "rtl" ∷ actions)
      ]
      else (m, [])

  -- The loop.
  unfoldable pub relieve_all : Supervisor F → List String → Mission F → Mission F × List (Action F)
  relieve_all s [] m = (m, [])
  relieve_all s (d ∷ ds) m =
      let (m', actions) = relieve s m d in
      let (m'', rest) = relieve_all s ds m' in (m'', actions ++ rest)

  -- The end of `reallocate`: the mission that the loop leaves, and its actions.
  unfoldable pub close_pass :
      Supervisor F → Mission F × List (Action F) → Supervisor F × List (Action F)
  close_pass s (m, actions) = (
    record s { mission = some m },
    if is_empty actions
        then []
        else actions ++ active_mission (some m.mission_id) (plan_ids m.plan) ∷ [],
  )

  unfoldable pub reallocate : Supervisor F → Supervisor F × List (Action F)
  reallocate s = elim s.mission [
    | none ↦ (s, [])
    | some m ↦ close_pass s (relieve_all s (plan_ids m.plan) m)
  ]
