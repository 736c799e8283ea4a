-- ===== src/Controller/Reachable.antt =====
-- Every state of a drone's controller (drone_controller.py): what its methods can do, one after
-- another.
use swarmsim.Errors.{ok}
use swarmsim.Trajectory.{Vector3}
use swarmsim.Base.{String, ℕ, List, ◌≡◌, arith}
use swarmsim.Float.{Float}
use swarmsim.Controller.{
  Controller, Reading, new_controller, assign_path, assign_slot, leader_finished, command, tick,
  task_done,
}
use swarmsim.Controller.Invariant.{
  IsValid, assign_path-IsValid, assign_slot-IsValid, leader_finished-IsValid, command-IsValid,
  tick-IsValid,
}

-- One call of a method of the controller, also of one that raises.
pub data Call {F : Type 0} ⦃f : Float F⦄ (c : Controller F) : Controller F → Type 0 where
  path_given : (mission : String) (ws : List (Vector3 F)) → Call c (assign_path c mission ws).0
  slot_given :
      (mission leader : String) (offset : Vector3 F) → Call c (assign_slot c mission leader offset)
  leader_landed : (mission : String) → Call c (leader_finished c mission)
  commanded : (name : String) → Call c (command c name).0
  ticked : (r : Reading F) → Call c (tick c r).0

-- Any number of calls, one after another.
pub data Calls {F : Type 0} ⦃f : Float F⦄ (c : Controller F) : Controller F → Type 0 where
  no_call : Calls c c
  then_call : (c' c'' : Controller F) → Calls c c' → Call c' c'' → Calls c c''

module _ {F : Type 0} ⦃f : Float F⦄ where
  pub new_controller-IsValid :
      (tolerance max_step : F) (warmup_ticks : ℕ) (retry timeout : F) (origin : Vector3 F)
      (c : Controller F)
      → new_controller tolerance max_step warmup_ticks retry timeout origin ≡ ok c
      → IsValid c
  unfolding new_controller task_done
  new_controller-IsValid tolerance max_step warmup_ticks retry timeout origin c e = ground arith

  Call-IsValid : (c c' : Controller F) → Call c c' → IsValid c → IsValid c'
  Call-IsValid c c' (path_given mission ws) v = assign_path-IsValid c mission ws v
  Call-IsValid c c' (slot_given mission leader offset) v =
      assign_slot-IsValid c mission leader offset v
  Call-IsValid c c' (leader_landed mission) v = leader_finished-IsValid c mission v
  Call-IsValid c c' (commanded name) v = command-IsValid c name v
  Call-IsValid c c' (ticked r) v = tick-IsValid c r v

  pub Calls-IsValid : (c c' : Controller F) → IsValid c → Calls c c' → IsValid c'
  Calls-IsValid c c' v no_call = v
  Calls-IsValid c c' v (then_call before after calls call) =
      Call-IsValid before after call (Calls-IsValid c before v calls)

  -- From a new controller, whatever it is told and reads: the drone has a path or a slot and never
  -- both, its waypoint index stays within its path, a vehicle that was handed over is sent no
  -- setpoints and not asked for OFFBOARD, and a task that is reported complete has been flown and
  -- ends in a landing.
  pub reachable_controller-IsValid :
      (tolerance max_step : F) (warmup_ticks : ℕ) (retry timeout : F) (origin : Vector3 F)
      (c c' : Controller F)
      → new_controller tolerance max_step warmup_ticks retry timeout origin ≡ ok c
      → Calls c c'
      → IsValid c'
  reachable_controller-IsValid tolerance max_step warmup_ticks retry timeout origin c c' e calls =
      Calls-IsValid c c'
        (new_controller-IsValid tolerance max_step warmup_ticks retry timeout origin c e) calls
