-- ===== src/Controller/Invariant.antt =====
-- What holds of a drone's controller between two calls (drone_controller.py).
use swarmsim.Base.{
  inl, inr, ◌≤◌, ◌≡◌, ◌⊎◌, true, false, Option, none, some, List, [], ◌∷◌, String, arith, is_some,
  is_text, length, ◌==◌, Bool, Option-cases, ◌||◌, if◌then◌else◌, refl,
}
use swarmsim.Float.{Float}
use swarmsim.Errors.{ok, Result-cases, unknown_command}
use swarmsim.Trajectory.{Vector3}
use swarmsim.Waypoints.{WaypointQueue, advance}
use swarmsim.Commands.{mode_for_command}
use swarmsim.Offboard.{released}
use swarmsim.Controller.{
  Controller, Reading, assign_path, assign_slot, leader_finished, command, task_done, tick,
  keep_handing_over, hand_back, target, fly, pursue, tick_task, handover, err,
}

ok-ne_offboard :
    (known mode : String)
    → (known == "OFFBOARD") ≡ false
    → ok known ≡ ok mode
    → (mode == "OFFBOARD") ≡ false
ok-ne_offboard known mode h e = let same : known ≡ mode = cc in rw (← same) h

pub mode_for_command-ne_offboard :
    (name mode : String) → mode_for_command name ≡ ok mode → (mode == "OFFBOARD") ≡ false
unfolding mode_for_command
mode_for_command-ne_offboard name mode = by_name (name == "rtl") (name == "land") (name == "hold")
  where
    by_name :
        (rtl land hold : Bool)
        → (if rtl
            then ok "AUTO.RTL"
            else if land
            then ok "AUTO.LAND"
            else if hold
            then ok "AUTO.LOITER"
            else err unknown_command)
          ≡ ok mode
        → (mode == "OFFBOARD") ≡ false
    by_name true land hold = ok-ne_offboard "AUTO.RTL" mode refl
    by_name false true hold = ok-ne_offboard "AUTO.LAND" mode refl
    by_name false false true = ok-ne_offboard "AUTO.LOITER" mode refl
    by_name false false false = λ e. cc

module _ {F : Type 0} where
  abbrev pub Within : Option (WaypointQueue F) → Type 0
  Within none = Unit
  Within (some q) = q.index ≤ length q.waypoints

  pub record IsValid (c : Controller F) : Type 0 where
    -- A path or a slot, never both.
    pub one_task : (c.queue ≡ none) ⊎ (c.leader ≡ none)
    pub within : Within c.queue
    -- A vehicle that was handed over gets no setpoints, and is never asked for OFFBOARD.
    pub handed : is_some c.handover_mode ≡ true → c.offboard.phase ≡ released
    pub not_offboard : is_text c.handover_mode "OFFBOARD" ≡ false
    -- A task is complete only when it is flown and the vehicle is landing.
    pub landed : c.complete ≡ true → c.handover_mode ≡ some "AUTO.LAND"
    pub flown : c.complete ≡ true → task_done c ≡ true

  pub assign_path-IsValid :
      (c : Controller F) (mission : String) (ws : List (Vector3 F))
      → IsValid c
      → IsValid (assign_path c mission ws).0
  unfolding assign_path task_done
  assign_path-IsValid c mission [] v = v
  assign_path-IsValid c mission (w ∷ ws) v = ground arith

  pub assign_slot-IsValid :
      (c : Controller F) (mission leader : String) (offset : Vector3 F)
      → IsValid c
      → IsValid (assign_slot c mission leader offset)
  unfolding assign_slot task_done
  assign_slot-IsValid c mission leader offset v = ground arith

  pub leader_finished-IsValid :
      (c : Controller F) (mission : String) → IsValid c → IsValid (leader_finished c mission)
  unfolding leader_finished task_done
  leader_finished-IsValid c mission v = ground arith

  pub command-IsValid : (c : Controller F) (name : String) → IsValid c → IsValid (command c name).0
  unfolding command task_done
  command-IsValid c name v = elim (Result-cases (mode_for_command name)) [
    | inl (mode, e) ↦ ground (arith, mode_for_command-ne_offboard name mode e)
    | inr (_, e) ↦ ground arith
  ]

module _ {F : Type 0} ⦃f : Float F⦄ where
  pub advance-Within :
      (q : WaypointQueue F) (p : Vector3 F)
      → q.index ≤ length q.waypoints
      → (advance q p).0.index ≤ length (advance q p).0.waypoints
  unfolding advance
  advance-Within q p h = ground arith

  pub keep_handing_over-IsValid :
      (c : Controller F) (now : F) (armed : Option Bool) (mode : Option String)
      → IsValid c
      → IsValid (keep_handing_over c now armed mode).0
  unfolding keep_handing_over task_done
  keep_handing_over-IsValid c now armed mode v = ground arith

  -- Handing over a vehicle whose task, if it is called complete, is flown and ends in a landing.
  hand_back-IsValid :
      (c : Controller F) (mode : String) (r : Reading F)
      → (c.queue ≡ none) ⊎ (c.leader ≡ none)
      → Within c.queue
      → (mode == "OFFBOARD") ≡ false
      → (c.complete ≡ true → (mode ≡ "AUTO.LAND") × (task_done c ≡ true))
      → IsValid (hand_back c mode r).0
  unfolding hand_back handover keep_handing_over task_done
  hand_back-IsValid c mode r one w m d = ground arith

  target-IsValid :
      (c : Controller F) (p : Vector3 F) (leader : Option (Vector3 F))
      → IsValid c
      → c.complete ≡ false
      → IsValid (target c p leader).0
        × ((target c p leader).0.complete ≡ false)
        × ((target c p leader).0.handover_mode ≡ c.handover_mode)
  unfolding target
  target-IsValid c p leader v d = elim (Option-cases c.queue) [
    | inl e ↦ ground arith
    | inr (q, e) ↦ ground (arith, advance-Within q p)
  ]

  fly-IsValid :
      (c : Controller F) (r : Reading F) (goal : Vector3 F)
      → IsValid c
      → c.handover_mode ≡ none
      → c.complete ≡ false
      → IsValid (fly c r goal).0
  unfolding fly task_done
  fly-IsValid c r goal v h d = ground (
    arith,
    hand_back-IsValid (record c { complete = is_some c.queue || is_some c.leader }) "AUTO.LAND" r,
  )

  pursue-IsValid :
      (c : Controller F) (r : Reading F) (p : Vector3 F)
      → IsValid c
      → c.handover_mode ≡ none
      → c.complete ≡ false
      → IsValid (pursue c r p).0
  unfolding pursue
  pursue-IsValid c r p v h d =
      let (v', d', h') = target-IsValid c p r.leader_position v d in
      elim (Result-cases (target c p r.leader_position).1) [
        | inl (none, e) ↦ ground (arith, v')
        | inl (some goal, e) ↦
            ground (arith, fly-IsValid (target c p r.leader_position).0 r goal v')
        | inr (_, e) ↦ ground (arith, v')
      ]

  pub tick-IsValid : (c : Controller F) (r : Reading F) → IsValid c → IsValid (tick c r).0
  unfolding tick tick_task
  tick-IsValid c r v = elim (Option-cases c.handover_mode) [
    | inr (mode, h) ↦ ground (arith, keep_handing_over-IsValid c r.now r.armed r.mode v)
    | inl h ↦ elim (Option-cases r.position) [
      | inl e ↦ ground (arith, v)
      | inr (p, e) ↦ ground (arith, v, hand_back-IsValid c "AUTO.RTL" r, pursue-IsValid c r p v)
    ]
  ]
