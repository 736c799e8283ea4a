-- ===== src/Controller/Flight.antt =====
-- What a drone asks of its vehicle while it flies a task (drone_controller.py).
use swarmsim.Errors.{Result-cases}
use swarmsim.Base.{
  is_text, ◌≡◌, false, ◌||◌, is_some, true, none, Bool, Option, String, some, arith, ◌==◌,
  Option-cases, inl, inr, refl,
}
use swarmsim.Controller.{
  Controller, Reading, ControllerOutput, tick, ok, has_task, comms_lost, Result, keep_handing_over,
  hand_back, fly, pursue, tick_task, target, handover, Vector3, err, Sequencer,
}
use swarmsim.Float.{Float}
use swarmsim.Offboard

module _ {F : Type 0} where
  -- The drone's software asks its vehicle to fly: a setpoint, OFFBOARD or arming.
  abbrev pub asks_to_fly : Result (ControllerOutput F) → Bool
  asks_to_fly (err e) = false
  asks_to_fly (ok out) =
      is_some out.setpoint || (is_text out.mode_request "OFFBOARD" || out.arm_request)

module _ {F : Type 0} ⦃f : Float F⦄ where
  step_streams :
      (s : Sequencer F) (now : F) (armed : Option Bool) (mode : Option String)
      → let out = (Offboard.step s now armed mode).1 in
        (out.ask_offboard ≡ true → out.stream_setpoint ≡ true)
        × (out.ask_arm ≡ true → (out.stream_setpoint ≡ true) × (is_text mode "OFFBOARD" ≡ true))
  unfolding Offboard.step
  step_streams s now armed mode = ground arith

  keep_handing_over_rests :
      (c : Controller F) (now : F) (armed : Option Bool) (mode : Option String)
      → is_text c.handover_mode "OFFBOARD" ≡ false
      → asks_to_fly (ok (keep_handing_over c now armed mode).1) ≡ false
  unfolding keep_handing_over
  keep_handing_over_rests c now armed mode h = ground arith

  hand_back_rests :
      (c : Controller F) (mode : String) (r : Reading F)
      → (mode == "OFFBOARD") ≡ false
      → asks_to_fly (hand_back c mode r).1 ≡ false
  unfolding hand_back handover
  hand_back_rests c mode r h = ground arith

  fly_asks :
      (c : Controller F) (r : Reading F) (goal : Vector3 F) (out : ControllerOutput F)
      → (fly c r goal).1 ≡ ok out
      → asks_to_fly (ok out) ≡ true
      → (out.setpoint ≡ some goal) × (out.arm_request ≡ true → is_text r.mode "OFFBOARD" ≡ true)
  unfolding fly
  fly_asks c r goal out e h = ground (
    arith,
    step_streams c.offboard r.now r.armed r.mode,
    hand_back_rests (record c { complete = is_some c.queue || is_some c.leader }) "AUTO.LAND" r,
  )

  pursue_asks :
      (c : Controller F) (r : Reading F) (p : Vector3 F) (out : ControllerOutput F)
      → (pursue c r p).1 ≡ ok out
      → asks_to_fly (ok out) ≡ true
      → (goal : Vector3 F) × ((target c p r.leader_position).1 ≡ ok (some goal))
        × (out.setpoint ≡ some goal)
        × (out.arm_request ≡ true → is_text r.mode "OFFBOARD" ≡ true)
  unfolding pursue
  pursue_asks c r p out e h = elim (Result-cases (target c p r.leader_position).1) [
    | inl (none, t) ↦ absurd (ground arith)
    | inl (some goal, t) ↦
        let (s, m) = fly_asks (target c p r.leader_position).0 r goal out (ground arith) h in
        (goal, t, s, m)
    | inr (_, t) ↦ absurd (ground arith)
  ]

  -- Setpoints, and the requests that PX4 grants only while setpoints arrive, come together: a
  -- tick that sends a setpoint or asks for OFFBOARD or for arming sends the setpoint of the
  -- drone's task, knows where the drone is, has a task whose leader, if any, was heard in time,
  -- and has not handed the vehicle over; and it asks for arming only of a vehicle in OFFBOARD.
  pub tick_asks :
      (c : Controller F) (r : Reading F) (out : ControllerOutput F)
      → is_text c.handover_mode "OFFBOARD" ≡ false
      → (tick c r).1 ≡ ok out
      → asks_to_fly (ok out) ≡ true
      → (p : Vector3 F) × (goal : Vector3 F) × (r.position ≡ some p)
        × ((target c p r.leader_position).1 ≡ ok (some goal))
        × (out.setpoint ≡ some goal)
        × (c.handover_mode ≡ none)
        × (has_task c ≡ true)
        × (comms_lost c r ≡ false)
        × (out.arm_request ≡ true → is_text r.mode "OFFBOARD" ≡ true)
  unfolding tick tick_task
  tick_asks c r out n e h = elim (Option-cases c.handover_mode) [
    | inr (mode, m) ↦ absurd (ground (arith, keep_handing_over_rests c r.now r.armed r.mode n))
    | inl m ↦ elim (Option-cases r.position) [
      | inl q ↦ absurd (ground arith)
      | inr (p, q) ↦
          let rests = hand_back_rests c "AUTO.RTL" r refl in
          let (goal, t, s, a) = pursue_asks c r p out (ground arith) h in
          (p, goal, q, t, s, m, ground arith, ground arith, a)
    ]
  ]
