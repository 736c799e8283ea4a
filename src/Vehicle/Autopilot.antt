-- ===== src/Vehicle/Autopilot.antt =====
-- The calls of a simulated vehicle (scenarios/sim.py), and what each part of one does to it.
use swarmsim.Trajectory.{Vector3}
use swarmsim.Float.{Float}
use swarmsim.Base.{
  none, some, true, false, refl, ◌≡◌, String, Option, if_elim, is_some, ◌==◌, ◌&&◌, not, arith,
}
use swarmsim.Vehicle.{
  climb, return_home, descend, drained, is_flat, pursue_goal, Vehicle, Actuation, actuate, step,
  enter, disarm, take_setpoint, take_mode, take_arm, enter_requested, setpoints_fresh,
  is_known_mode, airborne, drain, failsafe, velocity_command, auto_command, rtl_command, rtl_return,
  rtl_in, RtlPhase, descend, return_home,
}

-- One call of a method of the vehicle.
pub data Call {F : Type 0} ⦃f : Float F⦄ (v : Vehicle F) : Vehicle F → Type 0 where
  actuated : (now : F) (a : Actuation F) → Call v (actuate v now a)
  stepped :
      (now dt : F) (disturbance : Vector3 F) (rate : F) → Call v (step v now dt disturbance rate)

-- Any number of calls, one after another.
pub data Calls {F : Type 0} ⦃f : Float F⦄ (v : Vehicle F) : Vehicle F → Type 0 where
  no_call : Calls v v
  then_call : (v' v'' : Vehicle F) → Calls v v' → Call v' v'' → Calls v v''

module _ {F : Type 0} ⦃f : Float F⦄ where
  -- A vehicle is in a mode of PX4, knows when it was armed, and is not below the ground.
  pub record IsSane (v : Vehicle F) : Type 0 where
    pub known_mode : is_known_mode v.mode ≡ true
    pub armed_since : v.armed ≡ true → is_some v.armed_at ≡ true
    pub above : f.lt (v.position).z (f.of_nat 0) ≡ false

  enter-IsSane :
      (v : Vehicle F) (mode : String) → is_known_mode mode ≡ true → IsSane v → IsSane (enter v mode)
  unfolding enter
  enter-IsSane v mode k s = record { known_mode = k; armed_since = s.armed_since; above = s.above }

  pub disarm-IsSane : (v : Vehicle F) → IsSane v → IsSane (disarm v)
  unfolding disarm
  disarm-IsSane v s = record {
    known_mode = s.known_mode;
    armed_since = λ h. absurd (cc);
    above = s.above;
  }

  enter_requested-IsSane :
      (v : Vehicle F) (now : F) (mode : String) → IsSane v → IsSane (enter_requested v now mode)
  unfolding enter_requested
  enter_requested-IsSane v now mode s =
      if_elim IsSane (mode == "OFFBOARD" && not (setpoints_fresh v now)) (λ h. s)
        λ h.
          if_elim IsSane (not (is_known_mode mode)) (λ h. s)
            λ known.
              if_elim IsSane (not (mode == v.mode)) (λ h. enter-IsSane v mode (ground arith) s)
                λ h. s

  take_mode-IsSane :
      (v : Vehicle F) (now : F) (mode : Option String) → IsSane v → IsSane (take_mode v now mode)
  unfolding take_mode
  take_mode-IsSane v now none s = s
  take_mode-IsSane v now (some mode) s = enter_requested-IsSane v now mode s

  take_setpoint-IsSane :
      (v : Vehicle F) (now : F) (p : Option (Vector3 F)) → IsSane v → IsSane (take_setpoint v now p)
  unfolding take_setpoint
  take_setpoint-IsSane v now none s = s
  take_setpoint-IsSane v now (some p) s = record {
    known_mode = s.known_mode;
    armed_since = s.armed_since;
    above = s.above;
  }

  pub actuate-IsSane :
      (v : Vehicle F) (now : F) (a : Actuation F) → IsSane v → IsSane (actuate v now a)
  unfolding actuate take_arm
  actuate-IsSane v now a s =
      let v₁ = take_setpoint v now a.setpoint_local in
      let v₂ = take_mode v₁ now a.mode_request in
      let s₂ =
        take_mode-IsSane v₁ now a.mode_request (take_setpoint-IsSane v now a.setpoint_local s) in
      if_elim IsSane
        (a.arm_request && (not v₂.armed && (v₂.mode == "OFFBOARD" && setpoints_fresh v₂ now)))
        (λ h. record { known_mode = s₂.known_mode; armed_since = λ h. refl; above = s₂.above })
        (λ h. s₂)

  drained-IsSane : (v : Vehicle F) (dt rate : F) → IsSane v → IsSane (drained v dt rate)
  unfolding drained
  drained-IsSane v dt rate s = record {
    known_mode = s.known_mode;
    armed_since = s.armed_since;
    above = s.above;
  }

  pub drain-IsSane : (v : Vehicle F) (dt rate : F) → IsSane v → IsSane (drain v dt rate)
  unfolding drain
  drain-IsSane v dt rate s =
      let v' = drained v dt rate in
      let s' = drained-IsSane v dt rate s in
      if_elim IsSane (not (airborne v)) (λ h. s)
        λ h.
          if_elim IsSane (is_flat v' && not (v.mode == "AUTO.LAND"))
            (λ flat. enter-IsSane v' "AUTO.LAND" (unfold is_known_mode in refl) s') (λ e. s')

  pub failsafe-IsSane : (v : Vehicle F) (now : F) → IsSane v → IsSane (failsafe v now)
  unfolding failsafe
  failsafe-IsSane v now s =
      if_elim IsSane (v.mode == "OFFBOARD" && not (setpoints_fresh v now))
        (λ h. enter-IsSane v "AUTO.LOITER" (unfold is_known_mode in refl) s) (λ h. s)

  -- Working out a velocity changes nothing but the phase of a return.
  pub record Steady (v v' : Vehicle F) : Type 0 where
    pub same_mode : v'.mode ≡ v.mode
    pub same_armed : v'.armed ≡ v.armed
    pub same_armed_at : v'.armed_at ≡ v.armed_at
    pub same_battery : v'.battery_pct ≡ v.battery_pct
    pub same_setpoint : v'.setpoint_time ≡ v.setpoint_time
    pub same_limits : v'.limits ≡ v.limits

  phase-Steady : (v : Vehicle F) (phase : RtlPhase) → Steady v (record v { rtl_phase = phase })
  phase-Steady v phase = record {
    same_mode = refl;
    same_armed = refl;
    same_armed_at = refl;
    same_battery = refl;
    same_setpoint = refl;
    same_limits = refl;
  }

  itself-Steady : (v : Vehicle F) → Steady v v
  itself-Steady v = phase-Steady v v.rtl_phase

  Returns : Vehicle F → Vehicle F × Vector3 F → Type 0
  Returns v r = Steady v r.0

  rtl_return-Steady :
      (v : Vehicle F) (phase : RtlPhase) → Steady v (rtl_return (record v { rtl_phase = phase })).0
  unfolding rtl_return Returns
  rtl_return-Steady v phase =
      if_elim (Returns v) _ (λ h. phase-Steady v descend) (λ h. phase-Steady v phase)

  rtl_in-Steady : (phase : RtlPhase) (v : Vehicle F) → Steady v (rtl_in phase v).0
  unfolding rtl_in Returns
  rtl_in-Steady climb v =
      if_elim (Returns v) _ (λ h. rtl_return-Steady v return_home) (λ h. itself-Steady v)
  rtl_in-Steady return_home v = rtl_return-Steady v v.rtl_phase
  rtl_in-Steady descend v = itself-Steady v

  auto_command-Steady : (v : Vehicle F) → Steady v (auto_command v).0
  unfolding auto_command rtl_command Returns
  auto_command-Steady v =
      if_elim (Returns v) (v.mode == "AUTO.LAND") (λ h. itself-Steady v)
        λ h.
          if_elim (Returns v) (v.mode == "AUTO.RTL") (λ h. rtl_in-Steady v.rtl_phase v)
            (λ h. itself-Steady v)

  pursue_goal-Steady : (v : Vehicle F) (goal : Option (Vector3 F)) → Steady v (pursue_goal v goal).0
  unfolding pursue_goal Returns
  pursue_goal-Steady v none = auto_command-Steady v
  pursue_goal-Steady v (some goal) =
      if_elim (Returns v) (v.mode == "OFFBOARD") (λ h. itself-Steady v) (λ h. auto_command-Steady v)

  pub velocity_command-Steady : (v : Vehicle F) → Steady v (velocity_command v).0
  unfolding velocity_command
  velocity_command-Steady v = pursue_goal-Steady v v.setpoint
