-- ===== src/Vehicle/Guards.antt =====
-- The autopilot's guards (scenarios/sim.py): for OFFBOARD and arming, and for a flat battery.
use swarmsim.Trajectory.{Vector3}
use swarmsim.Float.{Float}
use swarmsim.Base.{
  none, some, true, refl, ◌≡◌, Option, if_elim, if◌then◌else◌, not, arith, ◌⊎◌, ◌==◌, ◌&&◌, eq_iff,
  inl, inr, String, Bool, sym, Bool-cases, ◌∙◌, ap, false,
}
use swarmsim.Vehicle.Autopilot.{velocity_command-Steady}
use swarmsim.Vehicle.{
  Vehicle, Actuation, actuate, step, enter, disarm, drained, is_flat, take_setpoint, take_mode,
  take_arm, enter_requested, setpoints_fresh, is_known_mode, airborne, drain, failsafe, move,
  auto_disarm,
}

landing_ne_offboard : (mode : String) → mode ≡ "AUTO.LAND" → (mode == "OFFBOARD") ≡ false
landing_ne_offboard mode e = rw e refl

loitering_ne_offboard : (mode : String) → mode ≡ "AUTO.LOITER" → (mode == "OFFBOARD") ≡ false
loitering_ne_offboard mode e = rw e refl

-- How the failsafes choose a mode.
modes :
    (up flat fresh fresh₁ flat₂ : Bool) (mode mode₁ mode₂ : String)
    → mode₁ ≡ (if up && (flat && not (mode == "AUTO.LAND")) then "AUTO.LAND" else mode)
    → fresh₁ ≡ fresh
    → mode₂ ≡ (if mode₁ == "OFFBOARD" && not fresh₁ then "AUTO.LOITER" else mode₁)
    → flat₂ ≡ flat
    → (mode₂ ≡ "OFFBOARD" → (mode ≡ "OFFBOARD") × (fresh ≡ true))
      × (up ≡ true → flat₂ ≡ true → mode₂ ≡ "AUTO.LAND")
modes up flat fresh fresh₁ flat₂ mode mode₁ mode₂ first same second flats = (
  λ h. ground (
    arith,
    eq_iff mode₁ "OFFBOARD",
    eq_iff mode₂ "OFFBOARD",
    landing_ne_offboard mode₁,
    loitering_ne_offboard mode₂,
    eq_iff mode "OFFBOARD",
  ),
  λ h e. ground (
    arith,
    eq_iff mode₁ "OFFBOARD",
    eq_iff mode "AUTO.LAND",
    landing_ne_offboard mode₁,
    landing_ne_offboard mode,
  ),
)

module _ {F : Type 0} ⦃f : Float F⦄ where
  -- The same mode, battery and setpoints.
  record Alike (v v' : Vehicle F) : Type 0 where
    like_mode : v'.mode ≡ v.mode
    like_battery : v'.battery_pct ≡ v.battery_pct

  itself-Alike : (v : Vehicle F) (since : Option F) → Alike v (record v { grounded_since = since })
  itself-Alike v since = record { like_mode = refl; like_battery = refl }

  disarm-Alike : (v : Vehicle F) → Alike v (disarm v)
  unfolding disarm
  disarm-Alike v = record { like_mode = refl; like_battery = refl }

  waits-Alike :
      (v : Vehicle F) (limit now : F) (since other : Option F)
      → Alike v (elim since [
        | none ↦ record v { grounded_since = other }
        | some t ↦ if f.le limit (f.sub now t) then disarm v else v
      ])
  waits-Alike v limit now none other = itself-Alike v other
  waits-Alike v limit now (some t) other =
      if_elim (Alike v) (f.le limit (f.sub now t)) (λ h. disarm-Alike v)
        (λ h. itself-Alike v v.grounded_since)

  auto_disarm-Alike : (v : Vehicle F) (now : F) → Alike v (auto_disarm v now)
  unfolding auto_disarm
  auto_disarm-Alike v now =
      if_elim (Alike v) (airborne v) (λ h. itself-Alike v none)
        λ h.
          if_elim (Alike v) (not v.took_off)
            (λ h. waits-Alike v (v.limits).preflight_disarm now v.armed_at v.grounded_since)
            (λ h. waits-Alike v (v.limits).land_disarm now v.grounded_since (some now))

  move-Alike : (v : Vehicle F) (dt : F) (disturbance : Vector3 F) → Alike v (move v dt disturbance)
  unfolding move
  move-Alike v dt disturbance =
      let w = velocity_command-Steady v in
      record { like_mode = w.same_mode; like_battery = w.same_battery }

  failsafe_lem :
      (v : Vehicle F) (now : F)
      → ((failsafe v now).battery_pct ≡ v.battery_pct)
        × ((failsafe v now).mode ≡ (
            if v.mode == "OFFBOARD" && not (setpoints_fresh v now) then "AUTO.LOITER" else v.mode))
  unfolding failsafe enter
  failsafe_lem v now = (ground arith, ground arith)

  drain_lem :
      (v : Vehicle F) (dt rate now : F)
      → ((drain v dt rate).mode ≡ (
          if airborne v && (is_flat (drain v dt rate) && not (v.mode == "AUTO.LAND"))
          then "AUTO.LAND"
          else v.mode))
        × (setpoints_fresh (drain v dt rate) now ≡ setpoints_fresh v now)
  unfolding drain enter drained is_flat setpoints_fresh
  drain_lem v dt rate now = (ground arith, ground arith)

  step_armed :
      (v : Vehicle F) (now dt : F) (disturbance : Vector3 F) (rate : F)
      → v.armed ≡ true
      → step v now dt disturbance rate
        ≡ auto_disarm (move (failsafe (drain v dt rate) now) dt disturbance) now
  unfolding step
  step_armed v now dt disturbance rate armed =
      if_elim (λ w. w ≡ auto_disarm (move (failsafe (drain v dt rate) now) dt disturbance) now)
        (not v.armed) (λ h. absurd (ground arith)) (λ h. refl)

  flat_of : (v v' : Vehicle F) → v.battery_pct ≡ v'.battery_pct → is_flat v ≡ is_flat v'
  unfolding is_flat
  flat_of v v' e = ap (λ (b : F). f.le b (f.of_nat 0) && f.le (f.of_nat 0) b) e

  -- An armed vehicle that is in OFFBOARD after a step was in it before, and has a fresh setpoint
  -- stream; and one that was airborne and has a flat battery after the step is landing.
  pub step_guards :
      (v : Vehicle F) (now dt : F) (disturbance : Vector3 F) (rate : F)
      → v.armed ≡ true
      → let v' = step v now dt disturbance rate in
        (v'.mode ≡ "OFFBOARD" → (v.mode ≡ "OFFBOARD") × (setpoints_fresh v now ≡ true))
        × (airborne v ≡ true → is_flat v' ≡ true → v'.mode ≡ "AUTO.LAND")
  step_guards v now dt disturbance rate armed =
      let v₁ = drain v dt rate in
      let v₂ = failsafe v₁ now in
      let v₃ = move v₂ dt disturbance in
      let a = move-Alike v₂ dt disturbance in
      let b = auto_disarm-Alike v₃ now in
      let (battery, mode) = failsafe_lem v₁ now in
      let (first, fresh) = drain_lem v dt rate now in
      let whole = step_armed v now dt disturbance rate armed in
      let last_mode = ap (λ (w : Vehicle F). w.mode) whole ∙ b.like_mode ∙ a.like_mode in
      let last_battery =
        ap (λ (w : Vehicle F). w.battery_pct) whole ∙ b.like_battery ∙ a.like_battery ∙ battery in
      let last_flat = flat_of (step v now dt disturbance rate) v₁ last_battery in
      let v' = step v now dt disturbance rate in
      modes (airborne v) (is_flat v₁) (setpoints_fresh v now) (setpoints_fresh v₁ now) (is_flat v')
        v.mode v₁.mode v'.mode first fresh (last_mode ∙ mode) last_flat

  -- What the parts of `actuate` leave alone.
  record Streams (now : F) (v v' : Vehicle F) : Type 0 where
    like_armed : v'.armed ≡ v.armed
    like_fresh : setpoints_fresh v' now ≡ setpoints_fresh v now

  enter-Streams : (now : F) (v : Vehicle F) (mode : String) → Streams now v (enter v mode)
  unfolding enter setpoints_fresh
  enter-Streams now v mode = record { like_armed = refl; like_fresh = refl }

  enter_requested-Streams :
      (now : F) (v : Vehicle F) (mode : String) → Streams now v (enter_requested v now mode)
  unfolding enter_requested
  enter_requested-Streams now v mode =
      let same : Streams now v v = record { like_armed = refl; like_fresh = refl } in
      if_elim (Streams now v) (mode == "OFFBOARD" && not (setpoints_fresh v now)) (λ h. same)
        λ h.
          if_elim (Streams now v) (not (is_known_mode mode)) (λ h. same)
            λ h.
              if_elim (Streams now v) (not (mode == v.mode)) (λ h. enter-Streams now v mode)
                (λ h. same)

  enter_requested_mode :
      (now : F) (v : Vehicle F) (mode : String)
      → (enter_requested v now mode).mode ≡ "OFFBOARD"
      → (v.mode ≡ "OFFBOARD") ⊎ (setpoints_fresh v now ≡ true)
  unfolding enter_requested enter
  enter_requested_mode now v mode h = ground (arith, eq_iff mode "OFFBOARD", eq_iff mode v.mode)

  take_mode_lem :
      (now : F) (v : Vehicle F) (mode : Option String)
      → Streams now v (take_mode v now mode)
        × ((take_mode v now mode).mode ≡ "OFFBOARD"
            → (v.mode ≡ "OFFBOARD") ⊎ (setpoints_fresh v now ≡ true))
  unfolding take_mode
  take_mode_lem now v none = (record { like_armed = refl; like_fresh = refl }, λ h. inl h)
  take_mode_lem now v (some mode) =
      (enter_requested-Streams now v mode, enter_requested_mode now v mode)

  take_setpoint_lem :
      (now : F) (v : Vehicle F) (p : Option (Vector3 F))
      → ((take_setpoint v now p).mode ≡ v.mode) × ((take_setpoint v now p).armed ≡ v.armed)
  unfolding take_setpoint
  take_setpoint_lem now v none = (refl, refl)
  take_setpoint_lem now v (some p) = (refl, refl)

  take_arm_lem :
      (now : F) (v : Vehicle F) (asked : Bool)
      → let v' = take_arm v now asked in
        (v'.mode ≡ v.mode)
        × (setpoints_fresh v' now ≡ setpoints_fresh v now)
        × (v'.armed ≡ true
            → (v.armed ≡ true)
              ⊎ ((asked ≡ true) × (v.mode ≡ "OFFBOARD") × (setpoints_fresh v now ≡ true)))
  unfolding take_arm setpoints_fresh
  take_arm_lem now v asked =
      elim (Bool-cases
        (asked && (not v.armed && (v.mode == "OFFBOARD" && setpoints_fresh v now)))) [
          | inl h ↦
              rw (h, take_arm)
                (
                  refl,
                  refl,
                  λ e. inr (ground arith, ground (arith, eq_iff v.mode "OFFBOARD"), ground arith),
                )
          | inr h ↦ rw (h, take_arm) (refl, refl, λ e. inl e)
        ]

  -- A vehicle that is in OFFBOARD after its software has asked for something was in it before, or
  -- has a fresh setpoint stream; one that is armed was armed before, or was asked to arm, is in
  -- OFFBOARD and has a fresh setpoint stream.
  pub actuate_guards :
      (v : Vehicle F) (now : F) (a : Actuation F)
      → let v' = actuate v now a in
        (v'.mode ≡ "OFFBOARD" → (v.mode ≡ "OFFBOARD") ⊎ (setpoints_fresh v' now ≡ true))
        × (v'.armed ≡ true
            → (v.armed ≡ true)
              ⊎ ((a.arm_request ≡ true) × (v'.mode ≡ "OFFBOARD") × (setpoints_fresh v' now ≡ true)))
  unfolding actuate
  actuate_guards v now a =
      let v₁ = take_setpoint v now a.setpoint_local in
      let v₂ = take_mode v₁ now a.mode_request in
      let (mode₁, armed₁) = take_setpoint_lem now v a.setpoint_local in
      let (streams, offboard) = take_mode_lem now v₁ a.mode_request in
      let (mode₃, fresh₃, arms) = take_arm_lem now v₂ a.arm_request in
      (
        λ h. elim (offboard (sym mode₃ ∙ h)) [
          | inl before ↦ inl (sym mode₁ ∙ before)
          | inr fresh ↦ inr (fresh₃ ∙ streams.like_fresh ∙ fresh)
        ],
        λ h. elim (arms h) [
          | inl before ↦ inl (sym armed₁ ∙ sym streams.like_armed ∙ before)
          | inr (asked, mode, fresh) ↦ inr (asked, mode₃ ∙ mode, fresh₃ ∙ fresh)
        ],
      )
