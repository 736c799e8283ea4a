-- ===== src/Vehicle/Flight.antt =====
-- A simulated vehicle over any sequence of calls (scenarios/sim.py).
use swarmsim.Trajectory.{Vector3}
use swarmsim.Float.{Float, IsOrdered}
use swarmsim.Base.{none, some, false, refl, Option, if_elim, if◌then◌else◌, not, ◌≡◌, sym, ◌∙◌}
use swarmsim.Vehicle.Autopilot.{
  IsSane, velocity_command-Steady, disarm-IsSane, drain-IsSane, failsafe-IsSane, actuate-IsSane,
  Call, Calls, actuated, stepped, no_call, then_call,
}
use swarmsim.Vehicle.{
  Vehicle, VehicleLimits, new_vehicle, step, disarm, is_known_mode, airborne, drain, failsafe, move,
  auto_disarm, above_ground,
}

module _ {F : Type 0} ⦃f : Float F⦄ where
  above_ground_lem : (p : Vector3 F) → IsOrdered f → f.lt (above_ground p).z (f.of_nat 0) ≡ false
  unfolding above_ground
  above_ground_lem p ord =
      if_elim (λ (q : Vector3 F). f.lt q.z (f.of_nat 0) ≡ false) (f.lt p.z (f.of_nat 0))
        (λ h. ord.not_lt_self 0) (λ h. h)

  move-IsSane :
      (v : Vehicle F) (dt : F) (disturbance : Vector3 F)
      → IsOrdered f
      → IsSane v
      → IsSane (move v dt disturbance)
  unfolding move
  move-IsSane v dt disturbance ord s =
      let w = velocity_command-Steady v in
      record {
        known_mode = rw w.same_mode s.known_mode;
        armed_since = λ h. rw w.same_armed_at (s.armed_since (sym w.same_armed ∙ h));
        above = above_ground_lem _ ord;
      }

  grounded-IsSane :
      (v : Vehicle F) (since : Option F) → IsSane v → IsSane (record v { grounded_since = since })
  grounded-IsSane v since s = record {
    known_mode = s.known_mode;
    armed_since = s.armed_since;
    above = s.above;
  }

  waits-IsSane :
      (v : Vehicle F) (limit now : F) (since other : Option F)
      → IsSane v
      → IsSane (elim since [
        | none ↦ record v { grounded_since = other }
        | some t ↦ if f.le limit (f.sub now t) then disarm v else v
      ])
  waits-IsSane v limit now none other s = grounded-IsSane v other s
  waits-IsSane v limit now (some t) other s =
      if_elim IsSane (f.le limit (f.sub now t)) (λ h. disarm-IsSane v s) (λ h. s)

  auto_disarm-IsSane : (v : Vehicle F) (now : F) → IsSane v → IsSane (auto_disarm v now)
  unfolding auto_disarm
  auto_disarm-IsSane v now s =
      if_elim IsSane (airborne v) (λ h. grounded-IsSane v none s)
        λ h.
          if_elim IsSane (not v.took_off)
            (λ h. waits-IsSane v (v.limits).preflight_disarm now v.armed_at v.grounded_since s)
            (λ h. waits-IsSane v (v.limits).land_disarm now v.grounded_since (some now) s)

  step-IsSane :
      (v : Vehicle F) (now dt : F) (disturbance : Vector3 F) (rate : F)
      → IsOrdered f
      → IsSane v
      → IsSane (step v now dt disturbance rate)
  unfolding step
  step-IsSane v now dt disturbance rate ord s =
      if_elim IsSane (not v.armed) (λ h. s)
        (λ h. auto_disarm-IsSane (move (failsafe (drain v dt rate) now) dt disturbance) now (
          move-IsSane (failsafe (drain v dt rate) now) dt disturbance ord
            (failsafe-IsSane (drain v dt rate) now (drain-IsSane v dt rate s))))

  Call-IsSane : (v v' : Vehicle F) → IsOrdered f → Call v v' → IsSane v → IsSane v'
  Call-IsSane v v' ord (actuated now a) s = actuate-IsSane v now a s
  Call-IsSane v v' ord (stepped now dt disturbance rate) s =
      step-IsSane v now dt disturbance rate ord s

  -- A vehicle whose home is not below the ground, whatever it is asked for and whatever the wind,
  -- is never below the ground and always in one of the four modes that the simulation knows; and
  -- while it is armed it knows since when.
  pub vehicle-IsSane :
      (home : Vector3 F) (battery : F) (limits : VehicleLimits F) (v : Vehicle F)
      → IsOrdered f
      → f.lt home.z (f.of_nat 0) ≡ false
      → Calls (new_vehicle home battery limits) v
      → IsSane v
  unfolding new_vehicle
  vehicle-IsSane home battery limits v ord h no_call = record {
    known_mode = unfold is_known_mode in refl;
    armed_since = λ e. absurd (cc);
    above = h;
  }
  vehicle-IsSane home battery limits v ord h (then_call before after calls call) =
      Call-IsSane before after ord call (vehicle-IsSane home battery limits before ord h calls)
