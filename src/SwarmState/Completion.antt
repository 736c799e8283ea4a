-- ===== src/SwarmState/Completion.antt =====
-- When a mission is reported complete (swarm_state.py).
use swarmsim.Dict.{Dict, lookup}
use swarmsim.Base.{
  some, true, false, inl, inr, refl, [], ◌∷◌, String, ◌≡◌, List, Option-cases, All, ◌<◌, arith,
  length, eq_iff, eq_refl,
}
use swarmsim.SwarmState.{DroneReadings, drone_done, all_done, mission_complete}

module _ {F : Type 0} where
  -- A drone has flown its part of a mission, and is back on the ground.
  pub record Landed (readings : Dict (DroneReadings F)) (mission drone : String) : Type 0 where
    pub reading : DroneReadings F
    pub known : lookup drone readings ≡ some reading
    pub same_mission : reading.mission_id ≡ some mission
    pub flown : reading.complete ≡ true
    pub disarmed : reading.armed ≡ some false

  drone_done-Landed :
      (readings : Dict (DroneReadings F)) (mission drone : String)
      → (drone_done readings mission drone ≡ true → Landed readings mission drone)
        × (Landed readings mission drone → drone_done readings mission drone ≡ true)
  unfolding drone_done
  drone_done-Landed readings mission drone = (there, back)
    where
      there : drone_done readings mission drone ≡ true → Landed readings mission drone
      there h = elim (Option-cases (lookup drone readings)) [
        | inl e ↦ absurd (ground arith)
        | inr (r, e) ↦ elim (Option-cases r.mission_id) [
          | inl m ↦ absurd (ground arith)
          | inr (id, m) ↦ elim (Option-cases r.armed) [
            | inl a ↦ absurd (ground arith)
            | inr (armed, a) ↦ record {
              reading = r;
              known = e;
              same_mission = ground (arith, eq_iff id mission);
              flown = ground arith;
              disarmed = ground arith;
            }
          ]
        ]
      ]

      back : Landed readings mission drone → drone_done readings mission drone ≡ true
      back l = ground (arith, l.known, l.same_mission, l.flown, l.disarmed, eq_refl mission)

  all_done-Landed :
      (readings : Dict (DroneReadings F)) (mission : String) (drones : List String)
      → (all_done readings mission drones ≡ true → All (Landed readings mission) drones)
        × (All (Landed readings mission) drones → all_done readings mission drones ≡ true)
  unfolding all_done
  all_done-Landed readings mission [] = (λ h. tt, λ h. refl)
  all_done-Landed readings mission (d ∷ ds) =
      let (there, back) = all_done-Landed readings mission ds in
      let (one, other) = drone_done-Landed readings mission d in
      (λ h. (one (ground arith), there (ground arith)), λ (l, ls). ground (arith, other l, back ls))

  -- A mission is reported complete exactly when it has drones and each of them was last heard to
  -- fly this mission, to have completed its part and to be disarmed; a drone that was never heard
  -- of, or whose arming is not known, keeps it from being complete.
  pub mission_complete-Landed :
      (readings : Dict (DroneReadings F)) (mission : String) (drones : List String)
      → (mission_complete readings mission drones ≡ true
          → (0 < length drones) × All (Landed readings mission) drones)
        × (0 < length drones
            → All (Landed readings mission) drones
            → mission_complete readings mission drones ≡ true)
  unfolding mission_complete
  mission_complete-Landed readings mission drones =
      let (there, back) = all_done-Landed readings mission drones in
      (λ h. (ground arith, there (ground arith)), λ pos l. ground (arith, back l))
