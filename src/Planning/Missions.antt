-- ===== src/Planning/Missions.antt =====
-- What `plan_mission` makes of a mission, and when it refuses one (mission_planning.py).
use swarmsim.Formation.Laws.{length-line_formation, length-v_formation}
use swarmsim.Errors.{ok, Result-cases, is_ok}
use swarmsim.Planning.Plans.{IsFlyable, size, has_part, lanes-paths, slots-followers}
use swarmsim.Trajectory.{Vector3}
use swarmsim.Dict.{Dict, keys, insert}
use swarmsim.Planning.{
  MissionMessage, plan_mission, MissionPlan, plan_swarm_waypoints, drone_names, lanes, slots,
  formation_offsets,
}
use swarmsim.Float.{Float}
use swarmsim.Base.{
  ◌==◌, zero, suc, refl, [], ◌∷◌, ℕ, List, String, take, ◌<◌, ◌≡◌, length, ap, Distinct, ◌≤◌,
  contains, ◌⊎◌, inl, inr, length-take, arith, eq_refl, Bool-cases, eq_iff, List-cases, true,
  Distinct-take, Bool, ◌∙◌, leb, ◌-◌, ◌&&◌, ltb, ◌||◌, false,
}

take-take {ℓ} : {A : Type ℓ} (n : ℕ) (xs : List A) → take n (take n xs) ≡ take n xs
take-take zero xs = refl
take-take (suc n) [] = refl
take-take (suc n) (x ∷ xs) = ap (λ rest. x ∷ rest) (take-take n xs)

one_type : (t : String) → (t == "formation") ≡ true → (t == "waypoint") ≡ false
one_type t e = let same = (eq_iff t "formation").0 e in rw same refl

module _ {F : Type 0} ⦃f : Float F⦄ where
  abbrev pub as_plan : String → Dict (List (Vector3 F)) → Dict (String × Vector3 F) → MissionPlan F
  as_plan mission paths followers = record {
    mission_id = mission;
    paths = paths;
    followers = followers;
  }

  abbrev pub Makes : MissionMessage F → List String → MissionPlan F → Type 0
  Makes mission names plan =
      IsFlyable plan
      × (size plan ≡ length names)
      × ((k : String) → has_part plan k ≡ contains k names)
      × (plan.mission_id ≡ mission.mission_id)

  waypoint-Makes :
      (mission : MissionMessage F) (names : List String)
      → 0 < length mission.waypoints
      → Distinct names
      → Makes mission names
          (as_plan mission.mission_id (lanes mission.waypoints mission.spacing 0 names []) [])
  unfolding keys
  waypoint-Makes mission names pos d =
      let (a, b, c, e) =
        lanes-paths mission.waypoints mission.spacing 0 names [] pos d tt (λ k h. refl) tt in
      (
        record {
          distinct_paths = a;
          distinct_followers = tt;
          apart = λ k h. refl;
          nonempty = e;
          led = tt;
        },
        omega arith,
        λ k. ground (arith, b k),
        refl,
      )

  formation-Makes :
      (mission : MissionMessage F) (leader : String) (rest : List String)
      (offsets : List (Vector3 F)) (followers : Dict (String × Vector3 F))
      → 0 < length mission.waypoints
      → Distinct (leader ∷ rest)
      → slots leader rest offsets [] ≡ ok followers
      → Makes mission
          (leader ∷ rest)
          (as_plan mission.mission_id ((leader, mission.waypoints) ∷ []) followers)
  unfolding keys
  formation-Makes mission leader rest offsets followers pos (fresh, d) e =
      let paths : Dict (List (Vector3 F)) = (leader, mission.waypoints) ∷ [] in
      let (a, b, c, l) =
        slots-followers leader rest offsets [] followers paths e (ground (arith, eq_refl leader)) d
          tt (λ k h. refl) tt in
      (
        record {
          distinct_paths = (refl, tt);
          distinct_followers = a;
          apart = λ k h. ground (arith, b k, eq_iff leader k);
          nonempty = (pos, tt);
          led = l;
        },
        omega arith,
        λ k. ground (arith, b k),
        refl,
      )

  -- How `plan_mission` comes to a plan.
  plan_mission_inv :
      (mission : MissionMessage F) (drones : List String) (plan : MissionPlan F)
      → plan_mission mission drones ≡ ok plan
      → (mission.drone_count ≤ length drones)
        × (0 < length mission.waypoints)
        × ((plan
              ≡ as_plan mission.mission_id
                  (lanes mission.waypoints mission.spacing 0 (take mission.drone_count drones) [])
                  [])
            ⊎ ((leader : String) × (rest : List String) × (offsets : List (Vector3 F))
                × (followers : Dict (String × Vector3 F)) × (take mission.drone_count drones
                    ≡ leader ∷ rest)
                × (slots leader rest offsets [] ≡ ok followers)
                × (plan ≡ as_plan mission.mission_id ((leader, mission.waypoints) ∷ []) followers)))
  unfolding plan_mission plan_swarm_waypoints drone_names
  plan_mission_inv mission drones plan e =
      let again = take-take mission.drone_count drones in
      let shorter = length-take mission.drone_count drones in
      let enough : mission.drone_count ≤ length drones = ground arith in
      let pos : 0 < length mission.waypoints = ground arith in
      elim (Bool-cases (mission.mission_type == "formation")) [
        | inr w ↦ (enough, pos, inl (ground (arith, again)))
        | inl w ↦ elim (List-cases (take mission.drone_count drones)) [
          | inl none_left ↦ absurd (ground (arith, again))
          | inr (leader, rest, names) ↦
              elim (Result-cases
                (formation_offsets mission.formation (mission.drone_count - 1) mission.spacing)) [
                  | inr (_, o) ↦ absurd (ground (arith, again))
                  | inl (offsets, o) ↦ elim (Result-cases (slots leader rest offsets [])) [
                    | inr (_, l) ↦ absurd (ground (arith, again))
                    | inl (followers, l) ↦ (
                      enough,
                      pos,
                      inr (leader, rest, offsets, followers, names, l, ground (arith, again)),
                    )
                  ]
                ]
        ]
      ]

  -- On drones that are named once each, a plan of `plan_mission` can be flown: it gives one part
  -- to each of the first `drone_count` drones and to no other, every path has a waypoint and every
  -- follower's leader flies a path.
  pub plan_mission-IsFlyable :
      (mission : MissionMessage F) (drones : List String) (plan : MissionPlan F)
      → Distinct drones
      → plan_mission mission drones ≡ ok plan
      → IsFlyable plan
        × (size plan ≡ mission.drone_count)
        × ((k : String) → has_part plan k ≡ contains k (take mission.drone_count drones))
        × (plan.mission_id ≡ mission.mission_id)
  plan_mission-IsFlyable mission drones plan d e =
      let (enough, pos, how) = plan_mission_inv mission drones plan e in
      let dt = Distinct-take mission.drone_count drones d in
      let n : length (take mission.drone_count drones) ≡ mission.drone_count =
        omega (arith, length-take mission.drone_count drones) in
      elim how [
        | inl same ↦
            let (a, b, c, i) = waypoint-Makes mission (take mission.drone_count drones) pos dt in
            rw same (a, b ∙ n, c, i)
        | inr (leader, rest, offsets, followers, names, l, same) ↦
            let (a, b, c, i) =
              formation-Makes mission leader rest offsets followers pos (rw names at dt) l in
            rw (same, names) (a, b ∙ (rw names at n), c, i)
      ]

  -- What `plan_mission` asks of a mission.
  abbrev pub acceptable : MissionMessage F → List String → Bool
  acceptable mission drones =
      leb 1 mission.drone_count
      && (ltb 0 (length mission.waypoints)
          && (leb mission.drone_count (length drones)
              && (mission.mission_type == "waypoint"
                  || (mission.mission_type == "formation"
                      && (mission.formation == "line" || mission.formation == "v")))))

  slots-ok :
      (leader : String) (ds : List String) (offsets : List (Vector3 F))
      (places : Dict (String × Vector3 F))
      → length ds ≡ length offsets
      → is_ok (slots leader ds offsets places) ≡ true
  unfolding slots
  slots-ok leader [] [] places e = refl
  slots-ok leader [] (o ∷ os) places e = absurd (omega arith)
  slots-ok leader (d ∷ ds) [] places e = absurd (omega arith)
  slots-ok leader (d ∷ ds) (o ∷ os) places e =
      slots-ok leader ds os (insert d (leader, o) places) (omega arith)

  formation_offsets_ok :
      (formation : String) (n : ℕ) (spacing : F)
      → is_ok (formation_offsets formation n spacing) ≡ (formation == "line" || formation == "v")
  unfolding formation_offsets
  formation_offsets_ok formation n spacing = ground arith

  length-formation_offsets :
      (formation : String) (n : ℕ) (spacing : F) (offsets : List (Vector3 F))
      → formation_offsets formation n spacing ≡ ok offsets
      → length offsets ≡ n
  unfolding formation_offsets
  length-formation_offsets formation n spacing offsets e =
      ground (arith, length-line_formation n spacing, length-v_formation n spacing)

  -- `plan_mission` gives a plan exactly for a mission of at least one drone and one waypoint, of
  -- a known type and, for a formation, of a known shape, when it is given drones enough; for any
  -- other it raises.
  pub plan_mission_ok :
      (mission : MissionMessage F) (drones : List String)
      → is_ok (plan_mission mission drones) ≡ acceptable mission drones
  unfolding plan_mission plan_swarm_waypoints drone_names
  plan_mission_ok mission drones =
      let again = take-take mission.drone_count drones in
      let shorter = length-take mission.drone_count drones in
      elim (List-cases (take mission.drone_count drones)) [
        | inl none_left ↦ ground (arith, again, shorter)
        | inr (leader, rest, names) ↦
            let known =
              formation_offsets_ok mission.formation (mission.drone_count - 1) mission.spacing in
            elim (Result-cases
              (formation_offsets mission.formation (mission.drone_count - 1) mission.spacing)) [
                | inr (_, o) ↦ ground (arith, again, shorter, known, one_type mission.mission_type)
                | inl (offsets, o) ↦ ground (
                  arith,
                  again,
                  shorter,
                  known,
                  one_type mission.mission_type,
                  length-formation_offsets mission.formation (mission.drone_count - 1)
                      mission.spacing offsets o,
                  slots-ok leader rest offsets [],
                )
              ]
      ]
