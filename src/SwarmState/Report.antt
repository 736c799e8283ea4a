-- ===== src/SwarmState/Report.antt =====
-- Which drones a state message reports, and when none can be built (swarm_state.py).
use swarmsim.Fleet.{second_number, sort_by}
use swarmsim.Errors.{is_ok, ok, Result-cases}
use swarmsim.Float.{Float}
use swarmsim.Dict.{Dict, lookup, keys, contains-keys}
use swarmsim.Planning.{numbered, name_of, number_leb}
use swarmsim.Base.{
  none, some, true, false, inl, inr, refl, [], ◌∷◌, List, String, Option, Bool, contains, All, ◌≡◌,
  is_some, Option-cases, same_text, ◌&&◌, arith, ℕ, eq_iff, map,
}
use swarmsim.SwarmState.{
  DroneReadings, DroneState, StateMessage, drone_state, drone_states, build_state_message,
}
use swarmsim.Planning.Drones.{named, named-sort_by, named-numbered}

-- Every id has a number after its first underscore.
abbrev pub all_numbered : List String → Bool
all_numbered [] = true
all_numbered (d ∷ ds) = is_some (second_number d) && all_numbered ds

pub numbered-ok : (ds : List String) → is_ok (numbered ds) ≡ all_numbered ds
unfolding numbered
numbered-ok [] = refl
numbered-ok (d ∷ ds) = elim (Option-cases (second_number d)) [
  | inl e ↦ ground arith
  | inr (n, e) ↦ elim (Result-cases (numbered ds)) [
    | inl (ids, r) ↦ ground (arith, numbered-ok ds)
    | inr (x, r) ↦ ground (arith, numbered-ok ds)
  ]
]

module _ {F : Type 0} where
  -- The position of a drone is known.
  abbrev pub located : Dict (DroneReadings F) → String → Bool
  located readings d = elim (lookup d readings) [ none ↦ false | some r ↦ is_some r.position_world ]

  abbrev pub reported : List (DroneState F) → List String
  reported [] = []
  reported (e ∷ es) = e.id ∷ reported es

  -- An entry shows what was last heard of its drone, and progress in this mission only.
  pub record Shows (readings : Dict (DroneReadings F)) (mission : Option String) (e : DroneState F)
      : Type 0 where
    pub reading : DroneReadings F
    pub known : lookup e.id readings ≡ some reading
    pub here : reading.position_world ≡ some e.position
    pub same_armed : e.armed ≡ reading.armed
    pub same_battery : e.battery_pct ≡ reading.battery_pct
    pub no_other : same_text reading.mission_id mission ≡ false → e.waypoint_index ≡ none

module _ {F : Type 0} ⦃f : Float F⦄ where
  contains-drone_states :
      (now : F) (mission : Option String) (readings : Dict (DroneReadings F)) (ds : List String)
      (k : String)
      → contains k (reported (drone_states now mission readings ds))
        ≡ (contains k ds && located readings k)
  unfolding drone_states drone_state
  contains-drone_states now mission readings [] k = refl
  contains-drone_states now mission readings (d ∷ ds) k =
      ground (arith, eq_iff d k, contains-drone_states now mission readings ds k)

  drone_states-Shows :
      (now : F) (mission : Option String) (readings : Dict (DroneReadings F)) (ds : List String)
      → All (Shows readings mission) (drone_states now mission readings ds)
  unfolding drone_states drone_state
  drone_states-Shows now mission readings [] = tt
  drone_states-Shows now mission readings (d ∷ ds) =
      let rest = drone_states-Shows now mission readings ds in
      elim (Option-cases (lookup d readings)) [
        | inl e ↦ rw (e, drone_states) rest
        | inr (r, e) ↦ elim (Option-cases r.position_world) [
          | inl p ↦ rw (e, drone_states, p) rest
          | inr (position, p) ↦
              rw (e, drone_states, p)
                (
                  record {
                    reading = r;
                    known = e;
                    here = p;
                    same_armed = refl;
                    same_battery = refl;
                    no_other = λ h. ground arith;
                  },
                  rest,
                )
        ]
      ]

  build-states :
      (readings : Dict (DroneReadings F)) (now : F) (mission : Option String) (drones : List String)
      (message : StateMessage F)
      → build_state_message readings now mission drones ≡ ok message
      → (ids : List (ℕ × String)) × (numbered (keys readings) ≡ ok ids)
        × (message.drones
            ≡ drone_states now mission readings (map name_of (sort_by number_leb ids)))
  unfolding build_state_message
  build-states readings now mission drones message e =
      elim (Result-cases (numbered (keys readings))) [
        | inr (x, r) ↦ absurd (ground arith)
        | inl (ids, r) ↦ (ids, r, ground arith)
      ]

  -- A state message can be built exactly when every drone's id has a number after its first
  -- underscore. It reports exactly the drones whose position is known, each as it was last heard,
  -- and shows progress only in the mission that the message is about.
  build_state_message-reports :
      (readings : Dict (DroneReadings F)) (now : F) (mission : Option String) (drones : List String)
      → (is_ok (build_state_message readings now mission drones) ≡ all_numbered (keys readings))
        × ((message : StateMessage F)
            → build_state_message readings now mission drones ≡ ok message
            → ((k : String) → contains k (reported message.drones) ≡ located readings k)
              × All (Shows readings mission) message.drones)
  unfolding build_state_message named
  build_state_message-reports readings now mission drones = (built, shown)
    where
      built : is_ok (build_state_message readings now mission drones) ≡ all_numbered (keys readings)
      built = ground (arith, numbered-ok (keys readings))

      shown :
          (message : StateMessage F)
          → build_state_message readings now mission drones ≡ ok message
          → ((k : String) → contains k (reported message.drones) ≡ located readings k)
            × All (Shows readings mission) message.drones
      shown message e =
          let (ids, r, same) = build-states readings now mission drones message e in
          let ds = map name_of (sort_by number_leb ids) in
          rw same (
            λ k. ground (
              arith,
              contains-drone_states now mission readings ds k,
              named-sort_by k ids,
              named-numbered k (keys readings) ids r,
              contains-keys k readings,
            ),
            drone_states-Shows now mission readings ds,
          )
