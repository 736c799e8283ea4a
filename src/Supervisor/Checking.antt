-- ===== src/Supervisor/Checking.antt =====
-- What a planner's plan is held to before it is flown (supervisor.py `_unusable`).
use swarmsim.Fleet.Sorting.{length-sort_ids}
use swarmsim.Fleet.{sort_ids}
use swarmsim.Planning.Plans.{IsFlyable, HasPath, LedBy, size, has_part}
use swarmsim.Trajectory.{Vector3}
use swarmsim.Dict.{Dict, keys}
use swarmsim.Planning.{MissionPlan, MissionMessage}
use swarmsim.Supervisor.Start.{without_path, first_leaderless, unusable}
use swarmsim.Base.{
  none, true, false, inl, inr, [], ◌∷◌, String, Bool, Distinct, List, length, ◌≡◌, keep, All, ◌==◌,
  contains, Bool-cases, arith, ◌++◌, eq_iff, not, sym, ◌∙◌, length-append, contains-append,
}

keep_empty :
    (p : String → Bool) (k : String) (xs : List String)
    → length (keep p xs) ≡ 0
    → contains k xs ≡ true
    → p k ≡ false
keep_empty p k [] e h = absurd (cc)
keep_empty p k (x ∷ xs) e h = elim (Bool-cases (x == k)) [
  | inl same ↦ let i = (eq_iff x k).0 same in let q : p x ≡ false = ground arith in rw i at q
  | inr other ↦ keep_empty p k xs (ground arith) (ground arith)
]

module _ {F : Type 0} where
  without_path_empty :
      (paths : Dict (List (Vector3 F)))
      → length (without_path paths) ≡ 0
      → All (λ e. HasPath e.1) paths
  unfolding without_path
  without_path_empty [] e = tt
  without_path_empty ((d, path) ∷ paths) e = ground (arith, without_path_empty paths)

  first_leaderless-none :
      (paths : Dict (List (Vector3 F))) (followers : Dict (String × Vector3 F))
      → first_leaderless (keys paths) followers ≡ none
      → All (λ e. LedBy paths e.1) followers
  unfolding first_leaderless
  first_leaderless-none paths [] e = tt
  first_leaderless-none paths ((d, (leader, o)) ∷ followers) e =
      ground (arith, first_leaderless-none paths followers)

  -- The plan comes as two dicts, whose keys are distinct.
  pub record IsDicts (plan : MissionPlan F) : Type 0 where
    pub paths_once : Distinct (keys plan.paths)
    pub followers_once : Distinct (keys plan.followers)

  -- The tests of `unusable` one by one.
  unusable-none :
      (plan : MissionPlan F) (mission : MissionMessage F) (offered : List String)
      → unusable plan mission offered ≡ none
      → ((plan.mission_id == mission.mission_id) ≡ true)
        × (length (sort_ids (keep (λ d. contains d (keys plan.followers)) (keys plan.paths))) ≡ 0)
        × (length (keys plan.paths ++ keys plan.followers) ≡ mission.drone_count)
        × (length (keep (λ d. not (contains d offered)) (keys plan.paths ++ keys plan.followers))
            ≡ 0)
        × (length (without_path plan.paths) ≡ 0)
        × (first_leaderless (keys plan.paths) plan.followers ≡ none)
  unfolding unusable
  unusable-none plan mission offered e = ground arith

  -- A plan that passes the check can be flown as a plan for this mission: it has the mission's
  -- id, gives a part to exactly as many drones as the mission needs, all of them offered, and none
  -- has two parts; every path has a waypoint, and every follower's leader flies one.
  pub unusable_sound :
      (plan : MissionPlan F) (mission : MissionMessage F) (offered : List String)
      → IsDicts plan
      → unusable plan mission offered ≡ none
      → IsFlyable plan
        × (size plan ≡ mission.drone_count)
        × ((k : String) → has_part plan k ≡ true → contains k offered ≡ true)
        × (plan.mission_id ≡ mission.mission_id)
  unusable_sound plan mission offered d e =
      let (id, both, count, outside, empty, leaders) = unusable-none plan mission offered e in
      let drones = keys plan.paths ++ keys plan.followers in
      let in_both = λ (k : String). contains k (keys plan.followers) in
      (
        record {
          distinct_paths = d.paths_once;
          distinct_followers = d.followers_once;
          apart = λ k h.
              keep_empty in_both k (keys plan.paths)
                (sym (length-sort_ids (keep in_both (keys plan.paths))) ∙ both) h;
          nonempty = without_path_empty plan.paths empty;
          led = first_leaderless-none plan.paths plan.followers leaders;
        },
        sym (length-append (keys plan.paths) (keys plan.followers)) ∙ count,
        λ k h. ground (
          arith,
          contains-append k (keys plan.paths) (keys plan.followers),
          keep_empty (λ d. not (contains d offered)) k drones outside,
        ),
        (eq_iff plan.mission_id mission.mission_id).0 id,
      )
