-- ===== src/Planning/Plans.antt =====
-- What a plan that can be flown is, and the parts of one (mission_planning.py).
use swarmsim.Errors.{ok}
use swarmsim.Trajectory.{Vector3}
use swarmsim.Float.{Float}
use swarmsim.Planning.{MissionPlan, lane, lanes, slots}
use swarmsim.Dict.{
  Dict, keys, insert, insert-Distinct, keys-insert, values-insert, length-insert_new,
}
use swarmsim.Base.{
  true, false, suc, refl, [], ◌∷◌, List, Distinct, String, ℕ, ◌<◌, contains, Bool, length, ◌≡◌, All,
  ◌||◌, ◌+◌, ap, arith, eq_refl, eq_iff,
}

module _ {F : Type 0} where
  abbrev pub HasPath : List (Vector3 F) → Type 0
  HasPath path = 0 < length path

  abbrev pub LedBy : Dict (List (Vector3 F)) → String × Vector3 F → Type 0
  LedBy paths place = contains place.0 (keys paths) ≡ true

  -- No drone has two parts, every path has a waypoint, and every leader flies a path.
  pub record IsFlyable (plan : MissionPlan F) : Type 0 where
    pub distinct_paths : Distinct (keys plan.paths)
    pub distinct_followers : Distinct (keys plan.followers)
    pub apart :
        (k : String)
        → contains k (keys plan.paths) ≡ true
        → contains k (keys plan.followers) ≡ false
    pub nonempty : All (λ e. HasPath e.1) plan.paths
    pub led : All (λ e. LedBy plan.paths e.1) plan.followers

  abbrev pub has_part : MissionPlan F → String → Bool
  has_part plan d = contains d (keys plan.paths) || contains d (keys plan.followers)

  -- How many drones a plan uses.
  abbrev pub size : MissionPlan F → ℕ
  size plan = length (keys plan.paths) + length (keys plan.followers)

module _ {F : Type 0} ⦃f : Float F⦄ where
  length-lane : (base : List (Vector3 F)) (s : F) (i : ℕ) → length (lane base s i) ≡ length base
  unfolding lane
  length-lane [] s i = refl
  length-lane (w ∷ ws) s i = ap suc (length-lane ws s i)

  -- The lanes from `i` on, added to the paths so far.
  pub lanes-paths :
      (base : List (Vector3 F)) (s : F) (i : ℕ) (ds : List String) (paths : Dict (List (Vector3 F)))
      → 0 < length base
      → Distinct ds
      → Distinct (keys paths)
      → ((k : String) → contains k ds ≡ true → contains k (keys paths) ≡ false)
      → All (λ e. HasPath e.1) paths
      → let all = lanes base s i ds paths in
        Distinct (keys all)
        × ((k : String) → contains k (keys all) ≡ (contains k (keys paths) || contains k ds))
        × (length (keys all) ≡ length (keys paths) + length ds)
        × All (λ e. HasPath e.1) all
  unfolding lanes
  lanes-paths base s i [] paths pos dd dp apart h = (dp, λ k. ground arith, omega arith, h)
  lanes-paths base s i (d ∷ ds) paths pos (fresh, dd) dp apart h =
      let paths' = insert d (lane base s i) paths in
      let new : contains d (keys paths) ≡ false = apart d (ground (arith, eq_refl d)) in
      let (a, b, c, e) =
        lanes-paths base s (i + 1) ds paths' pos dd (insert-Distinct d (lane base s i) paths dp)
          (λ k m. ground (arith, keys-insert d k (lane base s i) paths, apart k, eq_iff d k))
          (values-insert HasPath d (lane base s i) paths h (omega (arith, length-lane base s i))) in
      (
        a,
        λ k. ground (arith, b k, keys-insert d k (lane base s i) paths),
        omega (arith, length-insert_new d (lane base s i) paths new),
        e,
      )

  pub slots-followers :
      (leader : String) (ds : List String) (offsets : List (Vector3 F))
      (places all : Dict (String × Vector3 F)) (paths : Dict (List (Vector3 F)))
      → slots leader ds offsets places ≡ ok all
      → contains leader (keys paths) ≡ true
      → Distinct ds
      → Distinct (keys places)
      → ((k : String) → contains k ds ≡ true → contains k (keys places) ≡ false)
      → All (λ e. LedBy paths e.1) places
      → Distinct (keys all)
        × ((k : String) → contains k (keys all) ≡ (contains k (keys places) || contains k ds))
        × (length (keys all) ≡ length (keys places) + length ds)
        × All (λ e. LedBy paths e.1) all
  unfolding slots
  slots-followers leader [] [] places all paths e l dd dp apart h =
      let same : places ≡ all = cc in rw (← same) (dp, λ k. ground arith, omega arith, h)
  slots-followers leader [] (o ∷ os) places all paths e l dd dp apart h = absurd (cc)
  slots-followers leader (d ∷ ds) [] places all paths e l dd dp apart h = absurd (cc)
  slots-followers leader (d ∷ ds) (o ∷ os) places all paths e l (fresh, dd) dp apart h =
      let new : contains d (keys places) ≡ false = apart d (ground (arith, eq_refl d)) in
      let (a, b, c, g) =
        slots-followers leader ds os (insert d (leader, o) places) all paths e l dd
          (insert-Distinct d (leader, o) places dp)
          (λ k m. ground (arith, keys-insert d k (leader, o) places, apart k, eq_iff d k))
          (values-insert (LedBy paths) d (leader, o) places h l) in
      (
        a,
        λ k. ground (arith, b k, keys-insert d k (leader, o) places),
        omega (arith, length-insert_new d (leader, o) places new),
        g,
      )
