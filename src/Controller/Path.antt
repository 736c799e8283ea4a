-- ===== src/Controller/Path.antt =====
-- How a drone gets through a path (drone_controller.py and waypoints.py).
use swarmsim.Errors.{Result-cases}
use swarmsim.Trajectory.{Vector3, distance_to, step_towards}
use swarmsim.Waypoints.{WaypointQueue, advance, current, new_queue}
use swarmsim.Controller.{
  tick, Controller, progress, tick_task, Reading, task_done, hand_back, handover, keep_handing_over,
  pursue, target, fly, comms_lost, assign_path,
}
use swarmsim.Float.{Float}
use swarmsim.Controller.Invariant.{IsValid, tick-IsValid}
use swarmsim.Base.{
  none, some, true, false, refl, [], ◌∷◌, Option, List, ℕ, ◌≤◌, ◌≡◌, length, is_some, arith, ◌+◌,
  ◌<◌, inl, inr, Bool, String, ◌||◌, Option-cases, zero, suc, drop, get_elem?,
}
use swarmsim.Controller.Handover.{after}

drop-cons {ℓ} :
    {A : Type ℓ} (n : ℕ) (xs : List A) (y : A) (ys : List A)
    → drop n xs ≡ y ∷ ys
    → (get_elem? xs n ≡ some y) × (drop (n + 1) xs ≡ ys) × (length xs ≡ n + 1 + length ys)
drop-cons zero [] y ys e = absurd (cc)
drop-cons zero (x ∷ xs) y ys e = ground arith
drop-cons (suc n) [] y ys e = absurd (cc)
drop-cons (suc n) (x ∷ xs) y ys e = ground (arith, drop-cons n xs y ys e)

module _ {F : Type 0} ⦃f : Float F⦄ where
  -- How far along its path a drone is, and how long the path is.
  abbrev pub path_index : Option (WaypointQueue F) → ℕ
  path_index none = 0
  path_index (some q) = q.index

  abbrev pub path_length : Option (WaypointQueue F) → ℕ
  path_length none = 0
  path_length (some q) = length q.waypoints

  -- The same task, at least as far along its path.
  record Along (c c' : Controller F) : Type 0 where
    forward : path_index c.queue ≤ path_index c'.queue
    same_length : path_length c'.queue ≡ path_length c.queue
    same_kind : is_some c'.queue ≡ is_some c.queue
    same_mission : c'.mission_id ≡ c.mission_id

  Along-keep_handing_over :
      (c : Controller F) (now : F) (armed : Option Bool) (mode : Option String)
      → Along c (keep_handing_over c now armed mode).0
  unfolding keep_handing_over
  Along-keep_handing_over c now armed mode = ground arith

  Along-hand_back :
      (c : Controller F) (mode : String) (r : Reading F) → Along c (hand_back c mode r).0
  unfolding hand_back handover
  Along-hand_back c mode r = ground arith

  Along-target :
      (c : Controller F) (p : Vector3 F) (leader : Option (Vector3 F))
      → Along c (target c p leader).0
  unfolding target advance
  Along-target c p leader = ground arith

  Along-fly : (c : Controller F) (r : Reading F) (goal : Vector3 F) → Along c (fly c r goal).0
  unfolding fly
  Along-fly c r goal = ground (
    arith,
    Along-hand_back (record c { complete = is_some c.queue || is_some c.leader }) "AUTO.LAND" r,
  )

  Along-pursue : (c : Controller F) (r : Reading F) (p : Vector3 F) → Along c (pursue c r p).0
  unfolding pursue
  Along-pursue c r p = elim (Result-cases (target c p r.leader_position).1) [
    | inl (none, t) ↦ ground (arith, Along-target c p r.leader_position)
    | inl (some goal, t) ↦ ground (
      arith,
      Along-target c p r.leader_position,
      Along-fly (target c p r.leader_position).0 r goal,
    )
    | inr (_, t) ↦ ground (arith, Along-target c p r.leader_position)
  ]

  Along-tick : (c : Controller F) (r : Reading F) → Along c (tick c r).0
  unfolding tick tick_task
  Along-tick c r = elim (Option-cases r.position) [
    | inl e ↦ ground (arith, Along-keep_handing_over c r.now r.armed r.mode)
    | inr (p, e) ↦ ground (
      arith,
      Along-keep_handing_over c r.now r.armed r.mode,
      Along-hand_back c "AUTO.RTL" r,
      Along-pursue c r p,
    )
  ]

  Along-after : (c : Controller F) (rs : List (Reading F)) → Along c (after c rs)
  unfolding after
  Along-after c [] = ground arith
  Along-after c (r ∷ rs) = ground (arith, Along-tick c r, Along-after (tick c r).0 rs)

  after-IsValid : (c : Controller F) (rs : List (Reading F)) → IsValid c → IsValid (after c rs)
  unfolding after
  after-IsValid c [] v = v
  after-IsValid c (r ∷ rs) v = after-IsValid (tick c r).0 rs (tick-IsValid c r v)

  -- What a path reports, in the invariant.
  progress-path :
      (c : Controller F) (q : WaypointQueue F)
      → IsValid c
      → c.queue ≡ some q
      → let p = progress c in
        (p.waypoint_index ≡ some q.index)
        × (p.waypoint_count ≡ some (length q.waypoints))
        × (p.mission_id ≡ c.mission_id)
        × (p.complete ≡ true → q.index ≡ length q.waypoints)
  unfolding progress task_done
  progress-path c q v e = ground arith

  -- Over any sequence of ticks of one task, the waypoint index that a drone reports never falls
  -- and stays within the waypoint count, the count stays, and a path that is reported complete has
  -- been flown to its last waypoint.
  pub progress_advances :
      (c : Controller F) (q : WaypointQueue F) (rs : List (Reading F))
      → IsValid c
      → c.queue ≡ some q
      → (j : ℕ) × ((progress (after c rs)).waypoint_index ≡ some j)
        × ((progress (after c rs)).waypoint_count ≡ some (length q.waypoints))
        × ((progress (after c rs)).mission_id ≡ c.mission_id)
        × (q.index ≤ j)
        × (j ≤ length q.waypoints)
        × ((progress (after c rs)).complete ≡ true → j ≡ length q.waypoints)
  progress_advances c q rs v e =
      let along = Along-after c rs in
      let v' = after-IsValid c rs v in
      elim (Option-cases (after c rs).queue) [
        | inl gone ↦ absurd (ground arith)
        | inr (q', e') ↦
            let (a, b, m, d) = progress-path (after c rs) q' v' e' in
            (q'.index, a, ground arith, ground arith, ground arith, ground arith, ground arith)
      ]

  -- The drone is at the waypoint that it pursues, on each of a list of ticks.
  abbrev pub Visits : F → List (Vector3 F) → List (Reading F) → Type 0
  Visits tolerance [] [] = Unit
  Visits tolerance (w ∷ ws) (r ∷ rs) =
      (p : Vector3 F) × (r.position ≡ some p)
      × (f.le (distance_to p w) tolerance ≡ true)
      × Visits tolerance ws rs
  Visits tolerance _ _ = ⊥

  record Flies (c : Controller F) (q : WaypointQueue F) : Type 0 where
    on_path : c.queue ≡ some q
    no_leader : c.leader ≡ none
    in_control : c.handover_mode ≡ none

  visit_last :
      (c : Controller F) (q : WaypointQueue F) (r : Reading F) (p w : Vector3 F)
      → Flies c q
      → r.position ≡ some p
      → current q ≡ some w
      → f.le (distance_to p w) q.tolerance ≡ true
      → length q.waypoints ≤ q.index + 1
      → let c' = (tick c r).0 in (c'.complete ≡ true) × (c'.handover_mode ≡ some "AUTO.LAND")
  unfolding tick tick_task hand_back handover keep_handing_over pursue target fly advance task_done
      comms_lost
  visit_last c q r p w h e a d l = ground arith

  visit_next :
      (c : Controller F) (q : WaypointQueue F) (r : Reading F) (p w : Vector3 F)
      → Flies c q
      → f.le c.max_step (f.of_nat 0) ≡ false
      → r.position ≡ some p
      → current q ≡ some w
      → f.le (distance_to p w) q.tolerance ≡ true
      → q.index + 1 < length q.waypoints
      → Flies (tick c r).0 (record q { index = q.index + 1 }) × ((tick c r).0.max_step ≡ c.max_step)
  unfolding tick tick_task hand_back handover keep_handing_over pursue target fly advance task_done
      comms_lost step_towards
  visit_next c q r p w h s e a d l = ground arith

  get_elem?-current :
      (q : WaypointQueue F) (w : Vector3 F) (ws : List (Vector3 F))
      → drop q.index q.waypoints ≡ w ∷ ws
      → (current q ≡ some w)
        × (drop (q.index + 1) q.waypoints ≡ ws)
        × (length q.waypoints ≡ q.index + 1 + length ws)
  unfolding current
  get_elem?-current q w ws e = ground (arith, drop-cons q.index q.waypoints w ws e)

  Visits-complete :
      (ws : List (Vector3 F)) (rs : List (Reading F)) (w : Vector3 F) (c : Controller F)
      (q : WaypointQueue F)
      → Flies c q
      → f.le c.max_step (f.of_nat 0) ≡ false
      → drop q.index q.waypoints ≡ w ∷ ws
      → Visits q.tolerance (w ∷ ws) rs
      → let c' = after c rs in (c'.complete ≡ true) × (c'.handover_mode ≡ some "AUTO.LAND")
  unfolding after
  Visits-complete ws [] w c q h s e v = absurd v
  Visits-complete [] (r ∷ []) w c q h s e (p, at, near, v) =
      let (now, _, n) = get_elem?-current q w [] e in
      visit_last c q r p w h at now near (omega arith)
  Visits-complete [] (r ∷ _ ∷ _) w c q h s e (p, at, near, v) = absurd v
  Visits-complete (u ∷ us) (r ∷ rs) w c q h s e (p, at, near, v) =
      let (now, rest, n) = get_elem?-current q w (u ∷ us) e in
      let (h', same) = visit_next c q r p w h s at now near (omega arith) in
      Visits-complete us rs u (tick c r).0 (record q { index = q.index + 1 }) h' (ground arith) rest
        v

  -- A drone that is given a path, and on each tick is at the waypoint that it pursues, within its
  -- tolerance, has reported the path complete and handed over to AUTO.LAND after as many ticks as
  -- the path has waypoints, whatever else it reads.
  pub path_completes :
      (c : Controller F) (mission : String) (w : Vector3 F) (ws : List (Vector3 F))
      (rs : List (Reading F))
      → f.le c.max_step (f.of_nat 0) ≡ false
      → Visits c.tolerance (w ∷ ws) rs
      → let c' = after (assign_path c mission (w ∷ ws)).0 rs in
        ((progress c').complete ≡ true) × (c'.handover_mode ≡ some "AUTO.LAND")
  unfolding assign_path progress
  path_completes c mission w ws rs s v =
      let q = new_queue (w ∷ ws) c.tolerance in
      let (done, lands) =
        Visits-complete ws rs w (assign_path c mission (w ∷ ws)).0 q (ground arith) (ground arith)
          refl v in
      (ground arith, lands)
