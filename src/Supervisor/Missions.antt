-- ===== src/Supervisor/Missions.antt =====
-- What starting a mission does (supervisor.py `start`), with the default planner and with any
-- other.
use swarmsim.Fleet.{sort_ids}
use swarmsim.Planning.Missions.{plan_mission-IsFlyable}
use swarmsim.Errors.{Result, ok, Error, err, Result-cases}
use swarmsim.Float.{Float}
use swarmsim.Supervisor.State.{
  raised, another_value, too_few_fit, Planner, Mission, Action, planned, active_mission, plan_ids,
  Supervisor, Planned, low, Reason, rejected, mission_drones,
}
use swarmsim.Supervisor.Start.{
  refused, send_home, assign_all, slot_all, checked, choose_plan, eligible, start, launch, flown,
  unusable, known_positions,
}
use mathlib.Core.List.{append-nil}
use swarmsim.Supervisor.Checking.{IsDicts, unusable_sound}
use swarmsim.Trajectory.{Vector3}
use swarmsim.Planning.Plans.{IsFlyable, size, has_part}
use swarmsim.Dict.{Dict, keys}
use swarmsim.Supervisor.Messages.{
  assigned, slotted, sent_home, assigned-append, slotted-append, sent_home-append,
}
use swarmsim.Planning.{MissionMessage, MissionPlan, plan_mission, plan_drones}
use swarmsim.Base.{
  none, some, true, refl, [], ◌∷◌, Option, List, String, ◌≡◌, ◌++◌, ap, contains, inl, inr,
  Distinct, ◌&&◌, not, Option-cases, contains-keep, ◌⊎◌, arith, take, Distinct-take, keep,
  contains-take, sym, ◌∙◌, Distinct-keep, Bool-cases, ltb, length,
}

send_home-messages :
    (F : Type 0) (ds : List String)
    → (assigned (send_home {F = F} ds) ≡ [])
      × (slotted (send_home {F = F} ds) ≡ [])
      × (sent_home (send_home {F = F} ds) ≡ ds)
unfolding send_home assigned slotted sent_home
send_home-messages F [] = (refl, refl, refl)
send_home-messages F (d ∷ ds) =
    let (a, b, c) = send_home-messages F ds in (a, b, ap (λ (rest : List String). d ∷ rest) c)

module _ {F : Type 0} where
  -- Another party's planner returns plans of two dicts.
  abbrev pub ReturnsDicts : Option (Planner F) → Type 0
  ReturnsDicts none = Unit
  ReturnsDicts (some planner) =
      (mission : MissionMessage F) (offered : List String) (known : Dict (Vector3 F))
      (plan : MissionPlan F)
      → planner mission offered known ≡ planned plan
      → IsDicts plan

  -- The mission that is flown by a plan from its start.
  abbrev pub new_mission : MissionMessage F → MissionPlan F → Mission F
  new_mission mission plan = record {
    mission_id = mission.mission_id;
    plan = plan;
    progress = [];
    retired = [];
    dropped = [];
  }

  -- A plan flies `mission` on drones of `offered`.
  pub record Flies (mission : MissionMessage F) (offered : List String) (plan : MissionPlan F)
      : Type 0 where
    pub flyable : IsFlyable plan
    pub right_size : size plan ≡ mission.drone_count
    pub from_offered : (k : String) → has_part plan k ≡ true → contains k offered ≡ true
    pub right_mission : plan.mission_id ≡ mission.mission_id

  assign_all-messages :
      (mission : String) (paths : Dict (List (Vector3 F)))
      → let actions = assign_all mission paths in
        (assigned actions ≡ keys paths) × (slotted actions ≡ []) × (sent_home actions ≡ [])
  unfolding assign_all assigned slotted sent_home keys
  assign_all-messages mission [] = (refl, refl, refl)
  assign_all-messages mission ((d, path) ∷ paths) =
      let (a, b, c) = assign_all-messages mission paths in
      (ap (λ (rest : List String). d ∷ rest) a, b, c)

  slot_all-messages :
      (mission : String) (followers : Dict (String × Vector3 F))
      → let actions = slot_all mission followers in
        (assigned actions ≡ []) × (slotted actions ≡ keys followers) × (sent_home actions ≡ [])
  unfolding slot_all assigned slotted sent_home keys
  slot_all-messages mission [] = (refl, refl, refl)
  slot_all-messages mission ((d, (leader, o)) ∷ followers) =
      let (a, b, c) = slot_all-messages mission followers in
      (a, ap (λ (rest : List String). d ∷ rest) b, c)

  -- The messages of a launch.
  abbrev pub launch_actions : List String → MissionPlan F → List (Action F)
  launch_actions home plan =
      send_home home
      ++ (assign_all plan.mission_id plan.paths
          ++ (slot_all plan.mission_id plan.followers
              ++ (active_mission (some plan.mission_id) (plan_ids plan) ∷ [])))

  pub launch_actions-messages :
      (home : List String) (plan : MissionPlan F)
      → let actions = launch_actions home plan in
        (assigned actions ≡ keys plan.paths)
        × (slotted actions ≡ keys plan.followers)
        × (sent_home actions ≡ home)
  launch_actions-messages home plan =
      let last : List (Action F) = active_mission (some plan.mission_id) (plan_ids plan) ∷ [] in
      let slots = slot_all plan.mission_id plan.followers in
      let paths = assign_all plan.mission_id plan.paths in
      let (a₁, b₁, c₁) = send_home-messages F home in
      let (a₂, b₂, c₂) = assign_all-messages plan.mission_id plan.paths in
      let (a₃, b₃, c₃) = slot_all-messages plan.mission_id plan.followers in
      let none_assigned : assigned last ≡ [] = unfold assigned in refl in
      let none_slotted : slotted last ≡ [] = unfold slotted in refl in
      let none_home : sent_home last ≡ [] = unfold sent_home in refl in
      (
        simp (assigned-append, a₁, a₂, a₃, none_assigned, append-nil),
        simp (slotted-append, b₁, b₂, b₃, none_slotted, append-nil),
        simp (sent_home-append, c₁, c₂, c₃, none_home, append-nil),
      )

module _ {F : Type 0} ⦃f : Float F⦄ where
  checked-Flies :
      (answer : Planned F) (mission : MissionMessage F) (offered : List String)
      (plan : MissionPlan F)
      → ((p : MissionPlan F) → answer ≡ planned p → IsDicts p)
      → checked answer mission offered ≡ flown plan
      → Flies mission offered plan
  unfolding checked
  checked-Flies raised mission offered plan d e = absurd (cc)
  checked-Flies another_value mission offered plan d e = absurd (cc)
  checked-Flies (planned p) mission offered plan d e =
      elim (Option-cases (unusable p mission offered)) [
        | inr (problem, u) ↦ absurd (ground arith)
        | inl u ↦
            let (a, b, c, i) = unusable_sound p mission offered (d p refl) u in
            let same : p ≡ plan = ground arith in
            rw (← same)
              (record { flyable = a; right_size = b; from_offered = c; right_mission = i })
      ]

  choose_plan-Flies :
      (s : Supervisor F) (mission : MissionMessage F) (offered : List String) (plan : MissionPlan F)
      → ReturnsDicts s.planner
      → Distinct offered
      → choose_plan s mission offered ≡ ok (flown plan)
      → Flies mission offered plan
  unfolding choose_plan
  choose_plan-Flies s mission offered plan r d e = elim (Option-cases s.planner) [
    | inr (planner, p) ↦
        let known = known_positions s.positions offered [] in
        checked-Flies (planner mission offered known) mission offered plan
          ((rw p at r) mission offered known) (ground arith)
    | inl p ↦
        let n = mission.drone_count in
        let made : plan_mission mission (take n offered) ≡ ok plan = ground arith in
        let (a, b, c, i) =
          plan_mission-IsFlyable mission (take n offered) plan (Distinct-take n offered d) made in
        record {
          flyable = a;
          right_size = b;
          from_offered =
              λ k h. contains-take n k offered (contains-take n k (take n offered) (sym (c k) ∙ h));
          right_mission = i;
        }
  ]

  pub contains-eligible :
      (s : Supervisor F) (k : String)
      → contains k (eligible s) ≡ (contains k s.drones && not (low s k))
  unfolding eligible
  contains-eligible s k = contains-keep (λ d. not (low s d)) k s.drones

  -- What a call of `start` ends in: it raised, or rejected the mission, and changed nothing; or
  -- it has launched a plan.
  pub data Started (s : Supervisor F) (mission : MissionMessage F) (s' : Supervisor F)
      (r : Result (List (Action F))) : Type 0 where
    refuses :
        s' ≡ s
        → ((e : Error) × (r ≡ err e))
          ⊎ ((reason : Reason) × (r ≡ ok (rejected mission.mission_id reason ∷ [])))
        → Started s mission s' r
    launches :
        (plan : MissionPlan F)
        → Flies mission (eligible s) plan
        → s' ≡ record s { mission = some (new_mission mission plan) }
        → ((e : Error) × (plan_drones plan ≡ err e) × (r ≡ err e))
          ⊎ ((drones : List String) × (plan_drones plan ≡ ok drones)
              × (r
                  ≡ ok (
                      launch_actions
                        (sort_ids (keep (λ d. not (contains d drones)) (mission_drones s)))
                        plan)))
        → Started s mission s' r

  eligible-Distinct : (s : Supervisor F) → Distinct s.drones → Distinct (eligible s)
  unfolding eligible
  eligible-Distinct s d = Distinct-keep (λ k. not (low s k)) s.drones d

  launch-Started :
      (s : Supervisor F) (mission : MissionMessage F) (plan : MissionPlan F)
      → Flies mission (eligible s) plan
      → let after = launch s mission (mission_drones s) plan in Started s mission after.0 after.1
  unfolding launch
  launch-Started s mission plan fl = elim (Result-cases (plan_drones plan)) [
    | inr (e, c) ↦ rw (c, launch) (launches plan fl refl (inl (e, c, refl)))
    | inl (drones, c) ↦ rw (c, launch) (launches plan fl refl (inr (drones, c, refl)))
  ]

  pub start-Started :
      (s : Supervisor F) (mission : MissionMessage F)
      → ReturnsDicts s.planner
      → Distinct s.drones
      → Started s mission (start s mission).0 (start s mission).1
  unfolding start
  start-Started s mission r d =
      let fit = eligible s in
      elim (Bool-cases (ltb (length fit) mission.drone_count)) [
        | inl few ↦
            rw (few, start)
              (refuses refl
                (inr (too_few_fit mission.drone_count (length fit) (keep (low s) s.drones), refl)))
        | inr enough ↦ elim (Result-cases (choose_plan s mission fit)) [
          | inr (e, c) ↦ rw (enough, c, start) (refuses refl (inl (e, refl)))
          | inl (refused reason, c) ↦ rw (enough, c, start) (refuses refl (inr (reason, refl)))
          | inl (flown plan, c) ↦
              rw (enough, c, start)
                (launch-Started s mission plan
                  (choose_plan-Flies s mission fit plan r (eligible-Distinct s d) c))
        ]
      ]
