-- ===== src/Ground/Announcements.antt =====
-- What the ground reports of the mission in progress (scenarios/sut.py), next to what the
-- supervisor knows of it.
use swarmsim.Dict.{keys}
use swarmsim.Fleet.{second_number, sort_ids}
use swarmsim.Errors.{Error, ok, err, Result-cases}
use swarmsim.Planning.{MissionMessage, MissionPlan, plan_drones, numbered}
use swarmsim.Float.{Float}
use swarmsim.Base.{
  none, some, true, inl, inr, refl, [], ◌∷◌, Option, List, String, Distinct, ◌++◌, contains, ◌≡◌,
  ◌∙◌, is_some, Bool-cases, arith, ◌==◌, keep, eq_refl, eq_iff, not, contains-append, ap,
}
use swarmsim.Supervisor.State.{
  Supervisor, Action, active_mission, assign, slot, command_drone, rejected, task_dropped, plan_ids,
  mission_drones,
}
use swarmsim.Supervisor.Start.{start, send_home, assign_all, slot_all}
use swarmsim.Supervisor.Missions.{
  ReturnsDicts, refuses, launches, start-Started, launch_actions, contains-eligible,
}
use swarmsim.SwarmState.Report.{all_numbered, numbered-ok}

all_numbered_of :
    (ds : List String)
    → ((k : String) → contains k ds ≡ true → is_some (second_number k) ≡ true)
    → all_numbered ds ≡ true
all_numbered_of [] h = refl
all_numbered_of (d ∷ ds) h =
    ground (arith, h d (ground (arith, eq_refl d)), all_numbered_of ds (λ k c. h k (ground arith)))

all_numbered_each :
    (ds : List String) (k : String)
    → all_numbered ds ≡ true
    → contains k ds ≡ true
    → is_some (second_number k) ≡ true
all_numbered_each [] k h c = absurd (cc)
all_numbered_each (d ∷ ds) k h c = elim (Bool-cases (d == k)) [
  | inl same ↦
      let first : is_some (second_number d) ≡ true = ground arith in
      let i = (eq_iff d k).0 same in rw i at first
  | inr other ↦ all_numbered_each ds k (ground arith) (ground arith)
]

module _ {F : Type 0} where
  -- What is announced after more actions.
  unfoldable pub announce :
      Option String → List String → List (Action F) → Option String × List String
  announce id ds [] = (id, ds)
  announce id ds (active_mission id' ds' ∷ actions) = announce id' ds' actions
  announce id ds (_ ∷ actions) = announce id ds actions

  -- The mission in progress and the drones that fly it.
  unfoldable pub in_progress : Supervisor F → Option String × List String
  in_progress s = elim s.mission [
    | none ↦ (none, [])
    | some m ↦ (some m.mission_id, plan_ids m.plan)
  ]

  pub announce-append :
      (id : Option String) (ds : List String) (xs ys : List (Action F))
      → announce id ds (xs ++ ys) ≡ announce (announce id ds xs).0 (announce id ds xs).1 ys
  unfolding announce
  announce-append id ds [] ys = refl
  announce-append id ds (active_mission id' ds' ∷ xs) ys = announce-append id' ds' xs ys
  announce-append id ds (assign d m p ∷ xs) ys = announce-append id ds xs ys
  announce-append id ds (slot d m l o ∷ xs) ys = announce-append id ds xs ys
  announce-append id ds (command_drone d n ∷ xs) ys = announce-append id ds xs ys
  announce-append id ds (rejected m r ∷ xs) ys = announce-append id ds xs ys
  announce-append id ds (task_dropped d m r ∷ xs) ys = announce-append id ds xs ys

  -- Actions that end by announcing a mission.
  pub announce_last :
      (id new : Option String) (ds these : List String) (xs : List (Action F))
      → announce id ds (xs ++ active_mission new these ∷ []) ≡ (new, these)
  unfolding announce
  announce_last id new ds these xs = announce-append id ds xs (active_mission new these ∷ [])

  launch_announces :
      (id : Option String) (ds home : List String) (plan : MissionPlan F)
      → announce id ds (launch_actions home plan) ≡ (some plan.mission_id, plan_ids plan)
  launch_announces id ds home plan =
      let homes = send_home home in
      let paths = assign_all plan.mission_id plan.paths in
      let slots = slot_all plan.mission_id plan.followers in
      let last : List (Action F) = active_mission (some plan.mission_id) (plan_ids plan) ∷ [] in
      let a = announce id ds homes in
      let b = announce a.0 a.1 paths in
      announce-append id ds homes (paths ++ (slots ++ last))
      ∙ announce-append a.0 a.1 paths (slots ++ last)
      ∙ announce_last b.0 (some plan.mission_id) b.1 (plan_ids plan) slots

module _ {F : Type 0} ⦃f : Float F⦄ where
  -- What the ground relies on: no drone is listed twice, each has a number, and another party's
  -- planner returns dicts.
  pub record IsReady (s : Supervisor F) : Type 0 where
    pub fleet : Distinct s.drones
    pub numbers : all_numbered s.drones ≡ true
    pub dicts : ReturnsDicts s.planner

  pub start_announces :
      (s : Supervisor F) (mission : MissionMessage F) (actions : List (Action F))
      (id : Option String) (ds : List String)
      → IsReady s
      → (start s mission).1 ≡ ok actions
      → (id, ds) ≡ in_progress s
      → announce id ds actions ≡ in_progress (start s mission).0
  unfolding announce in_progress
  start_announces s mission actions id ds r e now = elim (start-Started s mission r.dicts r.fleet) [
    | refuses same (inl (x, e')) ↦ absurd (cc)
    | refuses same (inr (reason, e')) ↦
        let these : rejected mission.mission_id reason ∷ [] ≡ actions = cc in rw (same, ← these) now
    | launches plan fl same (inl (x, c, e')) ↦ absurd (cc)
    | launches plan fl same (inr (drones, p, e')) ↦
        let home = sort_ids (keep (λ d. not (contains d drones)) (mission_drones s)) in
        let these : launch_actions home plan ≡ actions = cc in
        rw (same, ← these)
          (launch_announces id ds home plan
            ∙ ap (λ (m : String). (some m, plan_ids plan)) fl.right_mission)
  ]

  raises :
      (plan : MissionPlan F) (e : Error)
      → all_numbered (keys plan.paths ++ keys plan.followers) ≡ true
      → plan_drones plan ≡ err e
      → ⊥
  unfolding plan_drones
  raises plan e h c =
      let ids = keys plan.paths ++ keys plan.followers in
      elim (Result-cases (numbered ids)) [
        | inl (ns, r) ↦ ground arith
        | inr (x, r) ↦ ground (arith, numbered-ok ids)
      ]

  -- `start` does not raise for want of a number.
  pub start-raises :
      (s : Supervisor F) (mission : MissionMessage F) (e : Error)
      → IsReady s
      → (start s mission).1 ≡ err e
      → (start s mission).0 ≡ s
  start-raises s mission e r now = elim (start-Started s mission r.dicts r.fleet) [
    | refuses same _ ↦ same
    | launches plan fl same (inr (drones, p, e')) ↦ absurd (cc)
    | launches plan fl same (inl (x, c, e')) ↦
        let ids = keys plan.paths ++ keys plan.followers in
        let named : all_numbered ids ≡ true = all_numbered_of ids (λ k c.
          all_numbered_each s.drones k r.numbers (
            ground (
              arith,
              fl.from_offered k,
              contains-eligible s k,
              contains-append k (keys plan.paths) (keys plan.followers),
            ))) in
        absurd (raises plan x named c)
  ]
